-- ===== src/Runtime/Engine/Step.antt =====
-- The last parts of `step_mission` of crates/plexis-runtime/src/mission/engine.rs (progress, the next
-- cycle, the checkpoint), and the whole step.
use axonel.Prelude.{
  ℕ, suc, ◌+◌, ◌%◌, ◌^◌, String, Bool, false, not, ◌&&◌, ◌||◌, Option, none, some, List, [], ◌∷◌,
  length, leb, ◌==◌, if◌then◌else◌, ok, and_then,
}
use axonel.Core.Ids.{MissionId, WorkflowId}
use axonel.Core.State.Mission.{replanning, needs_human, is_terminal}
use axonel.Core.State.Task as State
use axonel.Core.State.Task.{TaskState}
use axonel.Core.Task.{Task}
use axonel.Core.Execution.{Execution}
use axonel.Core.Mission.{
  Mission, MissionCycle, replanning_after_failure, replanning_after_completion, stagnation,
  progress, new_cycle,
}
use axonel.Runtime.Mission.{
  BudgetTracker, record_planner_iteration, record_stagnant_cycle, reset_stagnant_cycles,
  check_exhaustion, ProgressSnapshot, LivenessEvaluator, new_evaluator, evaluate,
}
use axonel.Runtime.Engine.Store.{
  Store, Outcome, stagnation_detected, replan_started, progress_checkpoint, get_mission,
  update_mission, list_tasks_by_workflow, list_executions_by_task, create_cycle, emit,
}
use axonel.Runtime.Engine.Stopping.{get_git_commit_sha, evaluate_stopping_condition}
use axonel.Runtime.Engine.Control.{is_state, try_move, escalate_human}
use axonel.Runtime.Engine.Cycle.{
  WorkflowExecutionSummary, Env, is_task_state, failed_in, discovered_in, active_in, tracker_of,
  halt, begin_cycle, workspace_path, ensure_workflow, run_cycle,
}
use axonel.Runtime.Engine.Review.{
  or_else, evaluation_target, create_checkpoint, accept, escalate_and_reload, human_needed,
}

-- What the evaluation of progress leaves: the mission and the tracker with their stagnant cycles.
pub record Assessment (J : Type 0) : Type 0 where
  pub mission : Mission J
  pub tracker : BudgetTracker
  pub progressed : Bool

module _ {J : Type 0} where
  unfoldable pub completed_count : List (Task J) → ℕ
  completed_count [] = 0
  completed_count (t ∷ ts) =
      let rest = completed_count ts in
      if is_task_state t.state State.verified then suc rest else rest

  unfoldable pub any_failed_or_blocked : List (Task J) → Bool
  any_failed_or_blocked [] = false
  any_failed_or_blocked (t ∷ ts) =
      is_task_state t.state State.failed
      || (is_task_state t.state State.blocked || any_failed_or_blocked ts)

  abbrev pub commit_at : Env J → Option String → Option String
  commit_at env none = none
  commit_at env (some path) = get_git_commit_sha env.world path

  first_error : List (Execution J) → Option String
  first_error [] = none
  first_error (e ∷ es) = or_else e.error_message (first_error es)

  unfoldable pub last_error : Store J → List (Task J) → Option String
  unfolding first_error list_executions_by_task
  last_error s [] = none
  last_error s (t ∷ ts) = or_else (first_error (list_executions_by_task t.id s)) (last_error s ts)

  -- 7. The evaluator starts from the snapshot that it then evaluates.
  unfoldable pub measure : ProgressSnapshot → Mission J → BudgetTracker → Assessment J
  unfolding new_evaluator evaluate reset_stagnant_cycles record_stagnant_cycle
  measure now m t =
      let v : LivenessEvaluator = record (new_evaluator m.budget.max_stagnant_cycles now) {
        consecutive_stagnant_cycles = m.budget_consumed.stagnant_cycles;
      } in
      let found = (evaluate now v).1 in
      let t' = if found.1 then reset_stagnant_cycles t else record_stagnant_cycle t in
      record {
        mission = record m {
          health_status = found.0;
          budget_consumed = record m.budget_consumed {
            stagnant_cycles = if found.1 then 0 else t'.consumed.stagnant_cycles;
          };
        };
        tracker = t';
        progressed = found.1;
      }

  unfoldable pub stalls : Assessment J → Bool
  stalls a =
      not a.progressed
      && leb a.mission.budget.max_stagnant_cycles a.mission.budget_consumed.stagnant_cycles

  unfoldable pub stagnate : Env J → MissionId → ℕ → List (Task J) → Store J → Outcome J (Mission J)
  unfolding last_error emit escalate_human get_mission
  stagnate env id cycles ts s =
      let s₁ = emit (stagnation_detected id cycles) s in
      get_mission id (escalate_human env.json id (stagnation cycles (last_error s₁ ts)) s₁).0

  -- 8. The next cycle.
  unfoldable pub replanned : BudgetTracker → Mission J → Mission J
  unfolding try_move record_planner_iteration
  replanned t m = record (try_move replanning m) {
    cycle_index = (m.cycle_index + 1) % 2 ^ 32;
    budget_consumed = (record_planner_iteration t).consumed;
    active_workflow_id = none;
  }

  abbrev pub cycle_ends : Bool → List (Task J) → Bool
  cycle_ends failed [] = failed
  cycle_ends failed (t ∷ ts) = failed || completed_count (t ∷ ts) == length (t ∷ ts)

  abbrev pub journal :
      Env J → MissionId → WorkflowId → Option WorkflowExecutionSummary → Bool → ℕ → MissionCycle
  journal env id w summary failed cycle =
      record (new_cycle env.now id cycle w (if failed then "recovery" else "continuation")) {
        completed_at = some env.now;
        outcome = some (if failed then replanning_after_failure else replanning_after_completion);
        discovered_tasks_count = discovered_in summary;
      }

  unfoldable pub next_cycle :
      Env J
      → MissionId
      → WorkflowId
      → Option WorkflowExecutionSummary
      → Bool
      → List (Task J)
      → BudgetTracker
      → Mission J
      → Store J
      → Store J × Mission J
  unfolding new_cycle create_cycle replanned emit completed_count
  next_cycle env id w summary failed ts t m s =
      if cycle_ends failed ts
      then (let m' = replanned t m in
          (
            emit (replan_started id m'.cycle_index failed)
                (create_cycle (journal env id w summary failed m.cycle_index) s),
            m',
          ))
      else (s, m)

  -- 9. The checkpoint.
  unfoldable pub keep :
      Env J
      → MissionId
      → WorkflowId
      → Option WorkflowExecutionSummary
      → Bool
      → List (Task J)
      → Option String
      → Mission J
      → Store J
      → Outcome J (Mission J)
  unfolding create_checkpoint update_mission emit completed_count
  keep env id w summary failed ts commit m s =
      let done = completed_count ts in
      let context = progress m.cycle_index done (length ts) failed in
      let s₁ =
        create_checkpoint env id m.cycle_index w m.budget_consumed commit (active_in summary)
          context s in
      (emit (progress_checkpoint id m.cycle_index done (length ts)) (update_mission m s₁), ok m)

  -- 7. to 9., with the progress measured.
  unfoldable pub settle :
      Env J
      → MissionId
      → WorkflowId
      → Option WorkflowExecutionSummary
      → List (Task J)
      → (commit : Option String) → Assessment J
      → Store J
      → Outcome J (Mission J)
  unfolding completed_count any_failed_or_blocked stalls stagnate next_cycle keep
  settle env id w summary ts commit a s =
      let failed = any_failed_or_blocked ts || failed_in summary in
      if stalls a
      then stagnate env id a.mission.budget_consumed.stagnant_cycles ts s
      else (let next = next_cycle env id w summary failed ts a.tracker a.mission s in
          keep env id w summary failed ts commit next.1 next.0)

  unfoldable pub assess :
      Env J
      → MissionId
      → WorkflowId
      → Option WorkflowExecutionSummary
      → List (Task J)
      → (path candidate : Option String) → BudgetTracker
      → Mission J
      → Store J
      → Outcome J (Mission J)
  unfolding completed_count measure settle get_git_commit_sha
  assess env id w summary ts path candidate t m s =
      let commit = or_else candidate (commit_at env path) in
      let snapshot : ProgressSnapshot = record {
        completed_tasks_count = completed_count ts;
        task_graph_node_count = length ts;
        latest_git_commit = commit;
        timestamp = env.now;
      } in
      settle env id w summary ts commit (measure snapshot m t) s

  -- 5. The stopping condition, where there is a path to evaluate it at.
  abbrev pub satisfied : Env J → Option String → Mission J → Bool × Option String
  satisfied env none m = (false, none)
  satisfied env (some path) m = evaluate_stopping_condition env.world path m.stopping_condition

  unfoldable pub review :
      Env J
      → MissionId
      → WorkflowId
      → Option String
      → Option WorkflowExecutionSummary
      → BudgetTracker
      → Mission J
      → Store J
      → Outcome J (Mission J)
  unfolding list_tasks_by_workflow evaluation_target evaluate_stopping_condition accept human_needed
      escalate_and_reload assess
  review env id w path summary t m s =
      let ts = list_tasks_by_workflow w s in
      let target = evaluation_target env path ts in
      let found = satisfied env target.0 m in
      if found.0
      then accept env id w summary (or_else found.1 target.1) m s
      else elim (human_needed env s ts) [
        | some reason ↦ escalate_and_reload env id reason s
        | none ↦ assess env id w summary ts path target.1 t m s
      ]

  unfoldable pub work : Env J → MissionId → Mission J → Store J → Outcome J (Mission J)
  unfolding begin_cycle workspace_path ensure_workflow run_cycle review
  work env id m s =
      let path = workspace_path m s in
      and_then (ensure_workflow env (begin_cycle m) s) λ s₁ owned.
        and_then (run_cycle env id owned.1 owned.0 s₁)
          λ s₂ ran. review env id owned.1 path ran.1.1 ran.1.0 ran.0 s₂

  unfoldable pub step_mission : Env J → MissionId → Store J → Outcome J (Mission J)
  unfolding get_mission is_terminal tracker_of check_exhaustion halt work
  step_mission env id s = and_then (get_mission id s) λ s₁ m.
      if is_terminal m.state || is_state m.state needs_human
      then (s₁, ok m)
      else elim (check_exhaustion (tracker_of m)) [
        | some limit ↦ halt id limit m s₁
        | none ↦ work env id m s₁
      ]
