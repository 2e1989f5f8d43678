-- ===== src/Runtime/Engine/Cycle.antt =====
-- The first parts of `step_mission` of crates/plexis-runtime/src/mission/engine.rs, as its comments
-- number them: the budget, the workflow of the cycle, and its execution. `Env` is what a step finds
-- outside: the registered `WorkflowExecutor` (crates/plexis-runtime/src/mission/executor.rs), the
-- world, the clock, read once, and fresh UUIDs.
use axonel.Prelude.{
  ℕ, zero, suc, ◌%◌, ◌^◌, String, Bool, true, false, ◌||◌, Option, none, some, List, [], ◌∷◌, ltb,
  ite, if◌then◌else◌, ok, and_then,
}
use axonel.Prelude.Map
use axonel.Core.Ids.{MissionId, WorkflowId, ExecutionId, CheckpointId, Instant}
use axonel.Core.State.Mission.{planning, running, replanning, budget_exhausted}
use axonel.Core.State.Task.{TaskState, TaskState-discrete}
use axonel.Core.Budget.{Limit}
use axonel.Core.Workflow as Workflow
use axonel.Core.Workflow.{Workflow}
use axonel.Core.Mission.{Mission, MissionCycle, Note, halted_by}
use axonel.Runtime.Mission.{BudgetTracker, record_execution}
use axonel.Runtime.Engine.Store.{
  Json, Store, Outcome, budget_warning, update_mission, create_workflow, list_cycles, emit,
  unmark_running,
}
use axonel.Runtime.Engine.Stopping.{World}
use axonel.Runtime.Engine.Control.{is_state, try_move}

-- Without its `details`, which nothing reads.
pub record WorkflowExecutionSummary : Type 0 where
  pub executed_tasks_count : ℕ
  pub completed_tasks_count : ℕ
  pub failed_tasks_count : ℕ
  pub discovered_tasks_count : ℕ
  pub active_executions : List ExecutionId

abbrev pub Executor : Type 0 → Type 0
Executor J = WorkflowId → MissionId → Store J → Outcome J WorkflowExecutionSummary

pub record Env (J : Type 0) : Type 0 where
  pub json : Json J
  pub executor : Option (Executor J)
  pub world : World
  pub now : Instant
  pub workflow_id : WorkflowId
  pub checkpoint_id : CheckpointId

abbrev pub is_task_state : TaskState → TaskState → Bool
is_task_state a b = ite (TaskState-discrete a b) true false

unfoldable pub record_executions : ℕ → BudgetTracker → BudgetTracker
unfolding record_execution
record_executions zero t = t
record_executions (suc n) t = record_executions n (record_execution t)

abbrev pub failed_in : Option WorkflowExecutionSummary → Bool
failed_in none = false
failed_in (some s) = ltb 0 s.failed_tasks_count

abbrev pub discovered_in : Option WorkflowExecutionSummary → ℕ
discovered_in none = 0
discovered_in (some s) = s.discovered_tasks_count % 2 ^ 32

abbrev pub active_in : Option WorkflowExecutionSummary → List ExecutionId
active_in none = []
active_in (some s) = s.active_executions

diagnostics : List MissionCycle → List (ℕ × (String × Note))
diagnostics [] = []
diagnostics (c ∷ cs) =
    let rest = diagnostics cs in
    elim c.outcome [ none ↦ rest | some o ↦ (c.cycle_index, (c.phase, o)) ∷ rest ]

module _ {J : Type 0} where
  unfoldable pub tracker_of : Mission J → BudgetTracker
  tracker_of m = record { budget = m.budget; consumed = m.budget_consumed }

  -- 1. Budget enforcement.
  unfoldable pub halt : MissionId → Limit → Mission J → Store J → Outcome J (Mission J)
  unfolding try_move update_mission unmark_running emit
  halt id limit m s =
      let m' : Mission J = record (try_move budget_exhausted m) {
        final_outcome = some (record {
          success = false;
          summary = halted_by limit;
          verified_commit_sha = m.latest_verified_commit;
          cycles_count = m.cycle_index;
          completion_reason = halted_by limit;
        });
      } in
      (
        emit (budget_warning id limit m'.budget_consumed) (unmark_running id (update_mission m' s)),
        ok m',
      )

  -- 2. A cycle starts.
  unfoldable pub begin_cycle : Mission J → Mission J
  unfolding try_move
  begin_cycle m =
      if is_state m.state planning || is_state m.state replanning then try_move running m else m

  -- 3. The path of the workspace.
  unfoldable pub workspace_path : Mission J → Store J → Option String
  workspace_path m s = elim m.workspace_id [ none ↦ none | some id ↦ Map.get s.workspaces id ]

  -- 4. The active workflow of the cycle.
  abbrev diagnosed : Json J → List (ℕ × (String × Note)) → J → J
  diagnosed json [] meta = meta
  diagnosed json (d ∷ ds) meta = json.set "failure_diagnostics" (json.diagnostics (d ∷ ds)) meta

  -- The number of the cycle, which its title names too, stands in the metadata.
  abbrev backend_of : Json J → J → J
  backend_of json meta = elim (json.get "backend" meta) [
    | none ↦ json.text "gemini_cli"
    | some b ↦ b
  ]

  unfoldable pub cycle_workflow : Env J → Mission J → Store J → Workflow J
  unfolding diagnostics list_cycles Workflow.new
  cycle_workflow env m s =
      let json = env.json in
      let past = if ltb 0 m.cycle_index then diagnostics (list_cycles m.id s) else [] in
      record (Workflow.new json.empty env.workflow_id env.now m.title m.objective) {
        workspace_id = m.workspace_id;
        metadata = json.set "backend" (backend_of json m.metadata) (
            diagnosed json past (
              json.set "worktree_isolation" (json.flag true)
                (json.set "cycle_index" (json.number m.cycle_index) json.empty)));
      }

  unfoldable pub ensure_workflow : Env J → Mission J → Store J → Outcome J (Mission J × WorkflowId)
  unfolding create_workflow cycle_workflow
  ensure_workflow env m s = elim m.active_workflow_id [
    | some w ↦ (s, ok (m, w))
    | none ↦
        and_then (create_workflow (cycle_workflow env m s) s)
          λ s₁ _. (s₁, ok (record m { active_workflow_id = some env.workflow_id }, env.workflow_id))
  ]

  -- 4.5. What the executor's run, or its absence, adds to what is consumed.
  abbrev pub counted : Mission J → BudgetTracker → Mission J
  counted m t = record m {
    budget_consumed = record m.budget_consumed { total_executions = t.consumed.total_executions };
  }

  unfoldable pub run_cycle :
      Env J
      → MissionId
      → WorkflowId
      → Mission J
      → Store J
      → Outcome J (Mission J × (BudgetTracker × Option WorkflowExecutionSummary))
  unfolding record_executions record_execution tracker_of
  run_cycle env id w m s = elim env.executor [
    | none ↦ let t = record_execution (tracker_of m) in (s, ok (counted m t, (t, none)))
    | some execute ↦ and_then (execute w id s) λ s₁ summary.
        let t = record_executions summary.executed_tasks_count (tracker_of m) in
        (s₁, ok (counted m t, (t, some summary)))
  ]
