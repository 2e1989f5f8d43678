-- ===== src/Runtime/Engine/Review.antt =====
-- The middle parts of `step_mission` of crates/plexis-runtime/src/mission/engine.rs: the candidate
-- that is verified, the mission that meets its stopping condition, and what calls a human.
use axonel.Prelude.{
  ℕ, String, Bool, true, ◌&&◌, ◌||◌, Option, none, some, is_some, List, [], ◌∷◌, ◌+◌, ◌%◌, ◌^◌,
  if◌then◌else◌, ok, and_then,
}
use axonel.Prelude.Text.{lower_contains}
use axonel.Core.Ids.{MissionId, WorkflowId, TaskId, ExecutionId}
use axonel.Core.State.Mission.{verifying, awaiting_acceptance}
use axonel.Core.State.Task as State
use axonel.Core.State.Task.{TaskState}
use axonel.Core.Task.{Task}
use axonel.Core.Execution.{Execution}
use axonel.Core.Mission.{
  Mission, MissionCycle, verified_after, conditions_verified, Reason, task_escalated,
  provider_unavailable, PlannerContext, condition_satisfied, new_cycle, new_checkpoint,
}
use axonel.Core.Budget.{MissionBudgetConsumed}
use axonel.Runtime.Engine.Store.{
  Json, Store, Outcome, verification_passed, mission_awaiting_acceptance, get_mission,
  update_mission, list_tasks_by_workflow, list_executions_by_task, create_cycle, save_checkpoint,
  emit, unmark_running,
}
use axonel.Runtime.Engine.Control.{try_move, escalate_human}
use axonel.Runtime.Engine.Stopping.{World}
use axonel.Runtime.Engine.Cycle.{
  WorkflowExecutionSummary, Env, is_task_state, discovered_in, active_in,
}

abbrev pub or_else : {A : Type 0} → Option A → Option A → Option A
or_else none b = b
or_else (some a) b = some a

abbrev and_str : {J : Type 0} → Json J → Option J → Option String
and_str json none = none
and_str json (some v) = json.as_str v

-- `fail_lower.contains(…)`, the four tests
unfoldable pub is_unrecoverable : String → Bool
unfolding lower_contains
is_unrecoverable text =
    lower_contains text "not installed"
    || (lower_contains text "not found on path"
        || (lower_contains text "authentication_required"
            || lower_contains text "executable not found"))

abbrev existing : World → Option String → Option String → Option String
existing w none fallback = fallback
existing w (some path) fallback = if w.exists path then some path else fallback

module _ {J : Type 0} where
  unfoldable pub find_task : (Task J → Bool) → List (Task J) → Option (Task J)
  find_task p [] = none
  find_task p (t ∷ ts) = if p t then some t else find_task p ts

  -- `.iter().rev().find(…)`
  unfoldable pub find_last : (Task J → Bool) → List (Task J) → Option (Task J)
  find_last p [] = none
  find_last p (t ∷ ts) = elim (find_last p ts) [
    | some u ↦ some u
    | none ↦ if p t then some t else none
  ]

  abbrev has_key : Json J → String → Task J → Bool
  has_key json key t = is_some (json.get key t.metadata)

  abbrev is_delivered : Task J → Bool
  is_delivered t =
      is_task_state t.state State.verified || is_task_state t.state State.awaiting_verification

  unfoldable pub candidate_worktree : Json J → List (Task J) → Option (Task J)
  unfolding find_last
  candidate_worktree json ts =
      or_else
        (find_last
          (λ t. is_delivered t && (has_key json "commit_sha" t && has_key json "worktree_path" t))
          ts)
        (or_else (find_last (λ t. is_delivered t && has_key json "worktree_path" t) ts)
          (find_last (λ t. has_key json "commit_sha" t && has_key json "worktree_path" t) ts))

  -- The path that is verified, and the commit of the candidate.
  unfoldable pub evaluation_target :
      Env J → Option String → List (Task J) → Option String × Option String
  unfolding candidate_worktree
  evaluation_target env workspace ts = elim (candidate_worktree env.json ts) [
    | none ↦ (workspace, none)
    | some t ↦ (
      existing env.world (and_str env.json (env.json.get "worktree_path" t.metadata)) workspace,
      and_str env.json (env.json.get "commit_sha" t.metadata),
    )
  ]

  -- crates/plexis-runtime/src/mission/checkpoint.rs. A terminal task that is not verified is in neither
  -- list.
  states_of : List (Task J) → List (TaskId × TaskState)
  states_of [] = []
  states_of (t ∷ ts) = (t.id, t.state) ∷ states_of ts

  completed_of : List (Task J) → List TaskId
  completed_of [] = []
  completed_of (t ∷ ts) =
      let rest = completed_of ts in
      if is_task_state t.state State.verified then t.id ∷ rest else rest

  unresolved_of : List (Task J) → List TaskId
  unresolved_of [] = []
  unresolved_of (t ∷ ts) =
      let rest = unresolved_of ts in
      if is_task_state t.state State.verified || State.is_terminal t.state
      then rest
      else t.id ∷ rest

  unfoldable pub create_checkpoint :
      Env J
      → MissionId
      → ℕ
      → WorkflowId
      → MissionBudgetConsumed
      → Option String
      → List ExecutionId
      → PlannerContext
      → Store J
      → Store J
  unfolding list_tasks_by_workflow states_of completed_of unresolved_of new_checkpoint
      save_checkpoint State.is_terminal
  create_checkpoint env id cycle w consumed commit active context s =
      let ts = list_tasks_by_workflow w s in
      save_checkpoint
        (record (new_checkpoint env.checkpoint_id env.now id cycle w (states_of ts) consumed) {
          active_executions = active;
          completed_tasks = completed_of ts;
          unresolved_tasks = unresolved_of ts;
          latest_verified_commit = commit;
          planner_context = some context;
        })
        s

  -- The stopping condition is met: the mission awaits acceptance.
  unfoldable pub accepted : Option String → Mission J → Mission J
  unfolding try_move
  accepted commit m = record (try_move awaiting_acceptance (try_move verifying m)) {
    latest_verified_commit = commit;
    final_outcome = some (record {
      success = true;
      summary = verified_after ((m.cycle_index + 1) % 2 ^ 32);
      verified_commit_sha = commit;
      cycles_count = (m.cycle_index + 1) % 2 ^ 32;
      completion_reason = conditions_verified;
    });
  }

  abbrev pub verification_cycle :
      Env J → MissionId → WorkflowId → Option WorkflowExecutionSummary → ℕ → MissionCycle
  verification_cycle env id w summary cycle = record (new_cycle env.now id cycle w "verification") {
    completed_at = some env.now;
    outcome = some conditions_verified;
    discovered_tasks_count = discovered_in summary;
  }

  -- The event, the journal of the cycle and the last checkpoint.
  unfoldable pub record_verification :
      Env J
      → MissionId
      → WorkflowId
      → Option WorkflowExecutionSummary
      → Option String
      → Mission J
      → Store J
      → Store J
  unfolding create_cycle create_checkpoint emit new_cycle
  record_verification env id w summary commit m s =
      create_checkpoint env id m.cycle_index w m.budget_consumed commit (active_in summary)
        condition_satisfied
        (create_cycle (verification_cycle env id w summary m.cycle_index)
          (emit (verification_passed id commit) s))

  unfoldable pub accept :
      Env J
      → MissionId
      → WorkflowId
      → Option WorkflowExecutionSummary
      → Option String
      → Mission J
      → Store J
      → Outcome J (Mission J)
  unfolding accepted record_verification update_mission unmark_running emit
  accept env id w summary commit m s =
      let m' = accepted commit m in
      (
        emit (mission_awaiting_acceptance id commit m.cycle_index) (
            unmark_running id
              (update_mission m' (record_verification env id w summary commit m s))),
        ok m',
      )

  -- `self.escalate_human(…).await?` and the mission as it then stands in the store.
  unfoldable pub escalate_and_reload : Env J → MissionId → Reason → Store J → Outcome J (Mission J)
  unfolding escalate_human get_mission
  escalate_and_reload env id reason s =
      and_then (escalate_human env.json id reason s) λ s₁ _. get_mission id s₁

  abbrev fatal_reason : Json J → Task J → Option String
  fatal_reason json t =
      and_str json
        (or_else (json.get "fatal_reason" t.metadata) (json.get "escalation_reason" t.metadata))

  -- The first message that names an unrecoverable error of a provider.
  first_unrecoverable : List (Execution J) → Option String
  unfolding is_unrecoverable
  first_unrecoverable [] = none
  first_unrecoverable (e ∷ es) = elim e.error_message [
    | none ↦ first_unrecoverable es
    | some text ↦ if is_unrecoverable text then some text else first_unrecoverable es
  ]

  unfoldable pub provider_failure : Store J → List (Task J) → Option String
  unfolding first_unrecoverable list_executions_by_task
  provider_failure s [] = none
  provider_failure s (t ∷ ts) =
      if is_task_state t.state State.failed
      then or_else (first_unrecoverable (list_executions_by_task t.id s)) (provider_failure s ts)
      else provider_failure s ts

  -- What calls a human, before progress is looked at.
  unfoldable pub human_needed : Env J → Store J → List (Task J) → Option Reason
  unfolding find_task provider_failure
  human_needed env s ts = elim (find_task (λ t. is_task_state t.state State.needs_human) ts) [
    | some t ↦ some (task_escalated t.id (fatal_reason env.json t))
    | none ↦ elim (provider_failure s ts) [
      | some text ↦ some (provider_unavailable text)
      | none ↦ none
    ]
  ]
