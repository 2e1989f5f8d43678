-- ===== src/Core/Task.antt =====
-- crates/plexis-core/src/task.rs: the durable unit of work. `J` stands for `serde_json::Value`,
-- `now` for what `Utc::now()` returns at the call, and `id` for the fresh UUID. The
-- capabilities that a task requires stand in its JSON metadata and are not modelled.
pub mod Assignment
use axonel.Prelude.{
  ℕ, ◌+◌, ◌%◌, ◌^◌, String, Bool, true, false, Option, none, some, List, [], ite, Result, ok, err,
  and_then,
}
use axonel.Prelude.Int.{ℤ, pos}
use axonel.Core.Ids.{TaskId, AgentId, WorkflowId, WorkspaceId, Instant}
use axonel.Core.State.Transition.{StateTransitionError}
use axonel.Core.State.Task as State
use axonel.Core.State.Task.{TaskState, TaskState-discrete}

pub record Task (J : Type 0) : Type 0 where
  pub id : TaskId
  pub workflow_id : WorkflowId
  pub workspace_id : Option WorkspaceId
  pub objective : String
  pub description : Option String
  pub parent_id : Option TaskId
  pub state : TaskState
  pub priority : ℤ  -- i32
  pub criteria : List String
  pub assigned_agent_id : Option AgentId
  pub attempts : ℕ  -- u32
  pub max_attempts : ℕ  -- u32
  pub metadata : J
  pub created_at : Instant
  pub updated_at : Instant

-- What a method that may refuse leaves of its task, and its `Result`.
abbrev pub Outcome : Type 0 → Type 0
Outcome J = Task J × Result StateTransitionError (Unit {0})

module _ {J : Type 0} where
  -- `empty` is the empty JSON object.
  unfoldable pub new : J → TaskId → Instant → WorkflowId → String → Task J
  new empty id now workflow_id objective = record {
    id = id;
    workflow_id = workflow_id;
    workspace_id = none;
    objective = objective;
    description = none;
    parent_id = none;
    state = TaskState.backlog;
    priority = pos 0;
    criteria = [];
    assigned_agent_id = none;
    attempts = 0;
    max_attempts = 3;
    metadata = empty;
    created_at = now;
    updated_at = now;
  }

  unfoldable pub with_workspace_id : WorkspaceId → Task J → Task J
  with_workspace_id workspace_id task = record task { workspace_id = some workspace_id }

  unfoldable pub with_description : String → Task J → Task J
  with_description desc task = record task { description = some desc }

  unfoldable pub with_priority : ℤ → Task J → Task J
  with_priority priority task = record task { priority = priority }

  unfoldable pub with_criteria : List String → Task J → Task J
  with_criteria criteria task = record task { criteria = criteria }

  unfoldable pub with_max_attempts : ℕ → Task J → Task J
  with_max_attempts max task = record task { max_attempts = max }

  unfoldable pub with_parent : TaskId → Task J → Task J
  with_parent parent task = record task { parent_id = some parent }

  unfoldable pub transition_to : Instant → TaskState → Task J → Outcome J
  unfolding State.transition_to
  transition_to now next task =
      and_then (let (s, r) = State.transition_to task.state next in (record task { state = s }, r))
        λ t _. (record t { updated_at = now }, ok tt)

  unfoldable pub assign_to : Instant → AgentId → Task J → Outcome J
  unfolding transition_to
  assign_to now agent_id task =
      and_then
        (ite (TaskState-discrete task.state TaskState.backlog)
          (transition_to now TaskState.ready task) (task, ok tt))
        λ t _.
          and_then (transition_to now TaskState.assigned t)
            λ u _. (record u { assigned_agent_id = some agent_id; updated_at = now }, ok tt)

  unfoldable pub unassign : Instant → Task J → Outcome J
  unfolding transition_to
  unassign now task =
      and_then (transition_to now TaskState.ready task)
        λ t _. (record t { assigned_agent_id = none; updated_at = now }, ok tt)

  -- `self.attempts += 1` on a `u32`, as a release build wraps it.
  unfoldable pub record_attempt : Instant → Task J → Task J
  record_attempt now task = record task {
    attempts = (task.attempts + 1) % 2 ^ 32;
    updated_at = now;
  }
