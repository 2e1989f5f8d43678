-- ===== src/Core/Execution.antt =====
-- crates/plexis-core/src/execution.rs: one attempt at a task. `J` stands for `serde_json::Value`,
-- `now` for what `Utc::now()` returns at the call.
pub mod Records
use axonel.Prelude.{ℕ, String, Option, none, some, Result, ok, err, and_then}
use axonel.Core.Ids.{ExecutionId, TaskId, AgentId, SessionId, LeaseId, Instant}
use axonel.Core.State.Transition.{StateTransitionError}
use axonel.Core.State.Execution as State
use axonel.Core.State.Execution.{ExecutionState}

pub record Execution (J : Type 0) : Type 0 where
  pub id : ExecutionId
  pub task_id : TaskId
  pub agent_id : AgentId
  pub session_id : Option SessionId
  pub lease_id : Option LeaseId
  pub state : ExecutionState
  pub attempt : ℕ  -- u32
  pub started_at : Option Instant
  pub completed_at : Option Instant
  pub error_message : Option String
  pub metadata : J
  pub created_at : Instant
  pub updated_at : Instant

abbrev pub Outcome : Type 0 → Type 0
Outcome J = Execution J × Result StateTransitionError (Unit {0})

module _ {J : Type 0} where
  unfoldable pub new : J → ExecutionId → Instant → TaskId → AgentId → ℕ → Execution J
  new empty id now task_id agent_id attempt = record {
    id = id;
    task_id = task_id;
    agent_id = agent_id;
    session_id = none;
    lease_id = none;
    state = ExecutionState.pending;
    attempt = attempt;
    started_at = none;
    completed_at = none;
    error_message = none;
    metadata = empty;
    created_at = now;
    updated_at = now;
  }

  -- `self.state.transition_to(next)?`
  move_to : ExecutionState → Execution J → Outcome J
  unfolding State.transition_to
  move_to next e = let (s, r) = State.transition_to e.state next in (record e { state = s }, r)

  unfoldable pub with_session : SessionId → Execution J → Execution J
  with_session session_id e = record e { session_id = some session_id }

  unfoldable pub with_lease : LeaseId → Execution J → Execution J
  with_lease lease_id e = record e { lease_id = some lease_id }

  unfoldable pub mark_running : Instant → Execution J → Outcome J
  unfolding move_to
  mark_running now e =
      and_then (move_to ExecutionState.running e)
        λ x _. (record x { started_at = some now; updated_at = now }, ok tt)

  unfoldable pub mark_completed : Instant → Execution J → Outcome J
  unfolding move_to
  mark_completed now e =
      and_then (move_to ExecutionState.completed e)
        λ x _. (record x { completed_at = some now; updated_at = now }, ok tt)

  unfoldable pub mark_failed : Instant → String → Execution J → Outcome J
  unfolding move_to
  mark_failed now reason e = and_then (move_to ExecutionState.failed e) λ x _.
      (record x { completed_at = some now; error_message = some reason; updated_at = now }, ok tt)

  unfoldable pub mark_timed_out : Instant → Execution J → Outcome J
  unfolding move_to
  mark_timed_out now e = and_then (move_to ExecutionState.timed_out e) λ x _. (
    record x {
      completed_at = some now;
      error_message = some "execution duration budget exceeded";
      updated_at = now;
    },
    ok tt,
  )

  unfoldable pub mark_cancelled : Instant → Execution J → Outcome J
  unfolding move_to
  mark_cancelled now e =
      and_then (move_to ExecutionState.cancelled e)
        λ x _. (record x { completed_at = some now; updated_at = now }, ok tt)
