-- ===== src/Core/Command.antt =====
-- crates/plexis-core/src/command.rs: the durable command. `J` stands for `serde_json::Value`.
pub mod Attempts
use axonel.Prelude.{ℕ, ◌+◌, ◌%◌, ◌^◌, String, Option, none, some, leb, if◌then◌else◌}
use axonel.Core.Ids.{CommandId, AgentId, TaskId, WorkflowId, Instant}
use axonel.Core.State.Command.{CommandState}

pub data CommandTarget : Type 0 where
  agent : AgentId → CommandTarget
  task : TaskId → CommandTarget
  workflow : WorkflowId → CommandTarget
  system : CommandTarget

pub data CommandType : Type 0 where
  execute_task send_message verify_task review_artifact continue_agent : CommandType
  pause_agent resume_agent cancel_execution create_agent request_approval : CommandType
  submit_approval resume_task : CommandType

pub record Command (J : Type 0) : Type 0 where
  pub id : CommandId
  pub target : CommandTarget
  pub command_type : CommandType
  pub payload : J
  pub state : CommandState
  pub idempotency_key : String
  pub attempts : ℕ  -- u32
  pub max_attempts : ℕ  -- u32
  pub created_at : Instant
  pub dispatched_at : Option Instant
  pub completed_at : Option Instant

module _ {J : Type 0} where
  unfoldable pub new : CommandId → Instant → CommandTarget → CommandType → J → String → Command J
  new id now target command_type payload idempotency_key = record {
    id = id;
    target = target;
    command_type = command_type;
    payload = payload;
    state = CommandState.queued;
    idempotency_key = idempotency_key;
    attempts = 0;
    max_attempts = 3;
    created_at = now;
    dispatched_at = none;
    completed_at = none;
  }

  -- `self.attempts += 1` on a `u32`, as a release build wraps it.
  unfoldable pub mark_dispatched : Instant → Command J → Command J
  mark_dispatched now c = record c {
    state = CommandState.dispatched;
    attempts = (c.attempts + 1) % 2 ^ 32;
    dispatched_at = some now;
  }

  unfoldable pub mark_confirmed : Instant → Command J → Command J
  mark_confirmed now c = record c { state = CommandState.confirmed; completed_at = some now }

  unfoldable pub mark_completed : Instant → Command J → Command J
  unfolding mark_confirmed
  mark_completed = mark_confirmed

  unfoldable pub mark_failed : Instant → Command J → Command J
  mark_failed now c =
      if leb c.max_attempts c.attempts
      then record c { state = CommandState.dead_lettered; completed_at = some now }
      else record c { state = CommandState.retrying }
