-- ===== src/Core/Recovery.antt =====
-- crates/plexis-core/src/recovery.rs: the durable record of a failure and of what was done about it.
-- `J` stands for `serde_json::Value`, `now` for what `Utc::now()` returns at the call.
pub mod Names
use axonel.Prelude.{ℕ, String, Option, none, some, if◌then◌else◌, Result, ok, err}
use axonel.Prelude.Text.{lower_equals}
use axonel.Core.Ids.{RecoveryId, TaskId, WorkflowId, ExecutionId, Instant}

pub data RecoveryResult : Type 0 where
  in_progress succeeded failed escalated : RecoveryResult

unfoldable pub as_str : RecoveryResult → String
as_str in_progress = "in_progress"
as_str succeeded = "succeeded"
as_str failed = "failed"
as_str escalated = "escalated"

-- The error is the text that it could not read; the source puts it in a sentence.
unfoldable pub from_str : String → Result String RecoveryResult
unfolding lower_equals
from_str s =
    if lower_equals s "in_progress"
    then ok in_progress
    else if lower_equals s "succeeded"
    then ok succeeded
    else if lower_equals s "failed"
    then ok failed
    else if lower_equals s "escalated"
    then ok escalated
    else err s

pub record RecoveryRecord (J : Type 0) : Type 0 where
  pub id : RecoveryId
  pub task_id : TaskId
  pub workflow_id : WorkflowId
  pub execution_id : Option ExecutionId
  pub attempt : ℕ  -- u32
  pub strategy : String
  pub strategy_version : ℕ  -- u32
  pub failure_reason : String
  pub diagnosis : J
  pub recovery_action : String
  pub action_reason : Option String
  pub result : RecoveryResult
  pub created_at : Instant
  pub updated_at : Instant

module _ {J : Type 0} where
  -- `empty` is the empty JSON object, `id` the fresh UUID.
  unfoldable pub new :
      J
      → RecoveryId
      → Instant
      → TaskId
      → WorkflowId
      → (attempt : ℕ) → (strategy failure_reason recovery_action : String) → RecoveryRecord J
  new empty id now task_id workflow_id attempt strategy failure_reason recovery_action = record {
    id = id;
    task_id = task_id;
    workflow_id = workflow_id;
    execution_id = none;
    attempt = attempt;
    strategy = strategy;
    strategy_version = 1;
    failure_reason = failure_reason;
    diagnosis = empty;
    recovery_action = recovery_action;
    action_reason = none;
    result = in_progress;
    created_at = now;
    updated_at = now;
  }

  unfoldable pub with_execution_id : ExecutionId → RecoveryRecord J → RecoveryRecord J
  with_execution_id execution_id r = record r { execution_id = some execution_id }

  unfoldable pub with_strategy_version : ℕ → RecoveryRecord J → RecoveryRecord J
  with_strategy_version version r = record r { strategy_version = version }

  unfoldable pub with_diagnosis : J → RecoveryRecord J → RecoveryRecord J
  with_diagnosis diagnosis r = record r { diagnosis = diagnosis }

  unfoldable pub with_action_reason : String → RecoveryRecord J → RecoveryRecord J
  with_action_reason reason r = record r { action_reason = some reason }

  unfoldable pub mark_succeeded : Instant → RecoveryRecord J → RecoveryRecord J
  mark_succeeded now r = record r { result = succeeded; updated_at = now }

  unfoldable pub mark_failed : Instant → RecoveryRecord J → RecoveryRecord J
  mark_failed now r = record r { result = failed; updated_at = now }

  unfoldable pub mark_escalated : Instant → RecoveryRecord J → RecoveryRecord J
  mark_escalated now r = record r { result = escalated; updated_at = now }
