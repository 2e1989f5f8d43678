-- ===== src/Runtime/Recovery.antt =====
-- crates/plexis-runtime/src/recovery.rs: what is done about a task that failed, on the records of its
-- earlier failures (`impl RecoveryStore for SqliteStore`, crates/plexis-storage/src/sqlite/store.rs; the
-- schema is migrations/0003_memory_and_recovery.sql). `J` stands for `serde_json::Value`. `Texts` has
-- the sentences and the JSON that the controller composes, `id` is the fresh UUID and `now` what the
-- clock shows at the call.
pub mod Attempts
pub mod Versions
use text.Mathlib.Text.{◌==◌ as str_eq}
use axonel.Prelude.{
  ℕ, ◌+◌, ◌*◌, ◌%◌, ◌^◌, String, Bool, true, not, ◌&&◌, ◌||◌, Option, none, some, is_some, List, [],
  ◌∷◌, ◌++◌, leb, ltb, ◌==◌, max, if◌then◌else◌, Result, ok, err, and_then,
}
use axonel.Prelude.Text.{lower_contains}
use axonel.Prelude.Sets.{contains}
use axonel.Prelude.Rows.{find_row, update_row}
use axonel.Core.Ids.{RecoveryId, TaskId, WorkflowId, ExecutionId, Instant}
use axonel.Core.Recovery.{RecoveryRecord, RecoveryResult, in_progress, succeeded, escalated}

pub data RecoveryAction : Type 0 where
  retry_with_backoff : (delay_secs : ℕ) → RecoveryAction
  mutate_strategy : (strategy adjustment : String) (version : ℕ) → RecoveryAction
  reassign_agent : (suggested_role : String) → RecoveryAction
  replan_workflow escalate_fatal : (reason : String) → RecoveryAction

-- What the rows of `recovery_records` refer to, and the rows in the order of their insertion.
pub record Records (J : Type 0) : Type 0 where
  pub tasks : List TaskId
  pub workflows : List WorkflowId
  pub rows : List (RecoveryRecord J)

pub data RecoveryError : Type 0 where
  sqlite : RecoveryError
  not_found : RecoveryId → RecoveryError

abbrev pub Outcome : Type 0 → Type 0 → Type 0
Outcome J A = Records J × Result RecoveryError A

module _ {J : Type 0} where
  abbrev pub record_key : RecoveryRecord J → RecoveryId
  record_key r = r.id

  unfoldable pub save_recovery_record : RecoveryRecord J → Records J → Outcome J (Unit {0})
  unfolding find_row
  save_recovery_record r s =
      if is_some (find_row record_key r.id s.rows)
        || (not (contains s.tasks r.task_id) || not (contains s.workflows r.workflow_id))
      then (s, err sqlite)
      else (record s { rows = s.rows ++ r ∷ [] }, ok tt)

  unfoldable pub get_recovery_record : RecoveryId → Records J → Option (RecoveryRecord J)
  unfolding find_row
  get_recovery_record id s = find_row record_key id s.rows

  unfoldable pub update_recovery_record : RecoveryRecord J → Records J → Outcome J (Unit {0})
  unfolding find_row update_row
  update_recovery_record r s =
      if is_some (find_row record_key r.id s.rows)
      then (
        record s {
          rows =
              update_row record_key r.id
                (λ row. record r {
                  id = row.id;
                  task_id = row.task_id;
                  workflow_id = row.workflow_id;
                  created_at = row.created_at;
                })
                s.rows;
        },
        ok tt,
      )
      else (s, err (not_found r.id))

  -- `ORDER BY attempt ASC, created_at ASC`; rows that agree in both keep their order.
  abbrev pub after : RecoveryRecord J → RecoveryRecord J → Bool
  after a b = ltb b.attempt a.attempt || (b.attempt == a.attempt && ltb b.created_at a.created_at)

  -- `a` goes in front of what does not come before it.
  unfoldable pub insert_sorted :
      RecoveryRecord J → List (RecoveryRecord J) → List (RecoveryRecord J)
  insert_sorted a [] = a ∷ []
  insert_sorted a (b ∷ rest) =
      let later = insert_sorted a rest in if after a b then b ∷ later else a ∷ b ∷ rest

  unfoldable pub records_of : TaskId → List (RecoveryRecord J) → List (RecoveryRecord J)
  unfolding insert_sorted
  records_of id [] = []
  records_of id (r ∷ rest) =
      let others = records_of id rest in if r.task_id == id then insert_sorted r others else others

  unfoldable pub list_recovery_records_by_task : TaskId → Records J → List (RecoveryRecord J)
  unfolding records_of
  list_recovery_records_by_task id s = records_of id s.rows

  -- `.iter().rev().take_while(|r| r.failure_reason == reason).count()`
  abbrev pub all_same : String → List (RecoveryRecord J) → Bool
  all_same reason [] = true
  all_same reason (r ∷ rest) = str_eq r.failure_reason reason && all_same reason rest

  unfoldable pub consecutive_identical : String → List (RecoveryRecord J) → ℕ
  consecutive_identical reason [] = 0
  consecutive_identical reason (r ∷ rest) =
      let later = consecutive_identical reason rest in
      if str_eq r.failure_reason reason && all_same reason rest then 1 + later else later

  -- `.filter(|r| r.strategy == strategy).map(|r| r.strategy_version).max().unwrap_or(0)`
  unfoldable pub max_version : String → List (RecoveryRecord J) → ℕ
  max_version strategy [] = 0
  max_version strategy (r ∷ rest) =
      let further = max_version strategy rest in
      if str_eq r.strategy strategy then max r.strategy_version further else further

pub record Texts (J : Type 0) : Type 0 where
  pub exceeded : TaskId → (attempt max_recovery_attempts : ℕ) → String
  pub repeated : (times : ℕ) → (failure_reason : String) → String
  pub debug : RecoveryAction → String
  pub exceeded_json : J
  pub loop_json : (consecutive : ℕ) → J
  pub failure_json : (failure_reason : String) → J

pub record Failure : Type 0 where
  pub task_id : TaskId
  pub workflow_id : WorkflowId
  pub execution_id : Option ExecutionId
  pub attempt : ℕ  -- u32
  pub failure_reason : String

-- What is decided, and what the record says of it.
pub record Decision (J : Type 0) : Type 0 where
  pub action : RecoveryAction
  pub strategy : String
  pub version : ℕ  -- u32
  pub diagnosis : J
  pub recovery_action : String
  pub action_reason : Option String
  pub result : RecoveryResult

abbrev pub is_transient : String → Bool
is_transient s =
    lower_contains s "rate limited"
    || (lower_contains s "connection reset" || lower_contains s "gateway timeout")

abbrev pub is_security : String → Bool
is_security s = lower_contains s "permission denied" || lower_contains s "sandbox"

abbrev pub is_timeout : String → Bool
is_timeout s = lower_contains s "timeout" || lower_contains s "timed out"

abbrev pub is_tool : String → Bool
is_tool s =
    lower_contains s "tool" || (lower_contains s "command failed" || lower_contains s "exit code")

module _ {J : Type 0} where
  unfoldable pub recorded : RecoveryId → Instant → Failure → Decision J → RecoveryRecord J
  recorded id now f d = record {
    id = id;
    task_id = f.task_id;
    workflow_id = f.workflow_id;
    execution_id = f.execution_id;
    attempt = f.attempt;
    strategy = d.strategy;
    strategy_version = d.version;
    failure_reason = f.failure_reason;
    diagnosis = d.diagnosis;
    recovery_action = d.recovery_action;
    action_reason = d.action_reason;
    result = d.result;
    created_at = now;
    updated_at = now;
  }

  unfoldable pub record_decision :
      RecoveryId → Instant → Failure → Decision J → Records J → Outcome J (RecoveryRecord J)
  unfolding recorded save_recovery_record
  record_decision id now f d s =
      and_then (save_recovery_record (recorded id now f d) s) λ t _. (t, ok (recorded id now f d))

  -- The decision is recorded and returned.
  unfoldable pub carry_out :
      RecoveryId
      → Instant
      → Failure
      → Decision J
      → Records J
      → Outcome J (RecoveryAction × RecoveryRecord J)
  unfolding record_decision
  carry_out id now f d s = and_then (record_decision id now f d s) λ t r. (t, ok (d.action, r))

  -- `+ 1` on a `u32`, as a release build wraps it.
  unfoldable pub mutate :
      (strategy adjustment : String) → List (RecoveryRecord J) → RecoveryAction × (String × ℕ)
  unfolding max_version
  mutate strategy adjustment past =
      let version = (max_version strategy past + 1) % 2 ^ 32 in
      (mutate_strategy strategy adjustment version, (strategy, version))

  -- Step 3: the action, the strategy and its version.
  unfoldable pub classify : Failure → List (RecoveryRecord J) → RecoveryAction × (String × ℕ)
  unfolding mutate lower_contains
  classify f past =
      if is_transient f.failure_reason
      then (retry_with_backoff ((f.attempt + 1) * 2), ("transient_backoff", 1))
      else if is_security f.failure_reason
      then (
        escalate_fatal "Sandbox security policy violation cannot be bypassed automatically",
        ("security_escalation", 1),
      )
      else if is_timeout f.failure_reason
      then mutate "timeout_adaptation" "Double execution timeout and refine review instructions"
          past
      else if is_tool f.failure_reason
      then mutate "tool_adaptation"
          "Inspect command error output, use diagnostic tools, and revise parameters" past
      else mutate "prompt_refinement"
          "Deconstruct acceptance criteria step-by-step and verify state incrementally" past

module _ {J : Type 0} (texts : Texts J) where
  unfoldable pub decide_by_text : Failure → RecoveryAction × (String × ℕ) → Decision J
  decide_by_text f (action, (strategy, version)) = record {
    action = action;
    strategy = strategy;
    version = version;
    diagnosis = texts.failure_json f.failure_reason;
    recovery_action = texts.debug action;
    action_reason = none;
    result = in_progress;
  }

  unfoldable pub exhausted : (max_recovery_attempts : ℕ) → Failure → Decision J
  exhausted max_recovery_attempts f =
      let reason = texts.exceeded f.task_id f.attempt max_recovery_attempts in
      record {
        action = escalate_fatal reason;
        strategy = "fatal_exhaustion";
        version = 1;
        diagnosis = texts.exceeded_json;
        recovery_action = "escalate_fatal";
        action_reason = some reason;
        result = escalated;
      }

  unfoldable pub looping : (consecutive : ℕ) → Failure → Decision J
  looping consecutive f =
      let reason = texts.repeated (consecutive + 1) f.failure_reason in
      record {
        action = replan_workflow reason;
        strategy = "replan_loop_detected";
        version = (consecutive + 1) % 2 ^ 32;
        diagnosis = texts.loop_json consecutive;
        recovery_action = "replan_workflow";
        action_reason = some reason;
        result = escalated;
      }

  unfoldable pub decide :
      (max_recovery_attempts : ℕ) → Failure → List (RecoveryRecord J) → Decision J
  unfolding exhausted looping decide_by_text classify consecutive_identical
  decide max_recovery_attempts f past =
      if leb max_recovery_attempts f.attempt
      then exhausted max_recovery_attempts f
      else if leb 2 (consecutive_identical f.failure_reason past)
      then looping (consecutive_identical f.failure_reason past) f
      else decide_by_text f (classify f past)

  unfoldable pub diagnose_and_recover :
      (max_recovery_attempts : ℕ)
      → RecoveryId
      → Instant
      → Failure
      → Records J
      → Outcome J (RecoveryAction × RecoveryRecord J)
  unfolding list_recovery_records_by_task decide carry_out
  diagnose_and_recover max_recovery_attempts id now f s =
      carry_out id now f
        (decide max_recovery_attempts f (list_recovery_records_by_task f.task_id s)) s

module _ {J : Type 0} where
  recovered : Instant → Option (RecoveryRecord J) → Records J → Outcome J (Unit {0})
  unfolding update_recovery_record
  recovered now none s = (s, ok tt)
  recovered now (some r) s =
      update_recovery_record (record r { result = succeeded; updated_at = now }) s

  unfoldable pub mark_recovered : RecoveryId → Instant → Records J → Outcome J (Unit {0})
  unfolding get_recovery_record recovered
  mark_recovered id now s = recovered now (get_recovery_record id s) s
