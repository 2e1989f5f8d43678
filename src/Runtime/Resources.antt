-- ===== src/Runtime/Resources.antt =====
-- crates/plexis-runtime/src/resources.rs: the limits of one task's execution, and the limit on
-- agents that run at once. `now` is a reading of the monotonic clock, which does not go back. The
-- counters wrap, as in a release build.
pub mod Quotas
pub mod Limiter
use axonel.Prelude.{
  ℕ, suc, ◌+◌, ◌-◌, ◌%◌, ◌^◌, ◌<◌, ltb, leb, if◌then◌else◌, Result, ok, err, and_then,
}
use axonel.Core.Ids.{Instant, Duration}

pub record ResourceLimitsConfig : Type 0 where
  pub max_steps_per_task : ℕ  -- u32
  pub max_tool_calls_per_execution : ℕ  -- u32
  pub max_tokens_per_task : ℕ  -- u64
  pub max_duration_per_task : Duration
  pub max_concurrent_agents : ℕ
  pub error_spike_threshold : ℕ  -- u32

pub record TaskResourceTracker : Type 0 where
  pub config : ResourceLimitsConfig
  pub start_time : Instant
  pub step_count : ℕ  -- u32
  pub tool_call_count : ℕ  -- u32
  pub accumulated_tokens : ℕ  -- u64
  pub consecutive_errors : ℕ  -- u32

-- The messages of `RuntimeError::Execution`, with what they report.
pub data LimitError : Type 0 where
  steps tool_calls tokens timeout error_spike : ℕ → LimitError

abbrev pub Outcome : Type 0
Outcome = TaskResourceTracker × Result LimitError (Unit {0})

unfoldable pub new_tracker : Instant → ResourceLimitsConfig → TaskResourceTracker
new_tracker now config = record {
  config = config;
  start_time = now;
  step_count = 0;
  tool_call_count = 0;
  accumulated_tokens = 0;
  consecutive_errors = 0;
}

unfoldable pub check_time_limit : Instant → TaskResourceTracker → Result LimitError (Unit {0})
check_time_limit now t =
    if ltb t.config.max_duration_per_task (now - t.start_time)
    then err (timeout (now - t.start_time))
    else ok tt

unfoldable pub record_step : Instant → TaskResourceTracker → Outcome
unfolding check_time_limit
record_step now tracker =
    let t = record tracker { step_count = (tracker.step_count + 1) % 2 ^ 32 } in
    and_then (t, check_time_limit now t)
      λ u _.
        if ltb u.config.max_steps_per_task u.step_count
        then (u, err (steps u.step_count))
        else (u, ok tt)

unfoldable pub record_tool_call : Instant → TaskResourceTracker → Outcome
unfolding check_time_limit
record_tool_call now tracker =
    let t = record tracker { tool_call_count = (tracker.tool_call_count + 1) % 2 ^ 32 } in
    and_then (t, check_time_limit now t)
      λ u _.
        if ltb u.config.max_tool_calls_per_execution u.tool_call_count
        then (u, err (tool_calls u.tool_call_count))
        else (u, ok tt)

unfoldable pub record_tokens : ℕ → TaskResourceTracker → Outcome
record_tokens n tracker =
    let t = record tracker { accumulated_tokens = (tracker.accumulated_tokens + n) % 2 ^ 64 } in
    if ltb t.config.max_tokens_per_task t.accumulated_tokens
    then (t, err (tokens t.accumulated_tokens))
    else (t, ok tt)

unfoldable pub record_error : TaskResourceTracker → Outcome
record_error tracker =
    let t = record tracker { consecutive_errors = (tracker.consecutive_errors + 1) % 2 ^ 32 } in
    if leb t.config.error_spike_threshold t.consecutive_errors
    then (t, err (error_spike t.consecutive_errors))
    else (t, ok tt)

unfoldable pub record_progress : TaskResourceTracker → TaskResourceTracker
record_progress tracker = record tracker { consecutive_errors = 0 }

-- `ConcurrencyLimiter`, with `entering` the callers of `try_acquire` that have passed its test and
-- have not raised the count yet. Every other caller is outside, or holds one of the permits that
-- `active_count` counts.
pub record ConcurrencyLimiter : Type 0 where
  pub active_count : ℕ
  pub entering : ℕ

abbrev pub idle : ConcurrencyLimiter
idle = record { active_count = 0; entering = 0 }

-- The atomic steps of callers that share a limiter, at most `k` of which stand in `try_acquire`.
pub data Step (max_concurrent k : ℕ) : ConcurrencyLimiter → ConcurrencyLimiter → Type 0 where
  load_passes :
      {a e : ℕ}
      → a < max_concurrent
      → e < k
      → Step max_concurrent k
          (record { active_count = a; entering = e })
          (record { active_count = a; entering = suc e })
  fetch_add :
      {a e : ℕ}
      → Step max_concurrent k
          (record { active_count = a; entering = suc e })
          (record { active_count = suc a; entering = e })
  drop_permit :
      {a e : ℕ}
      → Step max_concurrent k
          (record { active_count = suc a; entering = e })
          (record { active_count = a; entering = e })
