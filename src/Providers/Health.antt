-- ===== src/Providers/Health.antt =====
-- crates/plexis-providers/src/health.rs. The maps' locks are held for a whole call. The texts of errors
-- and reasons are the data that they are made of.
pub mod Breaker
use axonel.Prelude.{ℕ, ◌+◌, ◌%◌, ◌^◌, Bool, true, false, Option, none, some, [], leb, if◌then◌else◌}
use axonel.Prelude.Map
use axonel.Prelude.Map.{Map}
use axonel.Core.Ids.{Instant, ProviderId}
use axonel.Providers.Errors.{ProviderError, retry_after}

pub data Reason : Type 0 where
  rate_limited_by_provider : Reason
  tripped_after : ℕ → Reason

pub data ProviderHealthStatus : Type 0 where
  healthy : ProviderHealthStatus
  degraded : (consecutive_failures : ℕ) → ProviderHealthStatus
  unavailable : (until : Instant) → Reason → ProviderHealthStatus

pub record HealthEntry : Type 0 where
  pub status : ProviderHealthStatus
  pub consecutive_failures : ℕ  -- u32
  pub total_successes : ℕ  -- u64
  pub total_failures : ℕ  -- u64
  pub last_error : Option ProviderError

unfoldable pub default_entry : HealthEntry
default_entry = record {
  status = healthy;
  consecutive_failures = 0;
  total_successes = 0;
  total_failures = 0;
  last_error = none;
}

pub record ProviderHealthTracker : Type 0 where
  pub entries : Map HealthEntry
  pub failure_threshold : ℕ  -- u32
  pub cooldown_duration : ℕ

unfoldable pub new : ℕ → ℕ → ProviderHealthTracker
new failure_threshold cooldown_duration = record {
  entries = [];
  failure_threshold = failure_threshold;
  cooldown_duration = cooldown_duration;
}

-- `map.entry(provider_id).or_default()`
unfoldable pub entry : ProviderId → ProviderHealthTracker → HealthEntry
unfolding default_entry
entry id t = elim (Map.get t.entries id) [ none ↦ default_entry | some e ↦ e ]

unfoldable pub put : ProviderId → HealthEntry → ProviderHealthTracker → ProviderHealthTracker
put id e t = record t { entries = Map.insert id e t.entries }

unfoldable pub record_success : ProviderId → ProviderHealthTracker → ProviderHealthTracker
unfolding entry put
record_success id t =
    let e = entry id t in
    put id
      (record e {
        consecutive_failures = 0;
        total_successes = (e.total_successes + 1) % 2 ^ 64;
        status = healthy;
      })
      t

-- The status after a failure, the `n`th in a row.
unfoldable pub failed_status :
    Instant → ProviderError → (n : ℕ) → ProviderHealthTracker → ProviderHealthStatus
unfolding retry_after
failed_status now error n t = elim (retry_after error) [
  | some wait ↦ unavailable (now + wait) rate_limited_by_provider
  | none ↦
      if leb t.failure_threshold n
      then unavailable (now + t.cooldown_duration) (tripped_after n)
      else degraded n
]

unfoldable pub record_failure :
    Instant → ProviderId → ProviderError → ProviderHealthTracker → ProviderHealthTracker
unfolding entry put failed_status
record_failure now id error t =
    let e = entry id t in
    let n = (e.consecutive_failures + 1) % 2 ^ 32 in
    put id
      (record e {
        consecutive_failures = n;
        total_failures = (e.total_failures + 1) % 2 ^ 64;
        last_error = some error;
        status = failed_status now error n t;
      })
      t

unfoldable pub is_available :
    Instant → ProviderId → ProviderHealthTracker → ProviderHealthTracker × Bool
unfolding entry put
is_available now id t =
    let e = entry id t in
    elim e.status [
      | healthy ↦ (put id e t, true)
      | degraded n ↦ (put id e t, true)
      | unavailable until reason ↦
          if leb until now
          then (put id (record e { status = degraded e.consecutive_failures }) t, true)
          else (put id e t, false)
    ]

unfoldable pub get_status : ProviderId → ProviderHealthTracker → ProviderHealthStatus
get_status id t = elim (Map.get t.entries id) [ none ↦ healthy | some e ↦ e.status ]
