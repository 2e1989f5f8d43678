-- ===== src/Providers/Reliability.antt =====
-- crates/plexis-providers/src/reliability.rs. The backoff is computed in floating point: `backoff` is
-- what `total_millis` comes to, in nanoseconds, for each attempt.
use axonel.Prelude.{
  ℕ, ◌≤◌, ◌<◌, ◌≡◌, true, not, Option, none, some, leb, min, max, if◌then◌else◌, arith,
}
use axonel.Providers.Errors.{ProviderError, is_transient, retry_after}

pub record RetryPolicy : Type 0 where
  pub max_retries : ℕ  -- u32
  pub initial_backoff : ℕ
  pub max_backoff : ℕ
  pub backoff : ℕ → ℕ

unfoldable pub compute_delay : ℕ → ProviderError → RetryPolicy → Option ℕ
unfolding is_transient retry_after
compute_delay attempt error p =
    if leb p.max_retries attempt
    then none
    else if not (is_transient error)
    then none
    else elim (retry_after error) [
      | some explicit ↦ some (min (max explicit p.initial_backoff) p.max_backoff)
      | none ↦ some (min (p.backoff attempt) p.max_backoff)
    ]

-- A delay is given for the retries that are left, to errors that may pass, and it is never longer than
-- the longest backoff, whatever a provider asks for.
pub compute_delay_bounded :
    (attempt : ℕ) (error : ProviderError) (p : RetryPolicy) (d : ℕ)
    → compute_delay attempt error p ≡ some d
    → (attempt < p.max_retries) × (is_transient error ≡ true) × (d ≤ p.max_backoff)
unfolding compute_delay
compute_delay_bounded attempt error p d h = (ground arith, ground arith, ground arith)
