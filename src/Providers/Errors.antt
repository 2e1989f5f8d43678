-- ===== src/Providers/Errors.antt =====
-- crates/plexis-providers/src/error.rs
use axonel.Prelude.{ℕ, ◌*◌, ◌^◌, String, Bool, true, false, Option, none, some}

pub data ProviderError : Type 0 where
  network authentication model_not_found invalid_response timeout unavailable execution_error :
      String → ProviderError
  rate_limited : (retry_after_secs : Option ℕ) → ProviderError  -- u64

unfoldable pub is_transient : ProviderError → Bool
is_transient (network _) = true
is_transient (timeout _) = true
is_transient (rate_limited _) = true
is_transient (unavailable _) = true
is_transient (authentication _) = false
is_transient (model_not_found _) = false
is_transient (invalid_response _) = false
is_transient (execution_error _) = false

unfoldable pub retry_after : ProviderError → Option ℕ
retry_after (rate_limited (some secs)) = some (secs * 10 ^ 9)
retry_after _ = none
