-- ===== src/Providers/Health/Breaker.antt =====
-- When the circuit breaker of crates/plexis-providers/src/health.rs opens, and for how long.
use axonel.Prelude.{
  ℕ, suc, ◌+◌, ◌%◌, ◌^◌, ◌<◌, ◌≡◌, refl, Bool, true, not, ◌||◌, none, some, List, [], ◌∷◌, length,
  leb, arith, ap, ◌∙◌,
}
use axonel.Prelude.Map.{get-insert}
use axonel.Core.Ids.{Instant, ProviderId}
use axonel.Providers.Errors.{ProviderError, retry_after}
use axonel.Providers.Health.{
  healthy, HealthEntry, ProviderHealthTracker, ProviderHealthStatus, unavailable, degraded, entry,
  put, record_failure, failed_status, is_available,
}

pub entry-put :
    (id : ProviderId) (e : HealthEntry) (t : ProviderHealthTracker) → entry id (put id e t) ≡ e
unfolding entry put
entry-put id e t = ground (arith, get-insert id e t.entries id)

entry-record_failure :
    (now : Instant) (id : ProviderId) (error : ProviderError) (t : ProviderHealthTracker)
    → let n = ((entry id t).consecutive_failures + 1) % 2 ^ 32 in
      let e = entry id (record_failure now id error t) in
      (e.consecutive_failures ≡ n) × (e.status ≡ failed_status now error n t)
unfolding record_failure
entry-record_failure now id error t =
    let n = ((entry id t).consecutive_failures + 1) % 2 ^ 32 in
    let e : HealthEntry = record (entry id t) {
      consecutive_failures = n;
      total_failures = ((entry id t).total_failures + 1) % 2 ^ 64;
      last_error = some error;
      status = failed_status now error n t;
    } in
    let found = entry-put id e t in
    (ap (λ x. x.consecutive_failures) found, ap (λ x. x.status) found)

-- Whether a status lets requests through.
abbrev lets_through : Instant → ProviderHealthStatus → Bool
lets_through now healthy = true
lets_through now (degraded n) = true
lets_through now (unavailable until reason) = leb until now

is_available-lets_through :
    (now : Instant) (id : ProviderId) (t : ProviderHealthTracker)
    → (is_available now id t).1 ≡ lets_through now (entry id t).status
unfolding is_available put
is_available-lets_through now id t = ground arith

-- Failures of one provider, each with its time.
pub record_failures :
    ProviderId → List (Instant × ProviderError) → ProviderHealthTracker → ProviderHealthTracker
record_failures id [] t = t
record_failures id ((now, error) ∷ rest) t = record_failures id rest (record_failure now id error t)

failures_counted :
    (id : ProviderId) (fs : List (Instant × ProviderError)) (t : ProviderHealthTracker)
    → (entry id t).consecutive_failures + length fs < 2 ^ 32
    → ((entry id (record_failures id fs t)).consecutive_failures
        ≡ (entry id t).consecutive_failures + length fs)
      × ((record_failures id fs t).failure_threshold ≡ t.failure_threshold)
      × ((record_failures id fs t).cooldown_duration ≡ t.cooldown_duration)
unfolding record_failures record_failure put
failures_counted id [] t w = (omega arith, refl, refl)
failures_counted id ((now, error) ∷ fs) t w =
    let (once, _) = entry-record_failure now id error t in
    let (rest, limit, wait) =
      failures_counted id fs (record_failure now id error t) (omega (arith, once, w)) in
    (omega (arith, once, rest, w), limit, wait)

after_failure :
    (now later : Instant) (error : ProviderError) (t : ProviderHealthTracker) (n : ℕ)
    → retry_after error ≡ none
    → lets_through later (failed_status now error n t)
      ≡ (not (leb t.failure_threshold n) || leb (now + t.cooldown_duration) later)
unfolding failed_status
after_failure now later error t n r = ground arith

in_terms :
    {m n a b c d : ℕ} (x y : ℕ)
    → m ≡ n
    → a ≡ b
    → c ≡ d
    → (not (leb a m) || leb (x + c) y) ≡ (not (leb b n) || leb (x + d) y)
in_terms x y e f g = rw (e, f, g) refl

-- After failures in a row, of which the last was at `now` and named no time to wait, the provider is
-- available at `later` exactly if they were fewer than the threshold or the cooldown is over.
pub breaker_opens_at_threshold :
    (id : ProviderId) (fs : List (Instant × ProviderError)) (now later : Instant)
    (error : ProviderError) (t : ProviderHealthTracker)
    → (entry id t).consecutive_failures ≡ 0
    → retry_after error ≡ none
    → suc (length fs) < 2 ^ 32
    → (is_available later id (record_failure now id error (record_failures id fs t))).1
      ≡ (not (leb t.failure_threshold (suc (length fs))) || leb (now + t.cooldown_duration) later)
breaker_opens_at_threshold id fs now later error t z r w =
    let u = record_failures id fs t in
    let (count, limit, wait) = failures_counted id fs t (omega (arith, z, w)) in
    let (_, status) = entry-record_failure now id error u in
    is_available-lets_through later id (record_failure now id error u)
    ∙ ap (lets_through later) status
    ∙ after_failure now later error u (((entry id u).consecutive_failures + 1) % 2 ^ 32) r
    ∙ in_terms now later (omega (arith, count, z, w)) limit wait
