-- ===== src/Tests/Requests.antt =====
-- Requests to providers (crates/plexis-providers/src/failover.rs) at concrete values: provider 1 is in the
-- cloud and provider 2 is local, and times out once.
use axonel.Prelude.{
  ℕ, suc, ◌+◌, ◌*◌, ◌≤◌, ◌<◌, ◌≡◌, refl, Bool, true, false, not, ◌||◌, none, some, List, [], ◌∷◌,
  ◌++◌, length, Result, ok, err, ◌⊎◌, inl, inr, arith, ap, ◌==◌, if◌then◌else◌, leb,
}
use axonel.Prelude.Map
use axonel.Core.Ids.{ProviderId}
use axonel.Providers.Errors.{
  ProviderError, timeout, is_transient, retry_after, rate_limited, network,
}
use axonel.Providers.Reliability.{RetryPolicy, compute_delay, compute_delay_bounded}
use axonel.Providers.Health.{ProviderHealthTracker, is_available, record_failure, entry}
use axonel.Providers.Health.Breaker.{record_failures, breaker_opens_at_threshold}
use axonel.Providers.Failover.{
  ProviderDescriptor, World, Router, local_only, any, default_requirement, satisfies,
  select_candidates, execute_with_failover,
}
use axonel.Providers.Failover.Dispatch.{Logs}
use axonel.Providers.Failover.Rotation.{Turns, names, hops, route, is_err}
use axonel.Providers.Failover.Promises.{
  times, permitted, execute_calls_permitted, execute_records_route,
}

abbrev a_policy : RetryPolicy
a_policy = record {
  max_retries = 2;
  initial_backoff = 5;
  max_backoff = 40;
  backoff = λ attempt. 5 * suc attempt;
}

abbrev reversed : List ℕ → List ℕ
reversed [] = []
reversed (x ∷ xs) = reversed xs ++ x ∷ []

-- The providers that were called, the last one first.
abbrev a_world : World ℕ ℕ (List ℕ)
a_world = record {
  complete = λ p called. (p ∷ called, if length called == 0 then err (timeout "slow") else ok p);
  now = λ called. length called;
  sleep = λ delay called. called;
}

abbrev a_descriptor : ProviderId → Bool → ProviderDescriptor
a_descriptor id is_local = record {
  provider_id = id;
  model_name = "a model";
  reasoning_tier = 2;
  supports_tools = true;
  is_local = is_local;
}

abbrev providers : List (ProviderDescriptor × ℕ)
providers = (a_descriptor 1 false, 1) ∷ (a_descriptor 2 true, 2) ∷ []

abbrev a_tracker : ProviderHealthTracker
a_tracker = record { entries = []; failure_threshold = 3; cooldown_duration = 60 }

abbrev a_router : Router (List ℕ)
a_router = record { tracker = a_tracker; decisions = []; world = [] }

-- The calls that were made, in their order.
abbrev Logged : List ProviderId → List ℕ → Type 0
Logged log called = reversed called ≡ log

Logged-Logs : (p : ℕ) → Logs a_world Logged p p
Logged-Logs p = record { called = λ log w h. ap (λ l. l ++ p ∷ []) h; slept = λ log d w h. h }

execute_calls_permitted_example :
    (t : Router (List ℕ)) × (answer : Result ProviderError ℕ) × (calls : List ProviderId)
    × (execute_with_failover a_world 3 a_policy providers local_only default_requirement a_router
        ≡ some (t, answer))
    × (times 1 calls ≤ times 1 (permitted local_only default_requirement providers) * suc 2)
    × Logged calls t.world
unfolding satisfies
execute_calls_permitted_example =
    execute_calls_permitted a_world Logged 1 3 a_policy local_only default_requirement providers
      a_router (inl refl, (inr (Logged-Logs 2), tt)) (omega arith) refl

execute_records_route_example :
    (t : Router (List ℕ)) × (answer : Result ProviderError ℕ) × (tried : List ProviderId)
    × (untried : List ProviderId) × (calls : List ProviderId) × (execute_with_failover a_world 3
          a_policy providers any default_requirement a_router
        ≡ some (t, answer))
    × (tried ++ untried
        ≡ names (select_candidates a_world any default_requirement providers a_router).1)
    × Turns (suc 2) tried calls
    × Logged calls t.world
    × (route t.decisions ≡ [] ++ hops none tried)
    × ((is_err answer ≡ false) ⊎ (untried ≡ []))
execute_records_route_example =
    execute_records_route a_world Logged 3 a_policy any default_requirement providers a_router
      (inr (Logged-Logs 1), (inr (Logged-Logs 2), tt)) (omega arith) refl

breaker_opens_at_threshold_example :
    (is_available 100 1 (
      record_failure 50 1
        (network "reset")
        (record_failures 1 ((10, timeout "slow") ∷ (20, rate_limited (some 1)) ∷ []) a_tracker))).1
    ≡ (not (leb 3 3) || leb (50 + 60) 100)
unfolding entry retry_after Map.get
breaker_opens_at_threshold_example =
    breaker_opens_at_threshold 1 ((10, timeout "slow") ∷ (20, rate_limited (some 1)) ∷ []) 50 100
      (network "reset") a_tracker refl refl (omega arith)

-- The provider asks for a second and is asked again after 40 nanoseconds.
compute_delay_bounded_example :
    (0 < a_policy.max_retries)
    × (is_transient (rate_limited (some 1)) ≡ true)
    × (40 ≤ a_policy.max_backoff)
unfolding compute_delay
compute_delay_bounded_example = compute_delay_bounded 0 (rate_limited (some 1)) a_policy 40 refl
