-- ===== src/Providers/Failover.antt =====
-- crates/plexis-providers/src/failover.rs. A provider is a `P`; `World` is what lies outside: the
-- providers' answers (`Provider::complete` on the request at hand), the clock and the sleep between
-- retries, over the state `W` of it all.
pub mod Dispatch
pub mod Rotation
pub mod Promises
use axonel.Prelude.{
  ℕ, zero, suc, ◌+◌, Bool, true, false, not, ◌&&◌, Option, none, some, List, [], ◌∷◌, ◌++◌, leb,
  ltb, if◌then◌else◌, Result, ok, err, String,
}
use axonel.Prelude.Sets.{contains}
use axonel.Core.Ids.{Instant, ProviderId}
use axonel.Providers.Errors.{ProviderError, unavailable}
use axonel.Providers.Reliability.{RetryPolicy, compute_delay}
use axonel.Providers.Health.{ProviderHealthTracker, record_success, record_failure, is_available}

pub data PrivacyPolicy : Type 0 where
  local_only any : PrivacyPolicy
  allowed_providers : List ProviderId → PrivacyPolicy

unfoldable pub allows : ProviderId → (is_local : Bool) → PrivacyPolicy → Bool
allows id is_local local_only = is_local
allows id is_local (allowed_providers allowed) = contains allowed id
allows id is_local any = true

pub record CapabilityRequirement : Type 0 where
  pub min_reasoning_tier : ℕ  -- u8
  pub requires_tools : Bool

unfoldable pub default_requirement : CapabilityRequirement
default_requirement = record { min_reasoning_tier = 1; requires_tools = false }

pub record ProviderDescriptor : Type 0 where
  pub provider_id : ProviderId
  pub model_name : String
  pub reasoning_tier : ℕ  -- u8
  pub supports_tools : Bool
  pub is_local : Bool

unfoldable pub satisfies : PrivacyPolicy → CapabilityRequirement → ProviderDescriptor → Bool
unfolding allows
satisfies privacy req d =
    if not (allows d.provider_id d.is_local privacy)
    then false
    else if ltb d.reasoning_tier req.min_reasoning_tier
    then false
    else if req.requires_tools && not d.supports_tools
    then false
    else true

pub record FailoverDecision : Type 0 where
  pub from_provider_id : ProviderId
  pub to_provider_id : ProviderId
  pub failure_reason : ProviderError
  pub timestamp : Instant

pub record World (P R W : Type 0) : Type 0 where
  pub complete : P → W → W × Result ProviderError R
  pub now : W → Instant
  pub sleep : ℕ → W → W

pub record Router (W : Type 0) : Type 0 where
  pub tracker : ProviderHealthTracker
  pub decisions : List FailoverDecision
  pub world : W

abbrev pub or_all_failed : Option ProviderError → ProviderError
or_all_failed none = unavailable "All candidate providers failed"
or_all_failed (some e) = e

abbrev pub no_eligible_provider : ProviderError
no_eligible_provider =
    unavailable
      "No eligible provider available satisfying capability, privacy, and health requirements"

module _ {P R W : Type 0} (outside : World P R W) where
  unfoldable pub select_candidates :
      PrivacyPolicy
      → CapabilityRequirement
      → List (ProviderDescriptor × P)
      → Router W
      → Router W × List (ProviderDescriptor × P)
  unfolding satisfies is_available
  select_candidates privacy req [] s = (s, [])
  select_candidates privacy req ((d, p) ∷ ps) s =
      let checked = is_available (outside.now s.world) d.provider_id s.tracker in
      let after : Router W =
        if satisfies privacy req d then record s { tracker = checked.0 } else s in
      let rest = select_candidates privacy req ps after in
      if satisfies privacy req d && checked.1 then (rest.0, (d, p) ∷ rest.1) else rest

  -- After a failed attempt, with the delay to the next one, if there is one.
  abbrev pub retry :
      Router W
      → ProviderError
      → (again : Router W → Option (Router W × Result ProviderError R)) → Option ℕ
      → Option (Router W × Result ProviderError R)
  retry failed e again none = some (failed, err e)
  retry failed e again (some delay) =
      again (record failed { world = outside.sleep delay failed.world })

  -- The `match` on the answer of an attempt; `again` is the next one.
  abbrev pub judge :
      RetryPolicy
      → ProviderDescriptor
      → (attempt : ℕ) → Router W
      → (again : Router W → Option (Router W × Result ProviderError R)) → W × Result ProviderError R
      → Option (Router W × Result ProviderError R)
  judge policy d attempt s again (w, ok response) =
      some (record s { tracker = record_success d.provider_id s.tracker; world = w }, ok response)
  judge policy d attempt s again (w, err e) =
      let failed : Router W = record s {
        tracker = record_failure (outside.now w) d.provider_id e s.tracker;
        world = w;
      } in
      retry failed e again (compute_delay attempt e policy)

  -- The `loop` over the attempts at one provider; `none` when the fuel is used up.
  unfoldable pub dispatch :
      (fuel : ℕ)
      → RetryPolicy
      → ProviderDescriptor
      → P
      → (attempt : ℕ) → Router W
      → Option (Router W × Result ProviderError R)
  unfolding record_success record_failure compute_delay
  dispatch zero policy d p attempt s = none
  dispatch (suc fuel) policy d p attempt s =
      judge policy d attempt s (λ t. dispatch fuel policy d p (suc attempt) t)
        (outside.complete p s.world)

  -- `previous_failure.take()`, recorded against the next provider.
  unfoldable pub note_failover :
      Option (ProviderId × ProviderError) → ProviderId → Router W → Router W
  note_failover none to s = s
  note_failover (some (from_id, reason)) to s = record s {
    decisions =
        s.decisions
        ++ (record {
          from_provider_id = from_id;
          to_provider_id = to;
          failure_reason = reason;
          timestamp = outside.now s.world;
        })
          ∷ [];
  }

  -- The end of the attempts at one candidate; `next` goes on with its error.
  abbrev pub move_on :
      (next : ProviderError → Router W → Option (Router W × Result ProviderError R))
      → Option (Router W × Result ProviderError R)
      → Option (Router W × Result ProviderError R)
  move_on next none = none
  move_on next (some (t, ok response)) = some (t, ok response)
  move_on next (some (t, err e)) = next e t

  -- The `for` over the candidates.
  unfoldable pub try_each :
      (fuel : ℕ)
      → RetryPolicy
      → List (ProviderDescriptor × P)
      → (last_error : Option ProviderError)
      → (previous_failure : Option (ProviderId × ProviderError)) → Router W
      → Option (Router W × Result ProviderError R)
  unfolding dispatch note_failover
  try_each fuel policy [] last_error previous s = some (s, err (or_all_failed last_error))
  try_each fuel policy ((d, p) ∷ rest) last_error previous s =
      move_on (λ e t. try_each fuel policy rest (some e) (some (d.provider_id, e)) t)
        (dispatch fuel policy d p 0 (note_failover previous d.provider_id s))

  -- From the test of the empty list on.
  abbrev pub try_candidates :
      (fuel : ℕ)
      → RetryPolicy
      → Router W × List (ProviderDescriptor × P)
      → Option (Router W × Result ProviderError R)
  try_candidates fuel policy (s, []) = some (s, err no_eligible_provider)
  try_candidates fuel policy (s, c ∷ cs) = try_each fuel policy (c ∷ cs) none none s

  unfoldable pub execute_with_failover :
      (fuel : ℕ)
      → RetryPolicy
      → List (ProviderDescriptor × P)
      → PrivacyPolicy
      → CapabilityRequirement
      → Router W
      → Option (Router W × Result ProviderError R)
  unfolding select_candidates try_each
  execute_with_failover fuel policy providers privacy capability s =
      try_candidates fuel policy (select_candidates privacy capability providers s)

  -- `Provider::complete` of the router itself.
  unfoldable pub complete :
      (fuel : ℕ)
      → RetryPolicy
      → List (ProviderDescriptor × P)
      → Router W
      → Option (Router W × Result ProviderError R)
  unfolding execute_with_failover default_requirement
  complete fuel policy providers s =
      execute_with_failover fuel policy providers any default_requirement s
