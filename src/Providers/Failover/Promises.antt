-- ===== src/Providers/Failover/Promises.antt =====
-- What `execute_with_failover` of crates/plexis-providers/src/failover.rs promises.
use mathlib.Core.List.{append-nil}
use axonel.Prelude.{
  ℕ, zero, suc, ◌==◌, if◌then◌else◌, ◌+◌, ◌*◌, ◌≤◌, ◌<◌, ◌≡◌, refl, false, none, some, List, [],
  ◌∷◌, ◌++◌, Result, err, arith, ◌⊎◌, inl, inr, Bool-cases, ◌∙◌, ap, subst, sym,
}
use axonel.Core.Ids.{ProviderId}
use axonel.Providers.Errors.{ProviderError}
use axonel.Providers.Reliability.{RetryPolicy}
use axonel.Providers.Health.{is_available}
use axonel.Providers.Failover.{
  PrivacyPolicy, CapabilityRequirement, ProviderDescriptor, World, Router, satisfies,
  select_candidates, execute_with_failover, no_eligible_provider, try_candidates,
}
use axonel.Providers.Failover.Dispatch.{Logs, repeated}
use axonel.Providers.Failover.Rotation.{
  Turns, no_turns, turn, Rotated, Each, names, hops, route, is_err, try_each-Rotated,
}

-- Of each provider that privacy and capabilities permit.
abbrev pub EachPermitted :
    {P : Type 0}
    → PrivacyPolicy
    → CapabilityRequirement
    → (ProviderId → P → Type 0)
    → List (ProviderDescriptor × P)
    → Type 0
EachPermitted privacy req K [] = Unit
EachPermitted privacy req K ((d, p) ∷ ps) =
    ((satisfies privacy req d ≡ false) ⊎ K d.provider_id p) × EachPermitted privacy req K ps

-- The providers that privacy and capabilities permit.
abbrev pub permitted :
    {P : Type 0}
    → PrivacyPolicy
    → CapabilityRequirement
    → List (ProviderDescriptor × P)
    → List ProviderId
permitted privacy req [] = []
permitted privacy req ((d, p) ∷ ps) =
    let rest = permitted privacy req ps in
    if satisfies privacy req d then d.provider_id ∷ rest else rest

-- How often the provider stands in the list.
abbrev pub times : ProviderId → List ProviderId → ℕ
times id [] = 0
times id (x ∷ xs) = let rest = times id xs in if x == id then suc rest else rest

times-append :
    (id : ProviderId) (xs ys : List ProviderId) → times id (xs ++ ys) ≡ times id xs + times id ys
times-append id [] ys = omega arith
times-append id (x ∷ xs) ys = ground (arith, times-append id xs ys)

times-repeated :
    (id : ProviderId) (n : ℕ) (x : ProviderId)
    → times id (repeated n x) ≡ (if x == id then n else 0)
times-repeated id zero x = ground arith
times-repeated id (suc n) x = ground (arith, times-repeated id n x)

one_more : (c q : ℕ) → suc c * q ≡ q + c * q
one_more c q = grind arith

times-Turns :
    {limit : ℕ} {ids calls : List ProviderId} (id : ProviderId)
    → Turns limit ids calls
    → times id calls ≤ times id ids * limit
times-Turns {limit = limit} id no_turns = omega arith
times-Turns {limit = limit} id (turn x n ids calls least most rest) =
    let later = times-Turns id rest in
    ground (
      arith,
      later,
      most,
      times-append id (repeated n x) calls,
      times-repeated id n x,
      one_more (times id ids) limit,
    )

record Selected {P W : Type 0} (K : ProviderId → P → Type 0) (privacy : PrivacyPolicy)
    (req : CapabilityRequirement) (ps : List (ProviderDescriptor × P)) (s : Router W)
    (o : Router W × List (ProviderDescriptor × P)) : Type 0 where
  same_world : o.0.world ≡ s.world
  same_decisions : o.0.decisions ≡ s.decisions
  each : Each K o.1
  no_more : (id : ProviderId) → times id (names o.1) ≤ times id (permitted privacy req ps)

no_more_times : (n a b c q : ℕ) → n ≤ a * q → a ≤ b → b ≤ c → n ≤ c * q
no_more_times n a b c q h k l = grind arith

module _ {P R W : Type 0} (outside : World P R W) where
  select_candidates-Selected :
      (K : ProviderId → P → Type 0) (privacy : PrivacyPolicy) (req : CapabilityRequirement)
      (ps : List (ProviderDescriptor × P)) (s : Router W)
      → EachPermitted privacy req K ps
      → Selected K privacy req ps s (select_candidates outside privacy req ps s)
  unfolding select_candidates
  select_candidates-Selected K privacy req [] s h = record {
    same_world = refl;
    same_decisions = refl;
    each = tt;
    no_more = λ id. omega arith;
  }
  select_candidates-Selected K privacy req ((d, p) ∷ ps) s (h, hs) =
      let checked = is_available (outside.now s.world) d.provider_id s.tracker in
      elim (Bool-cases (satisfies privacy req d)) [
        | inr refused ↦
            let rest = select_candidates-Selected K privacy req ps s hs in
            rw refused (record {
              same_world = rest.same_world;
              same_decisions = rest.same_decisions;
              each = rest.each;
              no_more = λ id. ground (arith, rest.no_more id, refused);
            })
        | inl granted ↦
            let s₁ : Router W = record s { tracker = checked.0 } in
            let rest = select_candidates-Selected K privacy req ps s₁ hs in
            let allowed : K d.provider_id p = elim h [
              | inl refused ↦ absurd (cc (granted, refused))
              | inr k ↦ k
            ] in
            elim (Bool-cases checked.1) [
              | inl here ↦
                  rw (granted, here)
                    (record {
                      same_world = rest.same_world;
                      same_decisions = rest.same_decisions;
                      each = (allowed, rest.each);
                      no_more = λ id. ground (arith, rest.no_more id, granted);
                    })
              | inr away ↦
                  rw (granted, away)
                    (record {
                      same_world = rest.same_world;
                      same_decisions = rest.same_decisions;
                      each = rest.each;
                      no_more = λ id. ground (arith, rest.no_more id, granted);
                    })
            ]
      ]

  candidates-Rotated :
      (I : List ProviderId → W → Type 0) (fuel : ℕ) (policy : RetryPolicy) (privacy : PrivacyPolicy)
      (req : CapabilityRequirement) (ps : List (ProviderDescriptor × P)) (s : Router W)
      (o : Router W × List (ProviderDescriptor × P))
      → Selected (Logs outside I) privacy req ps s o
      → policy.max_retries < fuel
      → I [] s.world
      → Rotated I (suc policy.max_retries) none o.1 [] s (try_candidates outside fuel policy o)
  candidates-Rotated I fuel policy privacy req ps s (t, []) x lt h = record {
    after = t;
    answer = err no_eligible_provider;
    tried = [];
    untried = [];
    calls = [];
    ended = refl;
    turns = no_turns;
    held = subst (I []) (sym x.same_world) h;
    in_order = refl;
    recorded = ap route x.same_decisions ∙ sym (append-nil (route s.decisions));
    exhausted = inr refl;
  }
  candidates-Rotated I fuel policy privacy req ps s (t, c ∷ cs) x lt h =
      let r =
        try_each-Rotated outside I fuel policy (c ∷ cs) none none [] t x.each lt
          (subst (I []) (sym x.same_world) h) in
      record {
        after = r.after;
        answer = r.answer;
        tried = r.tried;
        untried = r.untried;
        calls = r.calls;
        ended = r.ended;
        turns = r.turns;
        held = r.held;
        in_order = r.in_order;
        recorded = r.recorded ∙ ap (λ ds. route ds ++ hops none r.tried) x.same_decisions;
        exhausted = r.exhausted;
      }

  -- A request ends, with enough fuel for one provider's retries; and to each provider it makes at most one
  -- call more than the retries for each place that the provider has among those that privacy and
  -- capabilities permit, so none to one that they forbid: what the calls of the permitted ones keep, with
  -- the log of the calls in their order, holds in the end.
  pub execute_calls_permitted :
      (I : List ProviderId → W → Type 0) (id : ProviderId) (fuel : ℕ) (policy : RetryPolicy)
      (privacy : PrivacyPolicy) (req : CapabilityRequirement) (ps : List (ProviderDescriptor × P))
      (s : Router W)
      → EachPermitted privacy req (Logs outside I) ps
      → policy.max_retries < fuel
      → I [] s.world
      → (t : Router W) × (answer : Result ProviderError R) × (calls : List ProviderId)
        × (execute_with_failover outside fuel policy ps privacy req s ≡ some (t, answer))
        × (times id calls ≤ times id (permitted privacy req ps) * suc policy.max_retries)
        × I calls t.world
  unfolding execute_with_failover
  execute_calls_permitted I id fuel policy privacy req ps s each lt h =
      let x = select_candidates-Selected (Logs outside I) privacy req ps s each in
      let r =
        candidates-Rotated I fuel policy privacy req ps s
          (select_candidates outside privacy req ps s) x lt h in
      (
        r.after,
        r.answer,
        r.calls,
        r.ended,
        no_more_times (times id r.calls) (times id r.tried) (times id (r.tried ++ r.untried))
            (times id (permitted privacy req ps)) (suc policy.max_retries) (times-Turns id r.turns)
            (omega (arith, times-append id r.tried r.untried))
            (subst (λ ids. times id ids ≤ times id (permitted privacy req ps)) (sym r.in_order)
              (x.no_more id)),
        r.held,
      )

  -- A request ends, with enough fuel for one provider's retries, and calls candidates in their order: each
  -- of those that it tries at least once and at most one time more than the retries, without another in
  -- between, and it stops early only with a response. After the decisions that there were it records each
  -- step from one that was called to the next, in that order, and no other. The calls in their order are
  -- the log with which what the calls of the permitted providers keep holds in the end.
  pub execute_records_route :
      (I : List ProviderId → W → Type 0) (fuel : ℕ) (policy : RetryPolicy) (privacy : PrivacyPolicy)
      (req : CapabilityRequirement) (ps : List (ProviderDescriptor × P)) (s : Router W)
      → EachPermitted privacy req (Logs outside I) ps
      → policy.max_retries < fuel
      → I [] s.world
      → (t : Router W) × (answer : Result ProviderError R) × (tried : List ProviderId)
        × (untried : List ProviderId) × (calls : List ProviderId) × (execute_with_failover outside
              fuel policy ps privacy req s
            ≡ some (t, answer))
        × (tried ++ untried ≡ names (select_candidates outside privacy req ps s).1)
        × Turns (suc policy.max_retries) tried calls
        × I calls t.world
        × (route t.decisions ≡ route s.decisions ++ hops none tried)
        × ((is_err answer ≡ false) ⊎ (untried ≡ []))
  unfolding execute_with_failover
  execute_records_route I fuel policy privacy req ps s each lt h =
      let r =
        candidates-Rotated I fuel policy privacy req ps s
          (select_candidates outside privacy req ps s)
          (select_candidates-Selected (Logs outside I) privacy req ps s each) lt h in
      (
        r.after, r.answer, r.tried, r.untried, r.calls, r.ended, r.in_order, r.turns, r.held,
        r.recorded, r.exhausted,
      )
