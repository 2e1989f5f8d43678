-- ===== src/Providers/Failover/Rotation.antt =====
-- The candidates of crates/plexis-providers/src/failover.rs in turn: which are tried, with how many calls,
-- and what is recorded of them.
use mathlib.Core.List.{append_assoc, append-nil}
use axonel.Prelude.{
  ℕ, suc, ◌≤◌, ◌<◌, ◌≡◌, refl, Bool, true, false, Option, none, some, List, [], ◌∷◌, ◌++◌, Result,
  ok, err, arith, ◌⊎◌, inl, inr, ◌∙◌, ap, subst, sym,
}
use axonel.Core.Ids.{ProviderId}
use axonel.Providers.Errors.{ProviderError}
use axonel.Providers.Reliability.{RetryPolicy}
use axonel.Providers.Failover.{
  ProviderDescriptor, FailoverDecision, World, Router, note_failover, try_each, or_all_failed,
}
use axonel.Providers.Failover.Dispatch.{Logs, repeated, dispatch-Ran}

-- The pairs of providers that follow each other.
abbrev pub hops : Option ProviderId → List ProviderId → List (ProviderId × ProviderId)
hops last [] = []
hops none (a ∷ ids) = hops (some a) ids
hops (some x) (a ∷ ids) = (x, a) ∷ hops (some a) ids

abbrev pub route : List FailoverDecision → List (ProviderId × ProviderId)
route [] = []
route (d ∷ ds) = (d.from_provider_id, d.to_provider_id) ∷ route ds

abbrev pub origin : Option (ProviderId × ProviderError) → Option ProviderId
origin none = none
origin (some (id, e)) = some id

route-append : (xs ys : List FailoverDecision) → route (xs ++ ys) ≡ route xs ++ route ys
route-append [] ys = refl
route-append (x ∷ xs) ys = ap (λ r. (x.from_provider_id, x.to_provider_id) ∷ r) (route-append xs ys)

module _ {P : Type 0} where
  abbrev pub names : List (ProviderDescriptor × P) → List ProviderId
  names [] = []
  names ((d, p) ∷ cs) = d.provider_id ∷ names cs

  abbrev pub Each : (ProviderId → P → Type 0) → List (ProviderDescriptor × P) → Type 0
  Each K [] = Unit
  Each K ((d, p) ∷ cs) = K d.provider_id p × Each K cs

abbrev pub is_err : {R : Type 0} → Result ProviderError R → Bool
is_err (ok r) = false
is_err (err e) = true

-- The calls in order: each provider of `ids` in turn, at least once and at most `limit` times in a row.
pub data Turns (limit : ℕ) : List ProviderId → List ProviderId → Type 0 where
  no_turns : Turns limit [] []
  turn :
      (id : ProviderId) (n : ℕ) (ids calls : List ProviderId)
      → 0 < n
      → n ≤ limit
      → Turns limit ids calls
      → Turns limit (id ∷ ids) (repeated n id ++ calls)

-- What the rotation leaves: those that were tried, from the first on, with their calls, and whether any are
-- left.
pub record Rotated {P R W : Type 0} (I : List ProviderId → W → Type 0) (limit : ℕ)
    (previous : Option ProviderId) (cs : List (ProviderDescriptor × P)) (log : List ProviderId)
    (s : Router W) (result : Option (Router W × Result ProviderError R)) : Type 0 where
  pub after : Router W
  pub answer : Result ProviderError R
  pub tried : List ProviderId
  pub untried : List ProviderId
  pub calls : List ProviderId
  pub ended : result ≡ some (after, answer)
  pub turns : Turns limit tried calls
  pub held : I (log ++ calls) after.world
  pub in_order : tried ++ untried ≡ names cs
  pub recorded : route after.decisions ≡ route s.decisions ++ hops previous tried
  pub exhausted : (is_err answer ≡ false) ⊎ (untried ≡ [])

module _ {P R W : Type 0} (outside : World P R W) where
  noted :
      (previous : Option (ProviderId × ProviderError)) (to : ProviderId) (ids : List ProviderId)
      (s : Router W)
      → route (note_failover outside previous to s).decisions ++ hops (some to) ids
        ≡ route s.decisions ++ hops (origin previous) (to ∷ ids)
  unfolding note_failover
  noted none to ids s = refl
  noted (some (id, e)) to ids s =
      ap (λ r. r ++ hops (some to) ids) (route-append s.decisions _)
      ∙ append_assoc (route s.decisions) ((id, to) ∷ []) (hops (some to) ids)

  note_keeps_world :
      (previous : Option (ProviderId × ProviderError)) (to : ProviderId) (s : Router W)
      → (note_failover outside previous to s).world ≡ s.world
  unfolding note_failover
  note_keeps_world none to s = refl
  note_keeps_world (some (id, e)) to s = refl

  answer_cases :
      (r : Result ProviderError R) → ((a : R) × (r ≡ ok a)) ⊎ ((e : ProviderError) × (r ≡ err e))
  answer_cases (ok a) = inl (a, refl)
  answer_cases (err e) = inr (e, refl)

  pub try_each-Rotated :
      (I : List ProviderId → W → Type 0) (fuel : ℕ) (policy : RetryPolicy)
      (cs : List (ProviderDescriptor × P)) (last : Option ProviderError)
      (previous : Option (ProviderId × ProviderError)) (log : List ProviderId) (s : Router W)
      → Each (Logs outside I) cs
      → policy.max_retries < fuel
      → I log s.world
      → Rotated I
          (suc policy.max_retries)
          (origin previous)
          cs
          log
          s
          (try_each outside fuel policy cs last previous s)
  unfolding try_each
  try_each-Rotated I fuel policy [] last previous log s c lt h = record {
    after = s;
    answer = err (or_all_failed last);
    tried = [];
    untried = [];
    calls = [];
    ended = refl;
    turns = no_turns;
    held = subst (λ l. I l s.world) (sym (append-nil log)) h;
    in_order = refl;
    recorded = sym (append-nil (route s.decisions));
    exhausted = inr refl;
  }
  try_each-Rotated I fuel policy ((d, p) ∷ cs) last previous log s (c, others) lt h =
      let id = d.provider_id in
      let s₁ = note_failover outside previous id s in
      let ran =
        dispatch-Ran outside I fuel policy d p 0 log s₁ c (omega arith) (omega (arith, lt))
          (subst (I log) (sym (note_keeps_world previous id s)) h) in
      let mine = repeated ran.times id in
      elim (answer_cases ran.answer) [
        | inl (a, e) ↦ record {
          after = ran.after;
          answer = ok a;
          tried = id ∷ [];
          untried = names cs;
          calls = mine ++ [];
          ended = rw (ran.ended, e) refl;
          turns = turn id ran.times [] [] ran.at_least (omega (arith, ran.within)) no_turns;
          held = subst (λ l. I (log ++ l) ran.after.world) (sym (append-nil mine)) ran.held;
          in_order = refl;
          recorded =
              ap route ran.same_decisions
              ∙ sym (append-nil (route s₁.decisions))
              ∙ noted previous id [] s;
          exhausted = inl refl;
        }
        | inr (e, x) ↦
            let rest =
              try_each-Rotated I fuel policy cs (some e) (some (id, e)) (log ++ mine) ran.after
                others lt ran.held in
            record {
              after = rest.after;
              answer = rest.answer;
              tried = id ∷ rest.tried;
              untried = rest.untried;
              calls = mine ++ rest.calls;
              ended = rw (ran.ended, x) rest.ended;
              turns =
                  turn id ran.times rest.tried rest.calls ran.at_least (omega (arith, ran.within))
                    rest.turns;
              held = subst (λ l. I l rest.after.world) (append_assoc log mine rest.calls) rest.held;
              in_order = ap (λ l. id ∷ l) rest.in_order;
              recorded =
                  rest.recorded
                  ∙ ap (λ r. route r ++ hops (some id) rest.tried) ran.same_decisions
                  ∙ noted previous id rest.tried s;
              exhausted = rest.exhausted;
            }
      ]
