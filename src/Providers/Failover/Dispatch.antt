-- ===== src/Providers/Failover/Dispatch.antt =====
-- The attempts at one provider (crates/plexis-providers/src/failover.rs): they end, and each is one call.
use mathlib.Core.List.{append_assoc}
use axonel.Prelude.{
  ℕ, zero, suc, ◌+◌, ◌≤◌, ◌<◌, ◌≡◌, refl, Option, some, Result, ok, err, arith, inl, inr, List, [],
  ◌∷◌, ◌++◌, Option-cases, Outcome-cases, subst, ◌-◌,
}
use axonel.Core.Ids.{ProviderId}
use axonel.Providers.Errors.{ProviderError}
use axonel.Providers.Reliability.{RetryPolicy, compute_delay, compute_delay_bounded}
use axonel.Providers.Health.{record_success, record_failure}
use axonel.Providers.Failover.{ProviderDescriptor, World, Router, dispatch}

abbrev pub repeated : ℕ → ProviderId → List ProviderId
repeated zero id = []
repeated (suc n) id = id ∷ repeated n id

-- What ends, with how many calls of the provider `id`, and what the calls keep of the world after `log`.
pub record Ran {R W : Type 0} (I : List ProviderId → W → Type 0) (id : ProviderId) (limit : ℕ)
    (log : List ProviderId) (s : Router W) (result : Option (Router W × Result ProviderError R))
    : Type 0 where
  pub after : Router W
  pub answer : Result ProviderError R
  pub times : ℕ
  pub ended : result ≡ some (after, answer)
  pub at_least : 0 < times
  pub within : times ≤ limit
  pub held : I (log ++ repeated times id) after.world
  pub same_decisions : after.decisions ≡ s.decisions

module _ {P R W : Type 0} where
  -- Each call of `p` adds its identifier to the log of calls; sleeping adds nothing.
  pub record Logs (outside : World P R W) (I : List ProviderId → W → Type 0) (id : ProviderId)
      (p : P) : Type 0 where
    pub called :
        (log : List ProviderId) (w : W) → I log w → I (log ++ id ∷ []) (outside.complete p w).0
    pub slept : (log : List ProviderId) (d : ℕ) (w : W) → I log w → I log (outside.sleep d w)

  pub dispatch-Ran :
      (outside : World P R W) (I : List ProviderId → W → Type 0) (fuel : ℕ) (policy : RetryPolicy)
      (d : ProviderDescriptor) (p : P) (attempt : ℕ) (log : List ProviderId) (s : Router W)
      → Logs outside I d.provider_id p
      → attempt ≤ policy.max_retries
      → policy.max_retries < attempt + fuel
      → I log s.world
      → Ran I d.provider_id
          (suc policy.max_retries - attempt)
          log
          s
          (dispatch outside fuel policy d p attempt s)
  unfolding dispatch
  dispatch-Ran outside I zero policy d p attempt log s c le lt h = absurd (omega (arith, le, lt))
  dispatch-Ran outside I (suc fuel) policy d p attempt log s c le lt h =
      let id = d.provider_id in
      elim (Outcome-cases (outside.complete p s.world)) [
        | inl (w, response, e) ↦ record {
          after = record s { tracker = record_success id s.tracker; world = w };
          answer = ok response;
          times = suc zero;
          ended = rw e refl;
          at_least = omega arith;
          within = omega (arith, le);
          held = subst (λ o. I (log ++ id ∷ []) o.0) e (c.called log s.world h);
          same_decisions = refl;
        }
        | inr (w, error, e) ↦
            let reached : I (log ++ id ∷ []) w =
              subst (λ o. I (log ++ id ∷ []) o.0) e (c.called log s.world h) in
            let failed : Router W = record s {
              tracker = record_failure (outside.now w) id error s.tracker;
              world = w;
            } in
            elim (Option-cases (compute_delay attempt error policy)) [
              | inl stops ↦ record {
                after = failed;
                answer = err error;
                times = suc zero;
                ended = rw (e, stops) refl;
                at_least = omega arith;
                within = omega (arith, le);
                held = reached;
                same_decisions = refl;
              }
              | inr (delay, again) ↦
                  let (left, _, _) = compute_delay_bounded attempt error policy delay again in
                  let rest =
                    dispatch-Ran outside I fuel policy d p (suc attempt) (log ++ id ∷ [])
                      (record failed { world = outside.sleep delay w }) c left (omega (arith, lt))
                      (c.slept (log ++ id ∷ []) delay w reached) in
                  record {
                    after = rest.after;
                    answer = rest.answer;
                    times = suc rest.times;
                    ended = rw (e, again) rest.ended;
                    at_least = omega arith;
                    within = omega (arith, rest.within, left);
                    held =
                        subst (λ l. I l rest.after.world)
                          (append_assoc log (id ∷ []) (repeated rest.times id)) rest.held;
                    same_decisions = rest.same_decisions;
                  }
            ]
      ]
