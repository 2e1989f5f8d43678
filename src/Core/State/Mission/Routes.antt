-- ===== src/Core/State/Mission/Routes.antt =====
-- Where runs of the mission lifecycle can and cannot lead.
use axonel.Prelude.{
  ◌≡◌, ◌≢◌, refl, ◌↔◌, ◌⊎◌, inl, inr, Bool, true, false, List, [], ◌∷◌, Has, arith, subst,
  Bool-cases,
}
use axonel.Core.State.Requests.{requests, requests_stay, requests_gate}
use axonel.Core.State.Mission.{
  MissionState, created, planning, running, waiting, replanning, needs_human, verifying,
  awaiting_acceptance, accepted, integrating, integrated, rejected, completed, failed, cancelled,
  budget_exhausted, transition_to,
}

-- The state that a request leaves, granted or refused.
abbrev pub step : MissionState → MissionState → MissionState
step s r = (transition_to s r).0

-- The states of a mission whose result nobody has put up for review yet.
abbrev pub is_before_review : MissionState → Bool
is_before_review awaiting_acceptance = false
is_before_review accepted = false
is_before_review integrating = false
is_before_review integrated = false
is_before_review completed = false
is_before_review _ = true

before_review_keep :
    (s r : MissionState)
    → is_before_review s ≡ true
    → ((r ≡ awaiting_acceptance) ⊎ (r ≡ completed)) ⊎ (is_before_review (step s r) ≡ true)
unfolding transition_to
before_review_keep s r h = ground arith

-- From a state before review, a mission comes to `integrated` only by a run that asks for
-- `awaiting_acceptance` or for `completed` on the way.
integrated_needs_review :
    (s : MissionState) (rs : List MissionState)
    → is_before_review s ≡ true
    → requests step s rs ≡ integrated
    → Has awaiting_acceptance rs ⊎ Has completed rs
integrated_needs_review s rs b e =
    let (g, is_gate, m) =
      requests_gate step is_before_review (λ r. (r ≡ awaiting_acceptance) ⊎ (r ≡ completed))
        before_review_keep s rs b (rw e) in
    elim is_gate [
      | inl x ↦ inl (subst (λ y. Has y rs) x m)
      | inr x ↦ inr (subst (λ y. Has y rs) x m)
    ]

-- The states that no transition leaves, `integrated` apart.
abbrev pub is_dead : MissionState → Bool
is_dead failed = true
is_dead cancelled = true
is_dead budget_exhausted = true
is_dead _ = false

dead_stays : (s r : MissionState) → is_dead s ≡ true → step s r ≡ s
unfolding transition_to
dead_stays s r h = ground arith

-- A run to `integrated` from each state that has one.
abbrev route : MissionState → List MissionState
route created = planning ∷ awaiting_acceptance ∷ integrated ∷ []
route planning = awaiting_acceptance ∷ integrated ∷ []
route running = awaiting_acceptance ∷ integrated ∷ []
route waiting = running ∷ awaiting_acceptance ∷ integrated ∷ []
route replanning = running ∷ awaiting_acceptance ∷ integrated ∷ []
route needs_human = running ∷ awaiting_acceptance ∷ integrated ∷ []
route verifying = awaiting_acceptance ∷ integrated ∷ []
route rejected = replanning ∷ running ∷ awaiting_acceptance ∷ integrated ∷ []
route integrated = []
route _ = integrated ∷ []

route_leads : (s : MissionState) → is_dead s ≡ false → requests step s (route s) ≡ integrated
unfolding requests transition_to
route_leads failed h = cc
route_leads cancelled h = cc
route_leads budget_exhausted h = cc
route_leads _ h = refl

dead_not_integrated :
    (s : MissionState) (rs : List MissionState) → is_dead s ≡ true → requests step s rs ≢ integrated
dead_not_integrated s rs d e = ground (arith, requests_stay step s (λ r. dead_stays s r d) rs)

-- A mission can still be integrated exactly when it has not failed, was not cancelled and has not
-- exhausted its budget; a rejected or completed one can, although `is_terminal` holds of both.
pub integrated_reachable_iff :
    (s : MissionState)
    → ((rs : List MissionState) × (requests step s rs ≡ integrated)) ↔ (is_dead s ≡ false)
integrated_reachable_iff s = (
  λ p. elim (Bool-cases (is_dead s)) [
    | inl d ↦ absurd (dead_not_integrated s p.0 d p.1)
    | inr live ↦ live
  ],
  λ live. (route s, route_leads s live),
)
