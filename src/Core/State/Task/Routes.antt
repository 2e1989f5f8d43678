-- ===== src/Core/State/Task/Routes.antt =====
-- Where runs of the task lifecycle can and cannot lead.
use axonel.Prelude.{◌≡◌, ◌≢◌, refl, ◌↔◌, ◌⊎◌, Bool, true, false, List, [], ◌∷◌, Has, arith, subst}
use axonel.Core.State.Requests.{requests, requests_stay, requests_gate}
use axonel.Core.State.Task.{
  TaskState, backlog, ready, assigned, running, awaiting_verification, verified, blocked,
  needs_human, paused, failed, retrying, quarantined, cancelled, discarded, transition_to,
}

-- The state that a request leaves, granted or refused.
abbrev pub step : TaskState → TaskState → TaskState
step s r = (transition_to s r).0

abbrev unverified : TaskState → Bool
unverified awaiting_verification = false
unverified verified = false
unverified _ = true

unverified_keep :
    (s r : TaskState)
    → unverified s ≡ true
    → (r ≡ awaiting_verification) ⊎ (unverified (step s r) ≡ true)
unfolding transition_to
unverified_keep s r h = ground arith

-- From any state but the two, a task comes to `verified` only by a run that asks for
-- `awaiting_verification` on the way.
verified_needs_verification :
    (s : TaskState) (rs : List TaskState)
    → s ≢ awaiting_verification
    → s ≢ verified
    → requests step s rs ≡ verified
    → Has awaiting_verification rs
verified_needs_verification s rs a v e =
    let (g, is_gate, m) =
      requests_gate step unverified (λ r. r ≡ awaiting_verification) unverified_keep s rs
        (ground arith) (rw e) in
    subst (λ x. Has x rs) is_gate m

cancelled_stays : (r : TaskState) → step cancelled r ≡ cancelled
unfolding transition_to
cancelled_stays r = ground arith

discarded_stays : (r : TaskState) → step discarded r ≡ discarded
unfolding transition_to
discarded_stays r = ground arith

-- A run to `verified` from each state that has one.
abbrev route : TaskState → List TaskState
route backlog = ready ∷ assigned ∷ running ∷ awaiting_verification ∷ verified ∷ []
route ready = assigned ∷ running ∷ awaiting_verification ∷ verified ∷ []
route assigned = running ∷ awaiting_verification ∷ verified ∷ []
route running = awaiting_verification ∷ verified ∷ []
route awaiting_verification = verified ∷ []
route verified = []
route blocked = ready ∷ assigned ∷ running ∷ awaiting_verification ∷ verified ∷ []
route needs_human = awaiting_verification ∷ verified ∷ []
route paused = running ∷ awaiting_verification ∷ verified ∷ []
route failed = retrying ∷ running ∷ awaiting_verification ∷ verified ∷ []
route retrying = running ∷ awaiting_verification ∷ verified ∷ []
route quarantined = ready ∷ assigned ∷ running ∷ awaiting_verification ∷ verified ∷ []
route _ = []

route_leads : (s : TaskState) → s ≢ cancelled → s ≢ discarded → requests step s (route s) ≡ verified
unfolding requests transition_to
route_leads cancelled c d = absurd (c refl)
route_leads discarded c d = absurd (d refl)
route_leads _ c d = refl

not_from_cancelled : (rs : List TaskState) → requests step cancelled rs ≢ verified
not_from_cancelled rs e = ground (arith, requests_stay step cancelled cancelled_stays rs)

not_from_discarded : (rs : List TaskState) → requests step discarded rs ≢ verified
not_from_discarded rs e = ground (arith, requests_stay step discarded discarded_stays rs)

-- A task can still come to `verified` exactly when it is neither cancelled nor discarded.
pub verified_reachable_iff :
    (s : TaskState)
    → ((rs : List TaskState) × (requests step s rs ≡ verified))
      ↔ ((s ≢ cancelled) × (s ≢ discarded))
verified_reachable_iff s = (
  λ p. (λ c. not_from_cancelled p.0 (rw c at p.1), λ d. not_from_discarded p.0 (rw d at p.1)),
  λ live. (route s, route_leads s live.0 live.1),
)
