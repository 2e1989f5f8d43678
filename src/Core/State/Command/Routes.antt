-- ===== src/Core/State/Command/Routes.antt =====
-- Where runs of the command lifecycle can and cannot lead.
use axonel.Prelude.{◌≡◌, refl, ◌⊎◌, inl, inr, Bool, true, false, List, Has, arith, subst}
use axonel.Core.State.Requests.{requests, requests_gate}
use axonel.Core.State.Command.{
  CommandState, queued, dispatched, confirmed, failed, retrying, dead_lettered, cancelled,
  transition_to,
}

-- The state that a request leaves, granted or refused.
abbrev pub step : CommandState → CommandState → CommandState
step s r = (transition_to s r).0

abbrev undispatched : CommandState → Bool
undispatched queued = true
undispatched cancelled = true
undispatched _ = false

undispatched_keep :
    (s r : CommandState)
    → undispatched s ≡ true
    → (r ≡ dispatched) ⊎ (undispatched (step s r) ≡ true)
unfolding transition_to
undispatched_keep s r h = ground arith

abbrev unfailed : CommandState → Bool
unfailed dead_lettered = false
unfailed retrying = false
unfailed failed = false
unfailed _ = true

unfailed_keep :
    (s r : CommandState)
    → unfailed s ≡ true
    → ((r ≡ failed) ⊎ (r ≡ retrying)) ⊎ (unfailed (step s r) ≡ true)
unfolding transition_to
unfailed_keep s r h = ground arith

dispatched_by :
    (rs : List CommandState) → undispatched (requests step queued rs) ≡ false → Has dispatched rs
dispatched_by rs e =
    let (g, is_gate, m) =
      requests_gate step undispatched (λ r. r ≡ dispatched) undispatched_keep queued rs refl e in
    subst (λ x. Has x rs) is_gate m

-- A queued command comes to `confirmed` only by a run that asks for `dispatched`.
pub confirmed_needs_dispatch :
    (rs : List CommandState) → requests step queued rs ≡ confirmed → Has dispatched rs
confirmed_needs_dispatch rs e = dispatched_by rs (rw e)

-- A queued command comes to `dead_lettered` only by a run that asks for `dispatched`, and for
-- `failed` or `retrying`.
pub dead_lettered_needs :
    (rs : List CommandState)
    → requests step queued rs ≡ dead_lettered
    → Has dispatched rs × (Has failed rs ⊎ Has retrying rs)
dead_lettered_needs rs e =
    let (g, is_gate, m) =
      requests_gate step unfailed (λ r. (r ≡ failed) ⊎ (r ≡ retrying)) unfailed_keep queued rs refl
        (rw e) in
    (
      dispatched_by rs (rw e),
      elim is_gate [
        | inl x ↦ inl (subst (λ y. Has y rs) x m)
        | inr x ↦ inr (subst (λ y. Has y rs) x m)
      ],
    )
