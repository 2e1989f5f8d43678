-- ===== src/Core/State/Names.antt =====
-- One arm of the `match` of a `from_str`: where test `b` of the text passes it names state `x`.
use axonel.Prelude.{String, ◌≡◌, subst, inl, inr, Bool, true, Bool-cases, if◌then◌else◌, Result, ok}
use axonel.Core.State.Transition.{StateTransitionError}

module _ {S : Type 0} (NameOf : S → String → Type 0) (t : String) (s : S) where
  pub arm :
      (b : Bool) (x : S) {rest : Result StateTransitionError S}
      → (b ≡ true → NameOf x t)
      → (rest ≡ ok s → NameOf s t)
      → (if b then ok x else rest) ≡ ok s
      → NameOf s t
  arm b x passes later h = elim (Bool-cases b) [
    | inl y ↦ subst (λ z. NameOf z t) (cc (rw y at h)) (passes y)
    | inr n ↦ later (rw n at h)
  ]
