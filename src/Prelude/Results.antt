-- ===== src/Prelude/Results.antt =====
-- Fallible methods. A method that mutates its receiver returns the receiver as it leaves it, on
-- the error path too, beside the `Result`.
use mathlib.Core.Path.{◌≡◌, refl}
use mathlib.Core.Logic.{◌⊎◌, inl, inr}
use mathlib.Core.List.{List, [], ◌∷◌}
use mathlib.Core.Bool.{Bool, true, false}
use axonel.Prelude.Tests.{if◌then◌else◌}

pub data Result {ℓ κ} (E : Type ℓ) (A : Type κ) : Type (ℓ ⊔ κ) where
  ok : A → Result E A
  err : E → Result E A

-- Rust's `?` on a method of the same receiver: an error ends the caller with the state so far.
abbrev pub and_then {ℓ κ} :
    {S A B : Type ℓ} {E : Type κ} → S × Result E A → (S → A → S × Result E B) → S × Result E B
and_then (s, ok a) f = f s a
and_then (s, err e) f = (s, err e)

-- `for x in xs { body(x)?; }`
unfoldable pub for_each {ℓ κ} :
    {S A : Type ℓ} {E : Type κ}
    → (A → S → S × Result E (Unit {ℓ}))
    → List A
    → S
    → S × Result E (Unit {ℓ})
for_each body [] s = (s, ok tt)
for_each body (x ∷ xs) s = and_then (body x s) (λ t _. for_each body xs t)

pub Result-cases {κ} :
    {E : Type κ} (r : Result E (Unit {0})) → (r ≡ ok tt) ⊎ ((e : E) × (r ≡ err e))
Result-cases (ok tt) = inl refl
Result-cases (err e) = inr (e, refl)

-- What a call leaves its receiver with, whether it fails or not.
pub record Leaves {S A : Type 0} {E : Type 0} (P : S → Type 0) (o : S × Result E A) : Type 0 where
  pub left : P o.0

-- What each step keeps, the composition keeps.
module _ {S A B : Type 0} {E : Type 0} {P : S → Type 0} where
  pub Leaves-and_then :
      {o : S × Result E A} {f : S → A → S × Result E B}
      → Leaves P o
      → ((s : S) (a : A) → P s → Leaves P (f s a))
      → Leaves P (and_then o f)
  Leaves-and_then {o = (s, ok a)} h k = k s a h.left
  Leaves-and_then {o = (s, err e)} h k = record { left = h.left }

module _ {S A : Type 0} {E : Type 0} {P : S → Type 0} where
  pub Leaves-if :
      (b : Bool) {x y : S × Result E A} → Leaves P x → Leaves P y → Leaves P (if b then x else y)
  Leaves-if true h k = h
  Leaves-if false h k = k

  pub Leaves-for_each :
      {body : A → S → S × Result E (Unit {0})} (xs : List A) (s : S)
      → P s
      → ((x : A) (t : S) → P t → Leaves P (body x t))
      → Leaves P (for_each body xs s)
  unfolding for_each
  Leaves-for_each [] s h k = record { left = h }
  Leaves-for_each (x ∷ xs) s h k = Leaves-and_then (k x s h) λ t _ p. Leaves-for_each xs t p k

pub Outcome-cases :
    {S A E : Type 0} (o : S × Result E A)
    → ((s : S) × (a : A) × (o ≡ (s, ok a))) ⊎ ((s : S) × (e : E) × (o ≡ (s, err e)))
Outcome-cases (s, ok a) = inl (s, a, refl)
Outcome-cases (s, err e) = inr (s, e, refl)
