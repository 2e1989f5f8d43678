-- ===== src/Prelude/Sets.antt =====
-- Finite sets of identifiers as lists: `HashSet`, and the counting that proofs about them need.
use Prim.Native.Nat.{ℕ, ◌≤◌, ◌<◌}
use mathlib.Core.Path.{◌≡◌, refl}
use mathlib.Core.Bool.{Bool, true, false, not, ◌&&◌, ◌||◌}
use mathlib.Core.Logic.{inl, inr}
use mathlib.Core.List.{List, [], ◌∷◌, ◌++◌}
use native.Mathlib.Omega.{arith}
use axonel.Prelude.Tests.{◌==◌, if◌then◌else◌, Bool-cases}
use axonel.Prelude.Lists.{length}

abbrev pub contains : List ℕ → ℕ → Bool
contains [] x = false
contains (y ∷ ys) x = y == x || contains ys x

-- `HashSet::insert` and `HashSet::remove`. Where an insertion puts a new element is not specified.
unfoldable pub insert : ℕ → List ℕ → List ℕ
insert x s = if contains s x then s else s ++ x ∷ []

unfoldable pub remove : ℕ → List ℕ → List ℕ
remove x [] = []
remove x (y ∷ ys) = let rest = remove x ys in if y == x then rest else y ∷ rest

-- Every element stands in the list once.
abbrev pub distinct : List ℕ → Bool
distinct [] = true
distinct (y ∷ ys) = not (contains ys y) && distinct ys

pub contains-append :
    (xs ys : List ℕ) (x : ℕ) → contains (xs ++ ys) x ≡ (contains xs x || contains ys x)
contains-append [] ys x = refl
contains-append (y ∷ xs) ys x = ground (arith, contains-append xs ys x)

pub contains-insert :
    (x : ℕ) (s : List ℕ) (y : ℕ) → contains (insert x s) y ≡ (x == y || contains s y)
unfolding insert
contains-insert x s y = ground (arith, contains-append s (x ∷ []) y)

pub contains-remove :
    (x : ℕ) (s : List ℕ) (y : ℕ) → contains (remove x s) y ≡ (not (x == y) && contains s y)
unfolding remove
contains-remove x [] y = ground arith
contains-remove x (z ∷ s) y = ground (arith, contains-remove x s y)

pub distinct-snoc :
    (xs : List ℕ) (x : ℕ)
    → distinct xs ≡ true
    → contains xs x ≡ false
    → distinct (xs ++ x ∷ []) ≡ true
distinct-snoc [] x d n = refl
distinct-snoc (y ∷ xs) x d n = ground (arith, distinct-snoc xs x, contains-append xs (x ∷ []) y)

pub distinct-insert : (x : ℕ) (s : List ℕ) → distinct s ≡ true → distinct (insert x s) ≡ true
unfolding insert
distinct-insert x s d = ground (arith, distinct-snoc s x)

pub distinct-remove : (x : ℕ) (s : List ℕ) → distinct s ≡ true → distinct (remove x s) ≡ true
unfolding remove
distinct-remove x [] d = refl
distinct-remove x (y ∷ s) d = ground (arith, distinct-remove x s, contains-remove x s y)

-- The elements before a middle one are not it, nor those after.
pub distinct-middle :
    (xs : List ℕ) (x : ℕ) (ys : List ℕ) → distinct (xs ++ x ∷ ys) ≡ true → contains xs x ≡ false
distinct-middle [] x ys d = refl
distinct-middle (y ∷ xs) x ys d =
    ground (arith, distinct-middle xs x ys, contains-append xs (x ∷ ys) y)

length-remove_le : (x : ℕ) (s : List ℕ) → length (remove x s) ≤ length s
unfolding remove
length-remove_le x [] = omega arith
length-remove_le x (y ∷ s) = ground (arith, length-remove_le x s)

length-remove_lt : (x : ℕ) (s : List ℕ) → contains s x ≡ true → length (remove x s) < length s
unfolding remove
length-remove_lt x [] m = cc
length-remove_lt x (y ∷ s) m = ground (arith, length-remove_lt x s, length-remove_le x s)

-- A list without repetition is no longer than one that has all its elements.
pub length-le_of_subset :
    (xs ys : List ℕ)
    → distinct xs ≡ true
    → ((x : ℕ) → contains xs x ≡ true → contains ys x ≡ true)
    → length xs ≤ length ys
length-le_of_subset [] ys d h = omega arith
length-le_of_subset (x ∷ xs) ys d h =
    let shorter = length-remove_lt x ys (h x (ground arith)) in
    let rest =
      length-le_of_subset xs (remove x ys) (ground arith)
        (λ z m. ground (arith, h z, contains-remove x ys z)) in
    omega (arith, shorter, rest)

-- Where the lengths agree, the longer list has no others.
pub subset_full :
    (xs ys : List ℕ)
    → distinct xs ≡ true
    → ((x : ℕ) → contains xs x ≡ true → contains ys x ≡ true)
    → length xs ≡ length ys
    → (y : ℕ) → contains ys y ≡ true
    → contains xs y ≡ true
subset_full xs ys d h e y m = elim (Bool-cases (contains xs y)) [
  | inl i ↦ i
  | inr o ↦
      absurd
        (omega (arith, length-le_of_subset (y ∷ xs) ys (ground arith) (λ x i. ground (arith, h x))))
]

-- Every element of the first stands in the second.
abbrev pub subset : List ℕ → List ℕ → Bool
subset [] ys = true
subset (x ∷ xs) ys = contains ys x && subset xs ys

pub subset-contains :
    (xs ys : List ℕ) (x : ℕ) → subset xs ys ≡ true → contains ys x ≡ false → contains xs x ≡ false
subset-contains [] ys x h n = refl
subset-contains (z ∷ xs) ys x h n = ground (arith, subset-contains xs ys x)

pub subset-later : (xs ys : List ℕ) (y : ℕ) → subset xs ys ≡ true → subset xs (y ∷ ys) ≡ true
subset-later [] ys y h = refl
subset-later (x ∷ xs) ys y h = ground (arith, subset-later xs ys y)
