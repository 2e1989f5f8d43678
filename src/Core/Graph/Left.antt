-- ===== src/Core/Graph/Left.antt =====
-- How many of a task's dependencies are not yet in a list of finished nodes.
use axonel.Prelude.{
  ℕ, suc, ◌+◌, ◌≡◌, refl, Bool, true, false, List, [], ◌∷◌, ◌++◌, length, if◌then◌else◌, arith,
}
use axonel.Prelude.Sets.{contains, distinct, contains-append}

abbrev pub left : List ℕ → List ℕ → ℕ
left out [] = 0
left out (w ∷ ws) = let rest = left out ws in if contains out w then rest else suc rest

abbrev pub bit : Bool → ℕ
bit true = 1
bit false = 0

pub left-nil : (ds : List ℕ) → left [] ds ≡ length ds
left-nil [] = refl
left-nil (w ∷ ds) = ground (arith, left-nil ds)

-- A node more takes one off, if it was waited for.
left-snoc_absent :
    (out : List ℕ) (n : ℕ) (ds : List ℕ)
    → contains ds n ≡ false
    → left (out ++ n ∷ []) ds ≡ left out ds
left-snoc_absent out n [] a = refl
left-snoc_absent out n (w ∷ ds) a =
    ground (arith, left-snoc_absent out n ds, contains-append out (n ∷ []) w)

pub left-snoc :
    (out : List ℕ) (n : ℕ) (ds : List ℕ)
    → distinct ds ≡ true
    → contains out n ≡ false
    → left out ds ≡ left (out ++ n ∷ []) ds + bit (contains ds n)
left-snoc out n [] d a = refl
left-snoc out n (w ∷ ds) d a =
    ground (arith, left-snoc out n ds, left-snoc_absent out n ds, contains-append out (n ∷ []) w)

pub left_none :
    (out ds : List ℕ) (w : ℕ) → left out ds ≡ 0 → contains ds w ≡ true → contains out w ≡ true
left_none out [] w z m = cc
left_none out (x ∷ ds) w z m = ground (arith, left_none out ds w)

pub left_none_of :
    (out ds : List ℕ) → ((w : ℕ) → contains ds w ≡ true → contains out w ≡ true) → left out ds ≡ 0
left_none_of out [] h = refl
left_none_of out (x ∷ ds) h = ground (arith, h x, left_none_of out ds (λ w m. ground (arith, h w)))
