-- ===== src/Prelude/Map.antt =====
-- `HashMap` with identifiers for keys, as an association list. The order of iteration, which the
-- map leaves open, is the list's; theorems hold for every list with these entries.
use Prim.Native.Nat.{ℕ}
use mathlib.Core.Path.{◌≡◌, refl}
use mathlib.Core.Bool.{true}
use mathlib.Core.Option.{Option, none, some}
use mathlib.Core.List.{List, [], ◌∷◌}
use native.Mathlib.Omega.{arith}
use axonel.Prelude.Tests.{◌==◌, if◌then◌else◌, is_some}
use axonel.Prelude.Sets.{contains, distinct}

abbrev pub Map : Type 0 → Type 0
Map V = List (ℕ × V)

module _ {V : Type 0} where
  unfoldable pub get : Map V → ℕ → Option V
  get [] k = none
  get ((j, v) ∷ m) k = if j == k then some v else get m k

  unfoldable pub insert : ℕ → V → Map V → Map V
  insert k v [] = (k, v) ∷ []
  insert k v ((j, w) ∷ m) = if j == k then (k, v) ∷ m else (j, w) ∷ insert k v m

  unfoldable pub remove : ℕ → Map V → Map V
  remove k [] = []
  remove k ((j, v) ∷ m) = let rest = remove k m in if j == k then rest else (j, v) ∷ rest

  abbrev pub keys : Map V → List ℕ
  keys [] = []
  keys ((j, v) ∷ m) = j ∷ keys m

  pub get-insert :
      (k : ℕ) (v : V) (m : Map V) (j : ℕ)
      → get (insert k v m) j ≡ (if k == j then some v else get m j)
  unfolding get insert
  get-insert k v [] j = refl
  get-insert k v ((i, w) ∷ m) j = ground (arith, get-insert k v m j)

  pub get-remove :
      (k : ℕ) (m : Map V) (j : ℕ) → get (remove k m) j ≡ (if k == j then none else get m j)
  unfolding get remove
  get-remove k [] j = ground arith
  get-remove k ((i, w) ∷ m) j = ground (arith, get-remove k m j)

  pub contains-keys : (m : Map V) (k : ℕ) → contains (keys m) k ≡ is_some (get m k)
  unfolding get
  contains-keys [] k = refl
  contains-keys ((j, v) ∷ m) k = ground (arith, contains-keys m k)

  pub contains-keys-insert :
      (k : ℕ) (v : V) (m : Map V) (j : ℕ)
      → contains (keys (insert k v m)) j ≡ (if k == j then true else contains (keys m) j)
  contains-keys-insert k v m j =
      ground (arith, contains-keys (insert k v m) j, contains-keys m j, get-insert k v m j)

  pub distinct-keys-insert :
      (k : ℕ) (v : V) (m : Map V) → distinct (keys m) ≡ true → distinct (keys (insert k v m)) ≡ true
  unfolding insert
  distinct-keys-insert k v [] d = refl
  distinct-keys-insert k v ((j, w) ∷ m) d =
      ground (arith, distinct-keys-insert k v m, contains-keys-insert k v m j)

  pub distinct-keys-remove :
      (k : ℕ) (m : Map V) → distinct (keys m) ≡ true → distinct (keys (remove k m)) ≡ true
  unfolding remove
  distinct-keys-remove k [] d = refl
  distinct-keys-remove k ((j, w) ∷ m) d = ground (
    arith,
    distinct-keys-remove k m,
    contains-keys (remove k m) j,
    contains-keys m j,
    get-remove k m j,
  )
