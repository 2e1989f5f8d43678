-- ===== src/Prelude/Rows.antt =====
-- Rows of a table with an identifier for a key: `SELECT … WHERE id = ?` and `UPDATE … WHERE id = ?`.
use axonel.Prelude.Tests.{◌==◌, if◌then◌else◌, is_some, Bool-cases}
use axonel.Prelude.Lists.{Has}
use axonel.Prelude.Sets.{contains}
use Prim.Native.Nat.{ℕ}
use mathlib.Core.Path.{◌≡◌, refl, ap, subst}
use mathlib.Core.Bool.{Bool, true, false, ◌&&◌}
use mathlib.Core.Logic.{◌⊎◌, inl, inr, ite}
use mathlib.Core.Option.{Option, none, some}
use mathlib.Core.List.{List, [], ◌∷◌, ◌++◌, map}
use native.Mathlib.Omega.{arith}

abbrev pub changed : {A : Type 0} → (A → A) → Option A → Option A
changed w none = none
changed w (some a) = some (w a)

abbrev pub all_in : {A : Type 0} → (A → Bool) → List A → Bool
all_in test [] = true
all_in test (a ∷ rest) = test a && all_in test rest

pub all_in-of_Has :
    {A : Type 0} (test : A → Bool) (rows : List A)
    → ((a : A) → Has a rows → test a ≡ true)
    → all_in test rows ≡ true
all_in-of_Has test [] h = refl
all_in-of_Has test (a ∷ rest) h =
    ground (arith, h a (inl refl), all_in-of_Has test rest (λ b m. h b (inr m)))

pub Has-of_all_in :
    {A : Type 0} (test : A → Bool) (rows : List A)
    → all_in test rows ≡ true
    → (a : A) → Has a rows
    → test a ≡ true
Has-of_all_in test [] h a m = absurd m
Has-of_all_in test (b ∷ rest) h a (inl e) = ground arith
Has-of_all_in test (b ∷ rest) h a (inr m) = Has-of_all_in test rest (ground arith) a m

pub Has-append : {A : Type 0} (a : A) (xs ys : List A) → Has a xs ⊎ Has a ys → Has a (xs ++ ys)
Has-append a [] ys (inl m) = absurd m
Has-append a [] ys (inr m) = m
Has-append a (x ∷ xs) ys (inl (inl e)) = inl e
Has-append a (x ∷ xs) ys (inl (inr m)) = inr (Has-append a xs ys (inl m))
Has-append a (x ∷ xs) ys (inr m) = inr (Has-append a xs ys (inr m))

-- A filter that keeps what it looks for.
pub Has-kept :
    {P A : Type 0} (d : Dec P) (a x : A) (rest : List A)
    → (a ≡ x) × P ⊎ Has a rest
    → Has a (ite d (x ∷ rest) rest)
Has-kept (yes p) a x rest (inl (e, q)) = inl e
Has-kept (yes p) a x rest (inr m) = inr m
Has-kept (no n) a x rest (inl (e, q)) = absurd (n q)
Has-kept (no n) a x rest (inr m) = m

pub Has-kept_if :
    {A : Type 0} (b : Bool) (a x : A) (rest : List A)
    → (a ≡ x) × (b ≡ true) ⊎ Has a rest
    → Has a (if b then x ∷ rest else rest)
Has-kept_if true a x rest (inl (e, q)) = inl e
Has-kept_if true a x rest (inr m) = inr m
Has-kept_if false a x rest (inl (e, q)) = absurd (ground arith)
Has-kept_if false a x rest (inr m) = m

pub Has-unless :
    {A : Type 0} (b : Bool) (a x : A) (rest : List A)
    → (a ≡ x) × (b ≡ false) ⊎ Has a rest
    → Has a (if b then rest else x ∷ rest)
Has-unless false a x rest (inl (e, q)) = inl e
Has-unless false a x rest (inr m) = inr m
Has-unless true a x rest (inl (e, q)) = absurd (ground arith)
Has-unless true a x rest (inr m) = m

pub Has-of_kept_if :
    {A : Type 0} (b : Bool) (a x : A) (rest : List A)
    → Has a (if b then x ∷ rest else rest)
    → (a ≡ x) ⊎ Has a rest
Has-of_kept_if true a x rest m = m
Has-of_kept_if false a x rest m = inr m

module _ {A : Type 0} (key : A → ℕ) where
  unfoldable pub find_row : ℕ → List A → Option A
  find_row k [] = none
  find_row k (a ∷ rest) = if key a == k then some a else find_row k rest

  -- What `w` makes of the row, on each row with the key.
  unfoldable pub update_row : ℕ → (A → A) → List A → List A
  update_row k w [] = []
  update_row k w (a ∷ rest) =
      let others = update_row k w rest in if key a == k then w a ∷ others else a ∷ others

  pub find_row-key : (k : ℕ) (rows : List A) (a : A) → find_row k rows ≡ some a → key a ≡ k
  unfolding find_row
  find_row-key k [] a h = absurd (ground arith)
  find_row-key k (b ∷ rest) a h = ground (arith, find_row-key k rest a)

  pub find_row-contains :
      (k : ℕ) (rows : List A) → contains (map key rows) k ≡ is_some (find_row k rows)
  unfolding find_row
  find_row-contains k [] = refl
  find_row-contains k (b ∷ rest) = ground (arith, find_row-contains k rest)

  pub Has-find_row : (rows : List A) (a : A) → Has a rows → is_some (find_row (key a) rows) ≡ true
  unfolding find_row
  Has-find_row [] a m = absurd m
  Has-find_row (b ∷ rest) a (inl e) = ground (arith, ap key e)
  Has-find_row (b ∷ rest) a (inr m) = ground (arith, Has-find_row rest a m)

  module _ (w : A → A) (keeps : (a : A) → key (w a) ≡ key a) where
    pub find_row-update_row :
        (k : ℕ) (rows : List A) (j : ℕ)
        → find_row j (update_row k w rows)
          ≡ (if k == j then changed w (find_row j rows) else find_row j rows)
    unfolding find_row update_row
    find_row-update_row k [] j = ground arith
    find_row-update_row k (a ∷ rest) j = ground (arith, keeps a, find_row-update_row k rest j)

    pub map-update_row : (k : ℕ) (rows : List A) → map key (update_row k w rows) ≡ map key rows
    unfolding update_row
    map-update_row k [] = refl
    map-update_row k (a ∷ rest) = ground (arith, keeps a, map-update_row k rest)

  -- Each row of an update is one that it left, or what `w` makes of one with the key.
  pub Has-update_row :
      (k : ℕ) (w : A → A) (rows : List A) (a : A)
      → Has a (update_row k w rows)
      → (Has a rows × ((key a == k) ≡ false)) ⊎ ((b : A) × (a ≡ w b))
  unfolding update_row
  Has-update_row k w [] a m = absurd m
  Has-update_row k w (b ∷ rest) a m = here (key b == k) refl (Has-update_row k w rest a) m
    where
      later :
          (Has a rest × ((key a == k) ≡ false)) ⊎ ((b : A) × (a ≡ w b))
          → (Has a (b ∷ rest) × ((key a == k) ≡ false)) ⊎ ((c : A) × (a ≡ w c))
      later (inl (n, f)) = inl (inr n, f)
      later (inr r) = inr r

      here :
          (x : Bool)
          → (key b == k) ≡ x
          → (Has a (update_row k w rest)
              → (Has a rest × ((key a == k) ≡ false)) ⊎ ((c : A) × (a ≡ w c)))
          → Has a (if x then w b ∷ update_row k w rest else b ∷ update_row k w rest)
          → (Has a (b ∷ rest) × ((key a == k) ≡ false)) ⊎ ((c : A) × (a ≡ w c))
      here true e go (inl q) = inr (b, q)
      here true e go (inr n) = later (go n)
      here false e go (inl q) = inl (inl q, ground (arith, ap key q))
      here false e go (inr n) = later (go n)

  -- A pass over a listing of the rows, which rewrites the row of each one that is bad.
  unfoldable pub sweep : (A → Bool) → (A → A → A) → List A → List A → List A
  unfolding update_row
  sweep bad w [] rows = rows
  sweep bad w (c ∷ cs) rows = sweep bad w cs (if bad c then update_row (key c) (w c) rows else rows)

  module _ (bad live : A → Bool) (w : A → A → A) where
    -- What is live at the end was there at the start, and nothing in the listing with its key was bad.
    pub sweep-spares :
        ((c a : A) → bad c ≡ true → live (w c a) ≡ false)
        → (cs rows : List A) (a : A) → Has a (sweep bad w cs rows)
        → live a ≡ true
        → Has a rows × ((c : A) → Has c cs → key c ≡ key a → bad c ≡ false)
    unfolding sweep
    sweep-spares dead [] rows a m l = (m, λ c n e. absurd n)
    sweep-spares dead (c ∷ cs) rows a m l = elim (Bool-cases (bad c)) [
      | inl b ↦
          let (n, rest) =
            sweep-spares dead cs (update_row (key c) (w c) rows) a
              (subst
                (λ x. Has a (sweep bad w cs (if x then update_row (key c) (w c) rows else rows))) b
                m)
              l in
          elim (Has-update_row (key c) (w c) rows a n) [
            | inl (old, other) ↦ (
              old,
              λ d h e. elim h [ inl q ↦ absurd (ground (arith, ap key q)) | inr h' ↦ rest d h' e ],
            )
            | inr (x, made) ↦ absurd (ground (arith, dead c x b, ap live made))
          ]
      | inr b ↦
          let (n, rest) =
            sweep-spares dead cs rows a
              (subst
                (λ x. Has a (sweep bad w cs (if x then update_row (key c) (w c) rows else rows))) b
                m)
              l in
          (n, λ d h e. elim h [ inl q ↦ ground (arith, ap bad q) | inr h' ↦ rest d h' e ])
    ]
