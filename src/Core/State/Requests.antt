-- ===== src/Core/State/Requests.antt =====
-- Runs of a lifecycle: a caller asks for one state after another, and refused requests change
-- nothing. `step s r` is the state that `transition_to` leaves.
use axonel.Prelude.{Bool, true, false, ◌≡◌, refl, ◌⊎◌, inl, inr, List, [], ◌∷◌, Has}

module _ {S : Type 0} (step : S → S → S) where
  unfoldable pub requests : S → List S → S
  requests s [] = s
  requests s (r ∷ rs) = requests (step s r) rs

  -- A state that no request leaves is kept by every run.
  pub requests_stay : (s : S) → ((r : S) → step s r ≡ s) → (rs : List S) → requests s rs ≡ s
  unfolding requests
  requests_stay s stay [] = refl
  requests_stay s stay (r ∷ rs) = rw (stay r) (requests_stay s stay rs)

  -- A set of states that only a request in `Gate` leaves: a run that ends outside made such one.
  pub requests_gate :
      (before : S → Bool) (Gate : S → Type 0)
      → ((s r : S) → before s ≡ true → Gate r ⊎ (before (step s r) ≡ true))
      → (s : S) (rs : List S) → before s ≡ true
      → before (requests s rs) ≡ false
      → (g : S) × Gate g × Has g rs
  unfolding requests
  requests_gate before Gate keep s [] b e = cc
  requests_gate before Gate keep s (r ∷ rs) b e = elim (keep s r b) [
    | inl g ↦ (r, g, inl refl)
    | inr k ↦
        let (g, is_gate, m) = requests_gate before Gate keep (step s r) rs k e in
        (g, is_gate, inr m)
  ]

  -- A set of states that no request leaves.
  pub requests_closed :
      (inside : S → Bool)
      → ((s r : S) → inside s ≡ true → inside (step s r) ≡ true)
      → (s : S) (rs : List S) → inside s ≡ true
      → inside (requests s rs) ≡ true
  unfolding requests
  requests_closed inside keep s [] h = h
  requests_closed inside keep s (r ∷ rs) h = requests_closed inside keep (step s r) rs (keep s r h)
