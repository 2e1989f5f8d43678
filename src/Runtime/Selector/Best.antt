-- ===== src/Runtime/Selector/Best.antt =====
-- The agent that crates/plexis-runtime/src/selector.rs selects is the best of those that may have the task.
use axonel.Prelude.{
  String, Bool, true, false, not, ◌&&◌, ◌||◌, ◌≡◌, refl, ◌⊎◌, inl, inr, Option, none, some, List,
  [], ◌∷◌, Has, arith, Bool-cases, subst, if◌then◌else◌,
}
use axonel.Core.Agent.{Agent}
use axonel.Core.Task.{Task}
use axonel.Runtime.Selector.Candidates.{
  Candidate, Behind, Candidate-of_eligible, is_eligible-Candidate, before-Behind,
}
use axonel.Runtime.Selector.{
  Requirements, ProviderCapabilities, before, insert_sorted, sort_agents, is_eligible, eligible,
  first, select_eligible, select_best_agent_with_matrix, requirements, Metadata,
}

module _ {J : Type 0} (to_lowercase : String → String) (req : Requirements)
    (matrix : List ProviderCapabilities) where
  -- No eligible agent of the list goes before `a`.
  abbrev none_better : Agent J → List (Agent J) → Bool
  none_better a [] = true
  none_better a (b ∷ rest) =
      (not (is_eligible req matrix b) || not (before to_lowercase req b a)) && none_better a rest

  abbrev none_eligible : List (Agent J) → Bool
  none_eligible [] = true
  none_eligible (b ∷ rest) = not (is_eligible req matrix b) && none_eligible rest

  before_step :
      (a b c : Agent J)
      → before to_lowercase req b a ≡ false
      → before to_lowercase req c b ≡ false
      → before to_lowercase req c a ≡ false
  unfolding before
  before_step a b c h k = ground arith

  before_other :
      (a b : Agent J) → before to_lowercase req a b ≡ true → before to_lowercase req b a ≡ false
  unfolding before
  before_other a b h = ground arith

  before_self : (a : Agent J) → before to_lowercase req a a ≡ false
  unfolding before
  before_self a = ground arith

  none_better_step :
      (a b : Agent J) (rest : List (Agent J))
      → before to_lowercase req b a ≡ false
      → none_better b rest ≡ true
      → none_better a rest ≡ true
  none_better_step a b [] h k = refl
  none_better_step a b (c ∷ rest) h k = ground (arith, before_step a b c, none_better_step a b rest)

  none_better_vacuous :
      (a : Agent J) (rest : List (Agent J)) → none_eligible rest ≡ true → none_better a rest ≡ true
  none_better_vacuous a [] h = refl
  none_better_vacuous a (c ∷ rest) h = ground (arith, none_better_vacuous a rest)

  -- The first of the sorted, eligible agents.
  abbrev chosen : List (Agent J) → Option (Agent J)
  chosen cs = first (sort_agents to_lowercase req (eligible req matrix cs))

  first-insert :
      (a : Agent J) (xs : List (Agent J))
      → (first (insert_sorted to_lowercase req a xs) ≡ some a) × (first xs ≡ none)
        ⊎ ((b : Agent J) × (first xs ≡ some b)
            × (first (insert_sorted to_lowercase req a xs)
                ≡ some (if before to_lowercase req b a then b else a)))
  unfolding insert_sorted
  first-insert a [] = inl (refl, refl)
  first-insert a (b ∷ rest) = elim (Bool-cases (before to_lowercase req b a)) [
    | inl h ↦ inr (b, refl, rw h refl)
    | inr h ↦ inr (b, refl, rw h refl)
  ]

  select_eligible_is_best :
      (cs : List (Agent J))
      → ((select_eligible to_lowercase req matrix cs ≡ none) × (none_eligible cs ≡ true))
        ⊎ ((a : Agent J) × (select_eligible to_lowercase req matrix cs ≡ some a)
            × Has a cs
            × (is_eligible req matrix a ≡ true)
            × (none_better a cs ≡ true))
  unfolding select_eligible eligible sort_agents
  select_eligible_is_best [] = inl (refl, refl)
  select_eligible_is_best (x ∷ cs) =
      let sorted = sort_agents to_lowercase req (eligible req matrix cs) in
      elim (Bool-cases (is_eligible req matrix x)) [
        | inr refused ↦ elim (select_eligible_is_best cs) [
          | inl (e, k) ↦ inl (rw refused e, rw refused k)
          | inr (a, e, m, k, b) ↦ inr (a, rw refused e, inr m, k, rw refused b)
        ]
        | inl granted ↦ elim (select_eligible_is_best cs) [
          | inl (e, k) ↦ elim (first-insert x sorted) [
            | inr (b, q, p) ↦ absurd (cc (q, e))
            | inl (p, q) ↦ inr (
              x,
              rw granted p,
              inl refl,
              granted,
              ground (arith, granted, before_self x, none_better_vacuous x cs k),
            )
          ]
          | inr (a, e, m, k, b) ↦ elim (first-insert x sorted) [
            | inl (p, q) ↦ absurd (cc (q, e))
            | inr (c, q, p) ↦
                let same : c ≡ a = cc (q, e) in
                let found : first (insert_sorted to_lowercase req x sorted)
                    ≡ some (if before to_lowercase req a x then a else x) =
                  subst
                    (λ d.
                      first (insert_sorted to_lowercase req x sorted)
                      ≡ some (if before to_lowercase req d x then d else x))
                    same p in
                elim (Bool-cases (before to_lowercase req a x)) [
                  | inl h ↦ inr (
                    a,
                    rw granted (
                        subst
                          (λ d.
                            first (insert_sorted to_lowercase req x sorted)
                            ≡ some (if d then a else x))
                          h found),
                    inr m,
                    k,
                    ground (arith, before_other a x h, b),
                  )
                  | inr h ↦ inr (
                    x,
                    rw granted (
                        subst
                          (λ d.
                            first (insert_sorted to_lowercase req x sorted)
                            ≡ some (if d then a else x))
                          h found),
                    inl refl,
                    granted,
                    ground (arith, before_self x, none_better_step x a cs h b),
                  )
                ]
          ]
        ]
      ]

module _ {J : Type 0} (to_lowercase : String → String) (req : Requirements)
    (matrix : List ProviderCapabilities) where
  abbrev pub NoCandidates : List (Agent J) → Type 0
  NoCandidates [] = Unit {0}
  NoCandidates (b ∷ rest) = (¬ Candidate req matrix b) × NoCandidates rest

  -- No candidate of the list goes before `a`.
  abbrev pub NoneBetter : Agent J → List (Agent J) → Type 0
  NoneBetter a [] = Unit {0}
  NoneBetter a (b ∷ rest) =
      ((¬ Candidate req matrix b) ⊎ Behind to_lowercase req a b) × NoneBetter a rest

  not_allowed : (b : Agent J) → is_eligible req matrix b ≡ false → ¬ Candidate req matrix b
  not_allowed b h c = absurd (cc (is_eligible-Candidate req matrix b c, h))

  none_eligible-NoCandidates :
      (cs : List (Agent J)) → none_eligible to_lowercase req matrix cs ≡ true → NoCandidates cs
  none_eligible-NoCandidates [] h = tt
  none_eligible-NoCandidates (b ∷ rest) h =
      (not_allowed b (ground arith), none_eligible-NoCandidates rest (ground arith))

  none_better-NoneBetter :
      (a : Agent J) (cs : List (Agent J))
      → none_better to_lowercase req matrix a cs ≡ true
      → NoneBetter a cs
  none_better-NoneBetter a [] h = tt
  none_better-NoneBetter a (b ∷ rest) h =
      let later = none_better-NoneBetter a rest (ground arith) in
      elim (Bool-cases (is_eligible req matrix b)) [
        | inl e ↦ (inr (before-Behind to_lowercase req a b (ground arith)), later)
        | inr e ↦ (inl (not_allowed b e), later)
      ]

-- The selection for a task finds no agent exactly when none is a candidate for what the task's metadata ask,
-- that is idle, without an execution, with the capabilities, and with a model that suits;
-- otherwise it finds a candidate of the list, such that no candidate has a higher score, or the same score
-- and a smaller identifier.
pub select_best_agent_is_best :
    {J : Type 0} (json : Metadata J) (to_lowercase : String → String)
    (matrix : List ProviderCapabilities) (t : Task J) (cs : List (Agent J))
    → let req = requirements json to_lowercase t in
      let chosen = select_best_agent_with_matrix json to_lowercase matrix t cs in
      ((chosen ≡ none) × NoCandidates to_lowercase req matrix cs)
      ⊎ ((a : Agent J) × (chosen ≡ some a)
          × Has a cs
          × Candidate req matrix a
          × NoneBetter to_lowercase req matrix a cs)
unfolding select_best_agent_with_matrix
select_best_agent_is_best json to_lowercase matrix t cs =
    let req = requirements json to_lowercase t in
    elim (select_eligible_is_best to_lowercase req matrix cs) [
      | inl (e, k) ↦ inl (e, none_eligible-NoCandidates to_lowercase req matrix cs k)
      | inr (a, e, m, k, b) ↦ inr (
        a,
        e,
        m,
        Candidate-of_eligible req matrix a k,
        none_better-NoneBetter to_lowercase req matrix a cs b,
      )
    ]
