-- ===== src/Core/Graph/Sorted.antt =====
-- `topological_sort` and `validate_acyclic` of crates/plexis-core/src/graph.rs decide whether a
-- consistent graph has a cycle, and the order of the first is one to execute the tasks in.
use mathlib.Core.List.{append-nil}
use axonel.Prelude.{
  ℕ, zero, suc, ◌+◌, ◌<◌, ◌≡◌, ◌↔◌, ◌⊎◌, refl, inl, inr, true, none, List, [], ◌∷◌, ◌++◌, length,
  ◌==◌, if◌then◌else◌, arith, ok, Option-cases, length-append,
}
use axonel.Prelude.Map.{Map, keys}
use axonel.Prelude.Sets.{contains, distinct, contains-append, length-le_of_subset, subset_full}
use axonel.Core.Ids.{TaskId}
use axonel.Core.Graph.Base.{
  TaskGraph, IsConsistent, IsAcyclic, direct_dependencies, direct_dependents, task_count,
}
use axonel.Core.Graph.Kahn.{drain, find_waiting, run, validate_acyclic, topological_sort}
use axonel.Core.Graph.Left.{left, left-nil, left_none, left_none_of}
use axonel.Core.Graph.Drain.{IsOrdered}
use axonel.Core.Graph.Order.{
  snoc, Drained, drain-Drained, get-in_degrees, contains-sources, distinct-sources,
  find_waiting-none,
}

-- The place of `v` in a list.
abbrev place : List TaskId → TaskId → ℕ
place [] v = 0
place (x ∷ xs) v = let rest = place xs v in if x == v then 0 else suc rest

-- The count of `validate_acyclic` is the length of the other's list.
drain_count :
    (dependents : TaskId → List TaskId) (fuel : ℕ) (degrees : Map ℕ) (queue out : List TaskId)
    → let (o, d) = drain dependents snoc fuel degrees queue out in
      drain dependents (λ n _. n + 1) fuel degrees queue (length out) ≡ (length o, d)
unfolding drain
drain_count dependents zero degrees queue out = refl
drain_count dependents (suc fuel) degrees [] out = refl
drain_count dependents (suc fuel) degrees (node ∷ queue) out =
    let e : length out + 1 ≡ length (out ++ node ∷ []) =
      omega (arith, length-append out (node ∷ [])) in
    rw e (drain_count dependents fuel _ _ (out ++ node ∷ []))

module _ {J : Type 0} (g : TaskGraph J) (fine : IsConsistent g) where
  listing : List TaskId × Map ℕ
  listing = run snoc [] g

  listing-Drained : Drained g fine listing
  unfolding listing run task_count
  listing-Drained =
      drain-Drained g fine (suc (task_count g)) _ _ [] (omega arith)
        (record {
          counted = λ v k. ground (
            arith,
            get-in_degrees (direct_dependencies g) g.tasks v k,
            left-nil (direct_dependencies g v),
          );
          queued = λ v k. ground (
            arith,
            contains-sources (direct_dependencies g) g.tasks v,
            left-nil (direct_dependencies g v),
          );
          once = distinct-sources (direct_dependencies g) g.tasks fine.keys_distinct;
          known = λ v m. ground (arith, contains-sources (direct_dependencies g) g.tasks v);
        })
        tt

  listed_known : (v : TaskId) → contains listing.0 v ≡ true → contains (keys g.tasks) v ≡ true
  listed_known v m = listing-Drained.0.known v (rw append-nil m)

  listing_distinct : distinct listing.0 ≡ true
  listing_distinct = rw append-nil at listing-Drained.0.once

  -- A known task all of whose dependencies are listed is listed.
  listed_of :
      (v : TaskId)
      → contains (keys g.tasks) v ≡ true
      → ((w : TaskId) → contains (direct_dependencies g v) w ≡ true → contains listing.0 w ≡ true)
      → contains listing.0 v ≡ true
  listed_of v k h =
      let q : contains listing.0 v ≡ (left listing.0 (direct_dependencies g v) + 0 == 0) =
        rw append-nil at (listing-Drained.0.queued v k) in
      ground (arith, q, left_none_of listing.0 (direct_dependencies g v) h)

  -- By induction on the rank, every task of a graph without cycles is listed.
  listed_of_rank :
      (acyclic : IsAcyclic g) (n : ℕ) (v : TaskId)
      → acyclic.0 v < n
      → contains (keys g.tasks) v ≡ true
      → contains listing.0 v ≡ true
  listed_of_rank acyclic zero v lt k = absurd (omega arith)
  listed_of_rank acyclic (suc n) v lt k = listed_of v k (λ w m.
      listed_of_rank acyclic n w (omega (arith, acyclic.1 v w m)) (fine.awaited_known v w m))

  full_of_listed :
      ((v : TaskId) → contains (keys g.tasks) v ≡ true → contains listing.0 v ≡ true)
      → length listing.0 ≡ task_count g
  unfolding task_count
  full_of_listed all = omega (
    arith,
    length-le_of_subset listing.0 (keys g.tasks) listing_distinct listed_known,
    length-le_of_subset (keys g.tasks) listing.0 fine.keys_distinct all,
  )

  listing_full : IsAcyclic g → length listing.0 ≡ task_count g
  listing_full acyclic =
      full_of_listed (λ v. listed_of_rank acyclic (suc (acyclic.0 v)) v (omega arith))

  place_lt :
      (seen rest : List TaskId) (v w : TaskId)
      → IsOrdered g seen rest
      → contains rest v ≡ true
      → contains (direct_dependencies g v) w ≡ true
      → (contains seen w ≡ true) ⊎ (place rest w < place rest v)
  place_lt seen [] v w o m d = cc
  place_lt seen (x ∷ rest) v w o m d =
      ground (arith, o.0 w, place_lt (seen ++ x ∷ []) rest v w o.1, contains-append seen (x ∷ []) w)

  full_listed :
      length listing.0 ≡ task_count g
      → (v : TaskId) → contains (keys g.tasks) v ≡ true
      → contains listing.0 v ≡ true
  unfolding task_count
  full_listed full = subset_full listing.0 (keys g.tasks) listing_distinct listed_known full

  IsAcyclic-of_full : length listing.0 ≡ task_count g → IsAcyclic g
  IsAcyclic-of_full full = (
    place listing.0,
    λ a b d.
        elim (place_lt [] listing.0 a b listing-Drained.1
          (full_listed full a (fine.waiting_known a b d)) d) [ inl x ↦ cc | inr lt ↦ lt ],
  )

  -- On a consistent graph `topological_sort` returns a list exactly if no task waits for itself
  -- through any chain.
  pub topological_sort_iff :
      (default : TaskId)
      → ((order : List TaskId) × (topological_sort default g ≡ ok order)) ↔ IsAcyclic g
  unfolding topological_sort listing
  topological_sort_iff default = (
    λ p. IsAcyclic-of_full (ground (arith, p.1)),
    λ acyclic. (listing.0, ground (arith, listing_full acyclic)),
  )

  -- A list that `topological_sort` returns on a consistent graph has every task of the graph once
  -- and nothing else, and each task stands behind all that it waits for.
  pub topological_sort_sound :
      (default : TaskId) (order : List TaskId)
      → topological_sort default g ≡ ok order
      → (distinct order ≡ true)
        × ((v : TaskId) → contains order v ≡ contains (keys g.tasks) v)
        × IsOrdered g [] order
  unfolding topological_sort listing
  topological_sort_sound default order h =
      let same : listing.0 ≡ order = ground (arith, h) in
      let full : length listing.0 ≡ task_count g = ground (arith, h) in
      rw (← same) (
        listing_distinct,
        λ v. ground (arith, listed_known v, full_listed full v),
        listing-Drained.1,
      )

  counting : run (λ n _. n + 1) 0 g ≡ (length listing.0, listing.1)
  unfolding run listing
  counting = drain_count (direct_dependents g) (suc (task_count g)) _ _ []

  full_of_none_waiting : find_waiting listing.1 ≡ none → length listing.0 ≡ task_count g
  full_of_none_waiting f = full_of_listed λ v k. listed_of v k (λ w m.
      left_none listing.0 (direct_dependencies g v) w
        (omega (arith, find_waiting-none listing.1 v _ f (listing-Drained.0.counted v k))) m)

  -- On a consistent graph `validate_acyclic` accepts exactly if no task waits for itself through
  -- any chain.
  pub validate_acyclic_iff : (validate_acyclic g ≡ ok tt) ↔ IsAcyclic g
  unfolding validate_acyclic
  validate_acyclic_iff = (
    λ h. IsAcyclic-of_full (elim (Option-cases (find_waiting listing.1)) [
      | inl f ↦ full_of_none_waiting f
      | inr w ↦ ground (arith, counting, w.1)
    ]),
    λ acyclic. ground (arith, counting, listing_full acyclic),
  )
