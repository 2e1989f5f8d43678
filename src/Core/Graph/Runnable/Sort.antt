-- ===== src/Core/Graph/Runnable/Sort.antt =====
-- The sort of `find_runnable_tasks` (crates/plexis-core/src/graph.rs): its result is in order and
-- has the same identifiers.
use axonel.Prelude.{◌≡◌, refl, Bool, true, false, not, List, [], ◌∷◌, map, ◌==◌, ◌&&◌, ◌||◌, arith}
use axonel.Prelude.Sets.{contains, distinct}
use axonel.Core.Ids.{TaskId}
use axonel.Core.Task.{Task}
use axonel.Core.Graph.Runnable.{before, insert_sorted, sort_tasks, id_of}

module _ {J : Type 0} where
  -- No task of the list comes before `a`.
  abbrev pub none_before : Task J → List (Task J) → Bool
  none_before a [] = true
  none_before a (b ∷ rest) = not (before b a) && none_before a rest

  -- No task of the list comes before one that stands in front of it.
  abbrev pub in_order : List (Task J) → Bool
  in_order [] = true
  in_order (a ∷ rest) = none_before a rest && in_order rest

  before_trans : (a b c : Task J) → before b a ≡ false → before c b ≡ false → before c a ≡ false
  unfolding before
  before_trans a b c h k = ground arith

  before_asym : (a b : Task J) → before a b ≡ true → before b a ≡ false
  unfolding before
  before_asym a b h = ground arith

  none_before_trans :
      (a b : Task J) (rest : List (Task J))
      → before b a ≡ false
      → none_before b rest ≡ true
      → none_before a rest ≡ true
  none_before_trans a b [] h k = refl
  none_before_trans a b (c ∷ rest) h k =
      ground (arith, before_trans a b c, none_before_trans a b rest)

  none_before-insert :
      (c a : Task J) (rest : List (Task J))
      → none_before c (insert_sorted a rest) ≡ (not (before a c) && none_before c rest)
  unfolding insert_sorted
  none_before-insert c a [] = refl
  none_before-insert c a (b ∷ rest) = ground (arith, none_before-insert c a rest)

  in_order-insert :
      (a : Task J) (rest : List (Task J))
      → in_order rest ≡ true
      → in_order (insert_sorted a rest) ≡ true
  unfolding insert_sorted
  in_order-insert a [] h = refl
  in_order-insert a (b ∷ rest) h = ground (
    arith,
    in_order-insert a rest,
    none_before-insert b a rest,
    before_asym b a,
    none_before_trans a b rest,
  )

  pub in_order-sort : (ts : List (Task J)) → in_order (sort_tasks ts) ≡ true
  unfolding sort_tasks
  in_order-sort [] = refl
  in_order-sort (a ∷ rest) = in_order-insert a (sort_tasks rest) (in_order-sort rest)

  contains-insert :
      (a : Task J) (rest : List (Task J)) (x : TaskId)
      → contains (map id_of (insert_sorted a rest)) x ≡ (a.id == x || contains (map id_of rest) x)
  unfolding insert_sorted
  contains-insert a [] x = refl
  contains-insert a (b ∷ rest) x = ground (arith, contains-insert a rest x)

  distinct-insert :
      (a : Task J) (rest : List (Task J))
      → distinct (map id_of (insert_sorted a rest))
        ≡ (not (contains (map id_of rest) a.id) && distinct (map id_of rest))
  unfolding insert_sorted
  distinct-insert a [] = refl
  distinct-insert a (b ∷ rest) = ground (arith, distinct-insert a rest, contains-insert a rest b.id)

  pub contains-sort :
      (ts : List (Task J)) (x : TaskId)
      → contains (map id_of (sort_tasks ts)) x ≡ contains (map id_of ts) x
  unfolding sort_tasks
  contains-sort [] x = refl
  contains-sort (a ∷ rest) x =
      ground (arith, contains-insert a (sort_tasks rest) x, contains-sort rest x)

  pub distinct-sort :
      (ts : List (Task J)) → distinct (map id_of (sort_tasks ts)) ≡ distinct (map id_of ts)
  unfolding sort_tasks
  distinct-sort [] = refl
  distinct-sort (a ∷ rest) =
      ground
        (arith, distinct-insert a (sort_tasks rest), distinct-sort rest, contains-sort rest a.id)
