-- ===== src/Core/Graph/Removal.antt =====
-- `remove_task` keeps a graph consistent and without cycles.
use axonel.Prelude.{
  ◌≡◌, refl, true, false, not, List, [], ◌∷◌, ◌==◌, ◌&&◌, if◌then◌else◌, arith, inl, inr,
  Bool-cases,
}
use axonel.Prelude.Map
use axonel.Prelude.Map.{Map, get, keys, get-remove, contains-keys, distinct-keys-remove}
use axonel.Prelude.Sets
use axonel.Prelude.Sets.{contains, distinct, contains-remove, distinct-remove}
use axonel.Core.Ids.{TaskId}
use axonel.Core.Graph.Base.{
  TaskGraph, IsConsistent, or_empty, direct_dependencies, direct_dependents,
}
use axonel.Core.Graph.Edit.{forget_in, edit_present, remove_task, is_empty}
use axonel.Core.Graph.Links.{waits, or_empty-remove_present}
use axonel.Core.Graph.Safety.{IsSound, IsAcyclic-of_fewer}

contains-forget_in :
    (t : TaskId) (deps : List TaskId) (m : Map (List TaskId)) (a b : TaskId)
    → contains (or_empty (get (forget_in t deps m) a)) b
      ≡ (contains (or_empty (get m a)) b && not (contains deps a && t == b))
unfolding forget_in
contains-forget_in t [] m a b = ground arith
contains-forget_in t (d ∷ deps) m a b = ground (
  arith,
  contains-forget_in t deps (edit_present d (Sets.remove t) m) a b,
  or_empty-remove_present d t m a,
  contains-remove t (or_empty (get m a)) b,
)

distinct-forget_in :
    (t : TaskId) (deps : List TaskId) (m : Map (List TaskId)) (a : TaskId)
    → distinct (or_empty (get m a)) ≡ true
    → distinct (or_empty (get (forget_in t deps m) a)) ≡ true
unfolding forget_in
distinct-forget_in t [] m a h = h
distinct-forget_in t (d ∷ deps) m a h =
    distinct-forget_in t deps (edit_present d (Sets.remove t) m) a
      (ground (arith, or_empty-remove_present d t m a, distinct-remove t (or_empty (get m a))))

no_elements : (s : List TaskId) → is_empty s ≡ true → (x : TaskId) → contains s x ≡ false
no_elements [] h x = refl
no_elements (y ∷ s) h x = cc

module _ {J : Type 0} (t : TaskId) (g : TaskGraph J) where
  -- The graph that is left where no task waits for `t`.
  without : TaskGraph J
  without = record {
    tasks = Map.remove t g.tasks;
    dependencies = Map.remove t g.dependencies;
    dependents = Map.remove t (forget_in t (direct_dependencies g t) g.dependents);
  }

  upstream-without :
      (a : TaskId)
      → direct_dependencies without a ≡ (if t == a then [] else direct_dependencies g a)
  unfolding without direct_dependencies
  upstream-without a = ground (arith, get-remove t g.dependencies a)

  downstream-without :
      (a : TaskId)
      → direct_dependents without a ≡ (
          if t == a
          then []
          else or_empty (get (forget_in t (direct_dependencies g t) g.dependents) a))
  unfolding without direct_dependents
  downstream-without a =
      ground (arith, get-remove t (forget_in t (direct_dependencies g t) g.dependents) a)

  contains-downstream :
      (a b : TaskId)
      → contains (or_empty (get (forget_in t (direct_dependencies g t) g.dependents) a)) b ≡ (
          contains (direct_dependents g a) b
          && not (contains (direct_dependencies g t) a && t == b))
  unfolding direct_dependents
  contains-downstream a b = contains-forget_in t (direct_dependencies g t) g.dependents a b

  distinct-downstream :
      (a : TaskId)
      → distinct (direct_dependents g a) ≡ true
      → distinct (or_empty (get (forget_in t (direct_dependencies g t) g.dependents) a)) ≡ true
  unfolding direct_dependents
  distinct-downstream a = distinct-forget_in t (direct_dependencies g t) g.dependents a

  tasks-without : without.tasks ≡ Map.remove t g.tasks
  unfolding without
  tasks-without = refl

  contains-keys_without :
      (a : TaskId) → contains (keys without.tasks) a ≡ (not (t == a) && contains (keys g.tasks) a)
  contains-keys_without a = rw tasks-without (
      ground (
        arith,
        contains-keys (Map.remove t g.tasks) a,
        contains-keys g.tasks a,
        get-remove t g.tasks a,
      ))

  module _ (fine : IsConsistent g)
      (unneeded : (x : TaskId) → contains (direct_dependents g t) x ≡ false) where
    -- No edge leads to `t`.
    unawaited : (a : TaskId) → waits g a t ≡ false
    unawaited a = ground (arith, fine.mirrored a t, unneeded a)

    waits-without : (a b : TaskId) → waits without a b ≡ (not (t == a) && waits g a b)
    waits-without a b = ground (arith, upstream-without a)

    without-IsConsistent : IsConsistent without
    without-IsConsistent = record {
      keys_distinct = rw tasks-without (distinct-keys-remove t g.tasks fine.keys_distinct);
      named = rw tasks-without λ k s e. ground (arith, get-remove t g.tasks k, fine.named k s);
      dependencies_distinct = λ a. ground (arith, upstream-without a, fine.dependencies_distinct a);
      dependents_distinct = λ a.
          ground (arith, downstream-without a, distinct-downstream a (fine.dependents_distinct a));
      mirrored = λ a b. ground (
        arith,
        waits-without a b,
        downstream-without b,
        contains-downstream b a,
        fine.mirrored a b,
        fine.mirrored a t,
        unneeded a,
      );
      waiting_known = λ a b w.
          ground (arith, waits-without a b, contains-keys_without a, fine.waiting_known a b);
      awaited_known = λ a b w.
          ground (
            arith,
            waits-without a b,
            contains-keys_without b,
            fine.awaited_known a b,
            unawaited a,
          );
    }

    without-IsSound : IsSound g → IsSound without
    without-IsSound sound = record {
      fine = without-IsConsistent;
      acyclic =
          IsAcyclic-of_fewer g without (λ a b w. ground (arith, waits-without a b)) sound.acyclic;
    }

  -- `remove_task` keeps a graph consistent and without cycles, whether it removes the task or
  -- refuses to.
  pub remove_task-IsSound : IsSound g → IsSound (remove_task t g).0
  unfolding remove_task without direct_dependencies direct_dependents
  remove_task-IsSound sound = elim (Bool-cases (is_empty (or_empty (get g.dependents t)))) [
    | inl e ↦ rw e (without-IsSound sound.fine (no_elements _ e) sound)
    | inr n ↦ rw n sound
  ]
