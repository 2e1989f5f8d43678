-- ===== src/Core/Graph/Links.antt =====
-- What the operations of `TaskGraph` do to the links of each task, and that a graph stays
-- consistent under them.
use axonel.Prelude.{◌≡◌, refl, Bool, true, List, [], not, ◌==◌, ◌&&◌, ◌||◌, if◌then◌else◌, arith}
use axonel.Prelude.Map
use axonel.Prelude.Map.{
  Map, get, keys, get-insert, get-remove, contains-keys, contains-keys-insert, distinct-keys-insert,
}
use axonel.Prelude.Sets
use axonel.Prelude.Sets.{
  contains, distinct, contains-insert, contains-remove, distinct-insert, distinct-remove,
}
use axonel.Core.Ids.{TaskId}
use axonel.Core.Task.{Task}
use axonel.Core.Graph.Base.{
  TaskGraph, IsConsistent, or_empty, contains_task, direct_dependencies, direct_dependents,
}
use axonel.Core.Graph.Edit.{
  entry_default, entry_edit, edit_present, add_task, link, unlink, remove_dependency,
}

or_empty-default :
    (k : TaskId) (m : Map (List TaskId)) (a : TaskId)
    → or_empty (get (entry_default k m) a) ≡ or_empty (get m a)
unfolding entry_default
or_empty-default k m a = ground (arith, get-insert k [] m a)

or_empty-edit :
    (k : TaskId) (edit : List TaskId → List TaskId) (m : Map (List TaskId)) (a : TaskId)
    → or_empty (get (entry_edit k edit m) a)
      ≡ (if k == a then edit (or_empty (get m a)) else or_empty (get m a))
unfolding entry_edit
or_empty-edit k edit m a = ground (arith, get-insert k (edit (or_empty (get m k))) m a)

pub or_empty-remove_present :
    (k x : TaskId) (m : Map (List TaskId)) (a : TaskId)
    → or_empty (get (edit_present k (Sets.remove x) m) a)
      ≡ (if k == a then Sets.remove x (or_empty (get m a)) else or_empty (get m a))
unfolding edit_present Sets.remove
or_empty-remove_present k x m a =
    ground (arith, get-insert k (Sets.remove x (or_empty (get m k))) m a)

module _ {J : Type 0} where
  -- `a` waits for `b`.
  abbrev pub waits : TaskGraph J → TaskId → TaskId → Bool
  waits g a b = contains (direct_dependencies g a) b

  -- `h` is `g` with the link from `t` to `d`.
  pub record IsLinked (t d : TaskId) (g h : TaskGraph J) : Type 0 where
    pub tasks : h.tasks ≡ g.tasks
    pub upstream :
        (a : TaskId)
        → direct_dependencies h a
          ≡ (if t == a then Sets.insert d (direct_dependencies g a) else direct_dependencies g a)
    pub downstream :
        (a : TaskId)
        → direct_dependents h a
          ≡ (if d == a then Sets.insert t (direct_dependents g a) else direct_dependents g a)

  -- `h` is `g` without it.
  pub record IsUnlinked (t d : TaskId) (g h : TaskGraph J) : Type 0 where
    pub tasks : h.tasks ≡ g.tasks
    pub upstream :
        (a : TaskId)
        → direct_dependencies h a
          ≡ (if t == a then Sets.remove d (direct_dependencies g a) else direct_dependencies g a)
    pub downstream :
        (a : TaskId)
        → direct_dependents h a
          ≡ (if d == a then Sets.remove t (direct_dependents g a) else direct_dependents g a)

  pub link-IsLinked : (t d : TaskId) (g : TaskGraph J) → IsLinked t d g (link t d g)
  unfolding link direct_dependencies direct_dependents
  link-IsLinked t d g = record {
    tasks = refl;
    upstream = or_empty-edit t (Sets.insert d) g.dependencies;
    downstream = or_empty-edit d (Sets.insert t) g.dependents;
  }

  pub unlink-IsUnlinked : (t d : TaskId) (g : TaskGraph J) → IsUnlinked t d g (unlink t d g)
  unfolding unlink direct_dependencies direct_dependents
  unlink-IsUnlinked t d g = record {
    tasks = refl;
    upstream = or_empty-edit t (Sets.remove d) g.dependencies;
    downstream = or_empty-edit d (Sets.remove t) g.dependents;
  }

  pub remove_dependency-IsUnlinked :
      (t d : TaskId) (g : TaskGraph J)
      → contains_task g t ≡ true
      → contains_task g d ≡ true
      → IsUnlinked t d g (remove_dependency t d g).0
  unfolding remove_dependency direct_dependencies direct_dependents contains_task
  remove_dependency-IsUnlinked t d g kt kd =
      rw (kt, kd)
        (record {
          tasks = refl;
          upstream = or_empty-remove_present t d g.dependencies;
          downstream = or_empty-remove_present d t g.dependents;
        })

  module _ (t d : TaskId) {g h : TaskGraph J} where
    pub waits-IsLinked :
        IsLinked t d g h → (a b : TaskId) → waits h a b ≡ (waits g a b || (t == a && d == b))
    waits-IsLinked l a b =
        ground (arith, l.upstream a, contains-insert d (direct_dependencies g a) b)

    pub waits-IsUnlinked :
        IsUnlinked t d g h → (a b : TaskId) → waits h a b ≡ (waits g a b && not (t == a && d == b))
    waits-IsUnlinked l a b =
        ground (arith, l.upstream a, contains-remove d (direct_dependencies g a) b)

    pub IsLinked-IsConsistent :
        IsLinked t d g h
        → IsConsistent g
        → contains (keys g.tasks) t ≡ true
        → contains (keys g.tasks) d ≡ true
        → IsConsistent h
    IsLinked-IsConsistent l fine kt kd = record {
      keys_distinct = rw l.tasks fine.keys_distinct;
      named = rw l.tasks fine.named;
      dependencies_distinct = λ a. ground (
        arith,
        l.upstream a,
        fine.dependencies_distinct a,
        distinct-insert d (direct_dependencies g a),
      );
      dependents_distinct = λ a. ground (
        arith,
        l.downstream a,
        fine.dependents_distinct a,
        distinct-insert t (direct_dependents g a),
      );
      mirrored = λ a b. ground (
        arith,
        l.downstream b,
        waits-IsLinked l a b,
        fine.mirrored a b,
        contains-insert t (direct_dependents g b) a,
      );
      waiting_known =
          λ a b w. rw l.tasks (ground (arith, waits-IsLinked l a b, fine.waiting_known a b));
      awaited_known =
          λ a b w. rw l.tasks (ground (arith, waits-IsLinked l a b, fine.awaited_known a b));
    }

    pub IsUnlinked-IsConsistent : IsUnlinked t d g h → IsConsistent g → IsConsistent h
    IsUnlinked-IsConsistent l fine = record {
      keys_distinct = rw l.tasks fine.keys_distinct;
      named = rw l.tasks fine.named;
      dependencies_distinct = λ a. ground (
        arith,
        l.upstream a,
        fine.dependencies_distinct a,
        distinct-remove d (direct_dependencies g a),
      );
      dependents_distinct = λ a. ground (
        arith,
        l.downstream a,
        fine.dependents_distinct a,
        distinct-remove t (direct_dependents g a),
      );
      mirrored = λ a b. ground (
        arith,
        l.downstream b,
        waits-IsUnlinked l a b,
        fine.mirrored a b,
        contains-remove t (direct_dependents g b) a,
      );
      waiting_known =
          λ a b w. rw l.tasks (ground (arith, waits-IsUnlinked l a b, fine.waiting_known a b));
      awaited_known =
          λ a b w. rw l.tasks (ground (arith, waits-IsUnlinked l a b, fine.awaited_known a b));
    }

  -- `add_task` leaves the links as they are.
  upstream-add_task :
      (t : Task J) (g : TaskGraph J) (a : TaskId)
      → direct_dependencies (add_task t g) a ≡ direct_dependencies g a
  unfolding direct_dependencies add_task
  upstream-add_task t g a = or_empty-default t.id g.dependencies a

  downstream-add_task :
      (t : Task J) (g : TaskGraph J) (a : TaskId)
      → direct_dependents (add_task t g) a ≡ direct_dependents g a
  unfolding direct_dependents add_task
  downstream-add_task t g a = or_empty-default t.id g.dependents a

  pub waits-add_task :
      (t : Task J) (g : TaskGraph J) (a b : TaskId) → waits (add_task t g) a b ≡ waits g a b
  waits-add_task t g a b = rw upstream-add_task

  tasks-add_task : (t : Task J) (g : TaskGraph J) → (add_task t g).tasks ≡ Map.insert t.id t g.tasks
  unfolding add_task
  tasks-add_task t g = refl

  pub add_task-IsConsistent :
      (t : Task J) (g : TaskGraph J) → IsConsistent g → IsConsistent (add_task t g)
  add_task-IsConsistent t g fine = record {
    keys_distinct = rw tasks-add_task (distinct-keys-insert t.id t g.tasks fine.keys_distinct);
    named = rw tasks-add_task λ k s e. ground (arith, get-insert t.id t g.tasks k, fine.named k s);
    dependencies_distinct = λ a. rw upstream-add_task (fine.dependencies_distinct a);
    dependents_distinct = λ a. rw downstream-add_task (fine.dependents_distinct a);
    mirrored = λ a b. rw (upstream-add_task, downstream-add_task) (fine.mirrored a b);
    waiting_known = λ a b w.
        rw (tasks-add_task, contains-keys-insert)
          (ground (arith, waits-add_task t g a b, fine.waiting_known a b));
    awaited_known = λ a b w.
        rw (tasks-add_task, contains-keys-insert)
          (ground (arith, waits-add_task t g a b, fine.awaited_known a b));
  }
