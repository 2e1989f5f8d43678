-- ===== src/Core/Graph/Safety.antt =====
-- The edges that `TaskGraph` accepts: a consistent graph without cycles stays so.
use axonel.Prelude.{
  ◌∙◌, ◌≡◌, ◌⊎◌, refl, inl, inr, true, false, ◌==◌, ◌&&◌, ◌||◌, arith, ok, err, Bool-cases, Result,
  Result-cases,
}
use axonel.Prelude.Map.{keys, contains-keys}
use axonel.Prelude.Sets.{contains}
use axonel.Core.Ids.{TaskId}
use axonel.Core.Graph.Base.{TaskGraph, GraphError, IsConsistent, IsAcyclic, contains_task}
use axonel.Core.Graph.Kahn.{validate_acyclic}
use axonel.Core.Graph.Sorted.{validate_acyclic_iff}
use axonel.Core.Graph.Edit.{link, unlink, add_dependency}
use axonel.Core.Graph.Links.{
  waits, link-IsLinked, unlink-IsUnlinked, waits-IsLinked, waits-IsUnlinked, IsLinked-IsConsistent,
  IsUnlinked-IsConsistent,
}

module _ {J : Type 0} where
  -- What every operation keeps.
  pub record IsSound (g : TaskGraph J) : Type 0 where
    pub fine : IsConsistent g
    pub acyclic : IsAcyclic g

  pub IsAcyclic-of_fewer :
      (g h : TaskGraph J)
      → ((a b : TaskId) → waits h a b ≡ true → waits g a b ≡ true)
      → IsAcyclic g
      → IsAcyclic h
  IsAcyclic-of_fewer g h fewer r = (r.0, λ a b w. r.1 a b (fewer a b w))

  known_of :
      (g : TaskGraph J) (t : TaskId) → contains_task g t ≡ true → contains (keys g.tasks) t ≡ true
  unfolding contains_task
  known_of g t k = rw contains-keys k

  -- The edges of `h` are those of `g`.
  abbrev pub SameEdges : TaskGraph J → TaskGraph J → Type 0
  SameEdges g h = (a b : TaskId) → waits h a b ≡ waits g a b

  -- Undoing a link that was not there before.
  undone :
      (g : TaskGraph J) (t d : TaskId) → waits g t d ≡ false → SameEdges g (unlink t d (link t d g))
  undone g t d new a b = ground (
    arith,
    waits-IsUnlinked t d (unlink-IsUnlinked t d (link t d g)) a b,
    waits-IsLinked t d (link-IsLinked t d g) a b,
  )

  -- An edge that a cycle refuses was not there before.
  refused_new :
      (g : TaskGraph J) (t d : TaskId) (e : GraphError)
      → IsSound g
      → IsConsistent (link t d g)
      → validate_acyclic (link t d g) ≡ err e
      → waits g t d ≡ false
  refused_new g t d e sound fine refused = elim (Bool-cases (waits g t d)) [
    | inl old ↦ cc (
      refused,
      (validate_acyclic_iff (link t d g) fine).1 (
          IsAcyclic-of_fewer g (link t d g)
            (λ a b w. ground (arith, waits-IsLinked t d (link-IsLinked t d g) a b)) sound.acyclic),
    )
    | inr new ↦ new
  ]

  -- What a call of `add_dependency` may leave: the edge more, or the same edges and an error.
  pub record Added (t d : TaskId) (g : TaskGraph J) (o : TaskGraph J × Result GraphError (Unit {0}))
      : Type 0 where
    pub sound : IsSound o.0
    pub tasks : o.0.tasks ≡ g.tasks
    pub edges :
        ((o.1 ≡ ok tt) × ((a b : TaskId) → waits o.0 a b ≡ (waits g a b || (t == a && d == b))))
        ⊎ (((e : GraphError) × (o.1 ≡ err e)) × SameEdges g o.0)

  refused_Added :
      (t d : TaskId) (g : TaskGraph J) (e : GraphError) → IsSound g → Added t d g (g, err e)
  refused_Added t d g e sound = record {
    sound = sound;
    tasks = refl;
    edges = inr ((e, refl), λ a b. refl);
  }

  tasks-link : (t d : TaskId) (g : TaskGraph J) → (link t d g).tasks ≡ g.tasks
  tasks-link t d g = (link-IsLinked t d g).tasks

  checked_Added :
      (t d : TaskId) (g : TaskGraph J)
      → IsSound g
      → contains_task g t ≡ true
      → contains_task g d ≡ true
      → Added t d g (elim (validate_acyclic (link t d g)) [
        | ok _ ↦ (link t d g, ok tt)
        | err e ↦ (unlink t d (link t d g), err e)
      ])
  checked_Added t d g sound kt kd =
      let linked = link-IsLinked t d g in
      let fine = IsLinked-IsConsistent t d linked sound.fine (known_of g t kt) (known_of g d kd) in
      elim (Result-cases (validate_acyclic (link t d g))) [
        | inl accepted ↦ rw accepted (record {
          sound = record {
            fine = fine;
            acyclic = (validate_acyclic_iff (link t d g) fine).0 accepted;
          };
          tasks = linked.tasks;
          edges = inl (refl, waits-IsLinked t d linked);
        })
        | inr (e, refused) ↦
            let unlinked = unlink-IsUnlinked t d (link t d g) in
            let same = undone g t d (refused_new g t d e sound fine refused) in
            rw refused (record {
              sound = record {
                fine = IsUnlinked-IsConsistent t d unlinked fine;
                acyclic = IsAcyclic-of_fewer g _ (λ a b w. rw (← same a b) w) sound.acyclic;
              };
              tasks = unlinked.tasks ∙ linked.tasks;
              edges = inr ((e, refl), same);
            })
      ]

  -- On a consistent graph without cycles, `add_dependency` keeps the tasks and leaves a consistent
  -- graph without cycles: with just the edge more where it succeeds, and with the same edges
  -- where it fails.
  pub add_dependency-Added :
      (t d : TaskId) (g : TaskGraph J) → IsSound g → Added t d g (add_dependency t d g)
  unfolding add_dependency
  add_dependency-Added t d g sound = elim (Bool-cases (t == d)) [
    | inl same ↦ rw same (refused_Added t d g _ sound)
    | inr other ↦ elim (Bool-cases (contains_task g t)) [
      | inr unknown ↦ rw (other, unknown) (refused_Added t d g _ sound)
      | inl kt ↦ elim (Bool-cases (contains_task g d)) [
        | inr unknown ↦ rw (other, kt, unknown) (refused_Added t d g _ sound)
        | inl kd ↦ rw (other, kt, kd) (checked_Added t d g sound kt kd)
      ]
    ]
  ]
