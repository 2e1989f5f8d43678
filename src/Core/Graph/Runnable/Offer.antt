-- ===== src/Core/Graph/Runnable/Offer.antt =====
-- What `find_runnable_tasks` of crates/plexis-core/src/graph.rs offers, and in which order.
use axonel.Prelude.{
  ◌≡◌, ◌↔◌, ◌⊎◌, ◌≤◌, Bool-cases, refl, Bool, true, false, not, Option, none, some, is_some, List,
  [], ◌∷◌, map, ◌&&◌, arith, inl, inr, Option-cases,
}
use axonel.Prelude.Int.{ltb_ℤ}
use axonel.Prelude.Map.{Map, get, keys, contains-keys}
use axonel.Prelude.Sets.{contains, distinct}
use axonel.Core.Ids.{TaskId}
use axonel.Core.State.Task.{is_runnable_candidate}
use axonel.Core.Task.{Task}
use axonel.Core.Graph.Base.{TaskGraph, IsConsistent, direct_dependencies, or_empty}
use axonel.Core.Graph.Runnable.{
  is_verified, all_verified, is_runnable, filter_runnable, id_of, runnable_tasks,
  find_runnable_tasks, before, sort_tasks,
}
use axonel.Core.Graph.Runnable.Sort.{
  none_before, in_order, in_order-sort, contains-sort, distinct-sort,
}

module _ {J : Type 0} where
  all_verified_iff :
      (tasks : Map (Task J)) (deps : List TaskId)
      → (all_verified tasks deps ≡ true)
        ↔ ((d : TaskId) → contains deps d ≡ true → is_verified (get tasks d) ≡ true)
  unfolding all_verified
  all_verified_iff tasks [] = ((λ _ d m. cc), λ _. refl)
  all_verified_iff tasks (x ∷ deps) = (
    (λ h d m. ground (arith, (all_verified_iff tasks deps).0 (ground arith) d)),
    λ h.
        let here = h x (ground arith) in
        let rest = (all_verified_iff tasks deps).1 (λ d m. h d (ground arith)) in ground arith,
  )

  -- What the filter keeps, where the keys of the map are the identifiers of its tasks.
  may_run : TaskGraph J → TaskId → Option (Task J) → Bool
  may_run g id none = false
  may_run g id (some t) = is_runnable g id t

  contains-filter :
      (g : TaskGraph J) (m : Map (Task J)) (x : TaskId)
      → distinct (keys m) ≡ true
      → ((k : TaskId) (t : Task J) → get m k ≡ some t → t.id ≡ k)
      → contains (map id_of (filter_runnable g m)) x ≡ may_run g x (get m x)
  unfolding filter_runnable may_run get
  contains-filter g [] x d named = refl
  contains-filter g ((k, t) ∷ m) x d named =
      let same : t.id ≡ k = named k t (ground arith) in
      let rest =
        contains-filter g m x (ground arith)
          (λ j s e. named j s (ground (arith, contains-keys m k))) in
      ground (arith, contains-keys m k, contains-keys m x)

  distinct-filter :
      (g : TaskGraph J) (m : Map (Task J))
      → distinct (keys m) ≡ true
      → ((k : TaskId) (t : Task J) → get m k ≡ some t → t.id ≡ k)
      → distinct (map id_of (filter_runnable g m)) ≡ true
  unfolding filter_runnable may_run get
  distinct-filter g [] d named = refl
  distinct-filter g ((k, t) ∷ m) d named =
      let same : t.id ≡ k = named k t (ground arith) in
      let inner = λ (j : TaskId) (s : Task J) (e : get m j ≡ some s).
        named j s (ground (arith, contains-keys m k)) in
      let rest = distinct-filter g m (ground arith) inner in
      ground (arith, contains-keys m k, contains-filter g m k (ground arith) inner)

  -- A task that an agent may take: it waits in the backlog or is ready, no agent has it, and all
  -- that it depends on is verified.
  pub record Ready (g : TaskGraph J) (id : TaskId) : Type 0 where
    pub task : Task J
    pub has : get g.tasks id ≡ some task
    pub waiting : is_runnable_candidate task.state ≡ true
    pub free : is_some task.assigned_agent_id ≡ false
    pub unblocked :
        (d : TaskId)
        → contains (direct_dependencies g id) d ≡ true
        → is_verified (get g.tasks d) ≡ true

  some_verified : Map (Task J) → Option (List TaskId) → Bool
  some_verified tasks none = true
  some_verified tasks (some deps) = all_verified tasks deps

  some_verified_iff :
      (tasks : Map (Task J)) (o : Option (List TaskId))
      → (some_verified tasks o ≡ true)
        ↔ ((d : TaskId) → contains (or_empty o) d ≡ true → is_verified (get tasks d) ≡ true)
  unfolding some_verified
  some_verified_iff tasks none = ((λ _ d m. cc), λ _. refl)
  some_verified_iff tasks (some deps) = all_verified_iff tasks deps

  deps_verified : TaskGraph J → TaskId → Bool
  deps_verified g id = some_verified g.tasks (get g.dependencies id)

  deps_verified_iff :
      (g : TaskGraph J) (id : TaskId)
      → (deps_verified g id ≡ true) ↔ (
          (d : TaskId)
          → contains (direct_dependencies g id) d ≡ true
          → is_verified (get g.tasks d) ≡ true)
  unfolding deps_verified direct_dependencies
  deps_verified_iff g id = some_verified_iff g.tasks (get g.dependencies id)

  is_runnable_eq :
      (g : TaskGraph J) (id : TaskId) (t : Task J)
      → is_runnable g id t ≡ (
          is_runnable_candidate t.state
          && (not (is_some t.assigned_agent_id) && deps_verified g id))
  unfolding is_runnable deps_verified some_verified
  is_runnable_eq g id t = ground arith

  Ready-of_may_run :
      (g : TaskGraph J) (id : TaskId) → may_run g id (get g.tasks id) ≡ true → Ready g id
  unfolding may_run
  Ready-of_may_run g id h = elim (Option-cases (get g.tasks id)) [
    | inl e ↦ absurd (ground arith)
    | inr (t, e) ↦ record {
      task = t;
      has = e;
      waiting = ground (arith, is_runnable_eq g id t);
      free = ground (arith, is_runnable_eq g id t);
      unblocked = (deps_verified_iff g id).0 (ground (arith, is_runnable_eq g id t));
    }
  ]

  may_run-of_Ready :
      (g : TaskGraph J) (id : TaskId) → Ready g id → may_run g id (get g.tasks id) ≡ true
  unfolding may_run
  may_run-of_Ready g id r =
      let verified = (deps_verified_iff g id).1 r.unblocked in
      rw r.has (ground (arith, is_runnable_eq g id r.task, r.waiting, r.free, verified))

  -- The task `b` may stand behind `a`: its priority is lower, or the same and it was not created earlier.
  abbrev pub Follows : Task J → Task J → Type 0
  Follows a b =
      (ltb_ℤ b.priority a.priority ≡ true)
      ⊎ ((ltb_ℤ b.priority a.priority ≡ false)
          × (ltb_ℤ a.priority b.priority ≡ false)
          × (a.created_at ≤ b.created_at))

  abbrev pub AllFollow : Task J → List (Task J) → Type 0
  AllFollow a [] = Unit {0}
  AllFollow a (b ∷ rest) = Follows a b × AllFollow a rest

  abbrev pub Ranked : List (Task J) → Type 0
  Ranked [] = Unit {0}
  Ranked (a ∷ rest) = AllFollow a rest × Ranked rest

  before-Follows : (a b : Task J) → before b a ≡ false → Follows a b
  unfolding before
  before-Follows a b h = elim (Bool-cases (ltb_ℤ b.priority a.priority)) [
    | inl lower ↦ inl lower
    | inr e ↦ inr (e, ground arith, ground arith)
  ]

  none_before-AllFollow :
      (a : Task J) (rest : List (Task J)) → none_before a rest ≡ true → AllFollow a rest
  none_before-AllFollow a [] h = tt
  none_before-AllFollow a (b ∷ rest) h =
      (before-Follows a b (ground arith), none_before-AllFollow a rest (ground arith))

  in_order-Ranked : (ts : List (Task J)) → in_order ts ≡ true → Ranked ts
  in_order-Ranked [] h = tt
  in_order-Ranked (a ∷ rest) h =
      (none_before-AllFollow a rest (ground arith), in_order-Ranked rest (ground arith))

  -- What is offered: just the tasks that are ready, each once, by falling priority and, where
  -- priorities agree, rising time of creation.
  pub record Offers (g : TaskGraph J) : Type 0 where
    pub exact : (id : TaskId) → (contains (find_runnable_tasks g) id ≡ true) ↔ Ready g id
    pub once : distinct (find_runnable_tasks g) ≡ true
    pub ordered : Ranked (runnable_tasks g)

  contains-offer :
      (g : TaskGraph J)
      → IsConsistent g
      → (id : TaskId) → contains (find_runnable_tasks g) id ≡ may_run g id (get g.tasks id)
  unfolding find_runnable_tasks runnable_tasks
  contains-offer g fine id =
      rw contains-sort (contains-filter g g.tasks id fine.keys_distinct fine.named)

  -- On a consistent graph, `find_runnable_tasks` returns just the tasks that wait in the backlog or
  -- are ready, are assigned to no agent, and depend on verified tasks only; it returns each once,
  -- and none stands behind a task of lower priority, or of the same priority and later creation.
  pub find_runnable_tasks-Offers : (g : TaskGraph J) → IsConsistent g → Offers g
  unfolding find_runnable_tasks runnable_tasks
  find_runnable_tasks-Offers g fine = record {
    exact = λ id. (
      (λ h. Ready-of_may_run g id (rw (← contains-offer g fine id) h)),
      λ r. rw (contains-offer g fine id) (may_run-of_Ready g id r),
    );
    once = rw distinct-sort (distinct-filter g g.tasks fine.keys_distinct fine.named);
    ordered =
        in_order-Ranked (sort_tasks (filter_runnable g g.tasks))
          (in_order-sort (filter_runnable g g.tasks));
  }
