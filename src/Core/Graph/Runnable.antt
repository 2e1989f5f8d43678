-- ===== src/Core/Graph/Runnable.antt =====
-- `find_runnable_tasks` of crates/plexis-core/src/graph.rs: the tasks that an agent may take, in
-- the order in which they are offered.
pub mod Sort
pub mod Offer
use axonel.Prelude.{
  ℕ, ◌≡◌, ◌⊎◌, refl, Bool, true, false, not, Option, none, some, is_some, List, [], ◌∷◌, map, ◌==◌,
  ◌&&◌, ◌||◌, ltb, if◌then◌else◌, arith, inl, inr, Bool-cases, ite,
}
use axonel.Prelude.Int.{ltb_ℤ}
use axonel.Prelude.Map
use axonel.Prelude.Map.{Map, get, keys, contains-keys}
use axonel.Prelude.Sets.{contains, distinct}
use axonel.Core.Ids.{TaskId}
use axonel.Core.State.Task.{TaskState, TaskState-discrete, is_runnable_candidate}
use axonel.Core.Task.{Task}
use axonel.Core.Graph.Base.{TaskGraph, IsConsistent, or_empty}

module _ {J : Type 0} where
  -- `b.priority.cmp(&a.priority).then_with(|| a.created_at.cmp(&b.created_at)) == Less`
  unfoldable pub before : Task J → Task J → Bool
  before a b =
      ltb_ℤ b.priority a.priority
      || (not (ltb_ℤ a.priority b.priority) && ltb a.created_at b.created_at)

  -- A stable sort: a task stays in front of those that compare equal to it.
  unfoldable pub insert_sorted : Task J → List (Task J) → List (Task J)
  insert_sorted a [] = a ∷ []
  insert_sorted a (b ∷ rest) =
      let further = insert_sorted a rest in if before b a then b ∷ further else a ∷ b ∷ rest

  unfoldable pub sort_tasks : List (Task J) → List (Task J)
  sort_tasks [] = []
  sort_tasks (a ∷ rest) = insert_sorted a (sort_tasks rest)

  unfoldable pub is_verified : Option (Task J) → Bool
  is_verified none = false
  is_verified (some t) = ite (TaskState-discrete t.state TaskState.verified) true false

  unfoldable pub all_verified : Map (Task J) → List TaskId → Bool
  all_verified tasks [] = true
  all_verified tasks (d ∷ deps) = is_verified (get tasks d) && all_verified tasks deps

  -- The tests of the loop, on one entry.
  unfoldable pub is_runnable : TaskGraph J → TaskId → Task J → Bool
  is_runnable g id task =
      if not (is_runnable_candidate task.state) || is_some task.assigned_agent_id
      then false
      else elim (get g.dependencies id) [ none ↦ true | some deps ↦ all_verified g.tasks deps ]

  unfoldable pub filter_runnable : TaskGraph J → Map (Task J) → List (Task J)
  filter_runnable g [] = []
  filter_runnable g ((id, task) ∷ m) =
      let rest = filter_runnable g m in if is_runnable g id task then task ∷ rest else rest

  abbrev pub id_of : Task J → TaskId
  id_of t = t.id

  -- The tasks whose identifiers it returns.
  unfoldable pub runnable_tasks : TaskGraph J → List (Task J)
  runnable_tasks g = sort_tasks (filter_runnable g g.tasks)

  unfoldable pub find_runnable_tasks : TaskGraph J → List TaskId
  find_runnable_tasks g = map id_of (runnable_tasks g)
