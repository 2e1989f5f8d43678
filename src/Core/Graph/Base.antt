-- ===== src/Core/Graph/Base.antt =====
-- The state of `TaskGraph` (crates/plexis-core/src/graph.rs), its queries and its errors.
use axonel.Prelude.{ℕ, Bool, true, Option, none, some, is_some, List, [], length, ◌≡◌, ◌<◌}
use axonel.Prelude.Map.{Map, get, keys}
use axonel.Prelude.Sets.{contains, distinct}
use axonel.Core.Ids.{TaskId}
use axonel.Core.Task.{Task}

-- What the text of an `InvalidDecomposition` says, without its wording.
pub data DecompositionFault : Type 0 where
  still_needed : TaskId → DecompositionFault
  wrong_parent : TaskId → TaskId → DecompositionFault

pub data GraphError : Type 0 where
  task_not_found : TaskId → GraphError
  cycle_detected : TaskId → GraphError
  invalid_decomposition : DecompositionFault → GraphError

pub record TaskGraph (J : Type 0) : Type 0 where
  pub tasks : Map (Task J)
  pub dependencies : Map (List TaskId)
  pub dependents : Map (List TaskId)

-- `.cloned().unwrap_or_default()`
abbrev pub or_empty : Option (List TaskId) → List TaskId
or_empty none = []
or_empty (some s) = s

module _ {J : Type 0} where
  unfoldable pub contains_task : TaskGraph J → TaskId → Bool
  contains_task g id = is_some (get g.tasks id)

  unfoldable pub get_task : TaskGraph J → TaskId → Option (Task J)
  get_task g id = get g.tasks id

  unfoldable pub direct_dependencies : TaskGraph J → TaskId → List TaskId
  direct_dependencies g id = or_empty (get g.dependencies id)

  unfoldable pub direct_dependents : TaskGraph J → TaskId → List TaskId
  direct_dependents g id = or_empty (get g.dependents id)

  unfoldable pub task_count : TaskGraph J → ℕ
  task_count g = length (keys g.tasks)

  -- The two maps of a graph mirror each other, and join tasks that it has.
  pub record IsConsistent (g : TaskGraph J) : Type 0 where
    pub keys_distinct : distinct (keys g.tasks) ≡ true
    pub named : (k : TaskId) (t : Task J) → get g.tasks k ≡ some t → t.id ≡ k
    pub dependencies_distinct : (a : TaskId) → distinct (direct_dependencies g a) ≡ true
    pub dependents_distinct : (a : TaskId) → distinct (direct_dependents g a) ≡ true
    pub mirrored :
        (a b : TaskId) → contains (direct_dependents g b) a ≡ contains (direct_dependencies g a) b
    pub waiting_known :
        (a b : TaskId)
        → contains (direct_dependencies g a) b ≡ true
        → contains (keys g.tasks) a ≡ true
    pub awaited_known :
        (a b : TaskId)
        → contains (direct_dependencies g a) b ≡ true
        → contains (keys g.tasks) b ≡ true

  -- No task waits for itself, through whatever chain: some ranking puts each task above all that
  -- it waits for.
  abbrev pub IsAcyclic : TaskGraph J → Type 0
  IsAcyclic g =
      (rank : TaskId → ℕ) × ((a b : TaskId)
        → contains (direct_dependencies g a) b ≡ true
        → rank b < rank a)
