-- ===== src/Core/Graph/Kahn.antt =====
-- Kahn's algorithm, as `validate_acyclic` and `topological_sort` of crates/plexis-core/src/graph.rs
-- run it. Both have the same loop: the first counts the nodes it takes off the queue, the second
-- lists them. A node is queued once at most, so the rounds that the fuel allows, one more than the
-- number of tasks, are enough (`Core.Graph.Order`).
use axonel.Prelude.{
  ℕ, zero, suc, ◌+◌, ◌-◌, ◌^◌, Option, none, some, List, [], ◌∷◌, ◌++◌, length, ltb, ◌==◌,
  if◌then◌else◌, Result, ok, err,
}
use axonel.Prelude.Map
use axonel.Prelude.Map.{Map, get, keys}
use axonel.Core.Ids.{TaskId}
use axonel.Core.Task.{Task}
use axonel.Core.Graph.Base.{
  TaskGraph, GraphError, cycle_detected, task_count, direct_dependencies, direct_dependents,
}

-- `-= 1` on a `usize`, as a release build wraps it.
abbrev pub decrement : ℕ → ℕ
decrement d = if d == 0 then 2 ^ 64 - 1 else d - 1

-- The in-degrees that are left, and the queue.
pub record Front : Type 0 where
  pub degrees : Map ℕ
  pub queue : List TaskId

-- The body of the inner loop, for one task `next` that waits for the node just taken.
unfoldable pub relax : TaskId → Front → Front
relax next front = elim (get front.degrees next) [
  | none ↦ front
  | some d ↦ record {
    degrees = Map.insert next (decrement d) front.degrees;
    queue = if decrement d == 0 then front.queue ++ next ∷ [] else front.queue;
  }
]

unfoldable pub relax_all : List TaskId → Front → Front
relax_all [] front = front
relax_all (next ∷ rest) front = relax_all rest (relax next front)

-- The loop `while let Some(node) = queue.pop_front()`; `visit` records the node.
module _ {A : Type 0} (dependents : TaskId → List TaskId) (visit : A → TaskId → A) where
  unfoldable pub drain : ℕ → Map ℕ → List TaskId → A → A × Map ℕ
  drain zero degrees queue seen = (seen, degrees)
  drain (suc fuel) degrees [] seen = (seen, degrees)
  drain (suc fuel) degrees (node ∷ queue) seen =
      let front = relax_all (dependents node) (record { degrees = degrees; queue = queue }) in
      drain fuel front.degrees front.queue (visit seen node)

-- The tasks with nothing left to wait for.
unfoldable pub sources : Map ℕ → List TaskId
sources [] = []
sources ((id, deg) ∷ m) = let rest = sources m in if deg == 0 then id ∷ rest else rest

-- `for (&id, &deg) in &in_degree { if deg > 0 { … } }`
unfoldable pub find_waiting : Map ℕ → Option TaskId
find_waiting [] = none
find_waiting ((id, deg) ∷ m) = if ltb 0 deg then some id else find_waiting m

unfoldable pub last_or : TaskId → List TaskId → TaskId
last_or default [] = default
last_or default (x ∷ xs) = last_or x xs

module _ {J : Type 0} where
  -- The first loop of both: each task with the number of its direct dependencies. The keys of a
  -- map are distinct, so its insertions make one entry for each.
  unfoldable pub in_degrees : (TaskId → List TaskId) → Map (Task J) → Map ℕ
  in_degrees dependencies [] = []
  in_degrees dependencies ((id, task) ∷ rest) =
      (id, length (dependencies id)) ∷ in_degrees dependencies rest

  unfoldable pub run : {A : Type 0} → (A → TaskId → A) → A → TaskGraph J → A × Map ℕ
  run visit start g =
      let degrees = in_degrees (direct_dependencies g) g.tasks in
      drain (direct_dependents g) visit (suc (task_count g)) degrees (sources degrees) start

  unfoldable pub validate_acyclic : TaskGraph J → Result GraphError (Unit {0})
  unfolding run
  validate_acyclic g =
      let (visited_count, degrees) = run (λ n _. n + 1) 0 g in
      if visited_count == task_count g
      then ok tt
      else elim (find_waiting degrees) [ none ↦ ok tt | some id ↦ err (cycle_detected id) ]

  -- `default` is `TaskId::default()`, a fresh identifier.
  unfoldable pub topological_sort : TaskId → TaskGraph J → Result GraphError (List TaskId)
  unfolding run
  topological_sort default g =
      let (order, degrees) = run (λ order node. order ++ node ∷ []) [] g in
      if length order == task_count g
      then ok order
      else err (cycle_detected (last_or default order))
