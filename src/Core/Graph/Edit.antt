-- ===== src/Core/Graph/Edit.antt =====
-- The operations of `TaskGraph` (crates/plexis-core/src/graph.rs) that change the graph. Each
-- returns the graph as it leaves it, on its error paths too.
use axonel.Prelude.{
  Bool, Option, none, some, List, [], ◌∷◌, not, ◌==◌, if◌then◌else◌, Result, ok, err, and_then,
  for_each,
}
use axonel.Prelude.Map
use axonel.Prelude.Map.{Map, get}
use axonel.Prelude.Sets
use axonel.Core.Ids.{TaskId, AgentId}
use axonel.Core.Task.{Task}
use axonel.Core.Graph.Base.{
  TaskGraph, GraphError, task_not_found, cycle_detected, invalid_decomposition, still_needed,
  wrong_parent, or_empty, contains_task, direct_dependencies, direct_dependents,
}
use axonel.Core.Graph.Kahn.{validate_acyclic}

-- `map.entry(k).or_default()`, and the same followed by an edit of the set.
unfoldable pub entry_default : TaskId → Map (List TaskId) → Map (List TaskId)
entry_default k m = elim (get m k) [ none ↦ Map.insert k [] m | some s ↦ m ]

unfoldable pub entry_edit :
    TaskId → (List TaskId → List TaskId) → Map (List TaskId) → Map (List TaskId)
entry_edit k edit m = Map.insert k (edit (or_empty (get m k))) m

-- `if let Some(set) = map.get_mut(k) { … }`
unfoldable pub edit_present :
    TaskId → (List TaskId → List TaskId) → Map (List TaskId) → Map (List TaskId)
edit_present k edit m = elim (get m k) [ none ↦ m | some s ↦ Map.insert k (edit s) m ]

-- `for dep in deps { if let Some(set) = dependents.get_mut(&dep) { set.remove(task_id); } }`
unfoldable pub forget_in : TaskId → List TaskId → Map (List TaskId) → Map (List TaskId)
unfolding edit_present
forget_in task_id [] m = m
forget_in task_id (dep ∷ deps) m = forget_in task_id deps (edit_present dep (Sets.remove task_id) m)

abbrev pub is_empty : List TaskId → Bool
is_empty [] = Bool.true
is_empty (x ∷ xs) = Bool.false

abbrev pub is_parent : TaskId → Option TaskId → Bool
is_parent id none = Bool.false
is_parent id (some p) = p == id

abbrev pub Outcome : Type 0 → Type 0
Outcome J = TaskGraph J × Result GraphError (Unit {0})

module _ {J : Type 0} where
  unfoldable pub empty_graph : TaskGraph J
  empty_graph = record { tasks = []; dependencies = []; dependents = [] }

  unfoldable pub add_task : Task J → TaskGraph J → TaskGraph J
  unfolding entry_default
  add_task task g = record {
    tasks = Map.insert task.id task g.tasks;
    dependencies = entry_default task.id g.dependencies;
    dependents = entry_default task.id g.dependents;
  }

  -- The two insertions of `add_dependency`, and the two removals that take them back.
  unfoldable pub link : TaskId → TaskId → TaskGraph J → TaskGraph J
  unfolding entry_edit
  link task_id depends_on_id g = record g {
    dependencies = entry_edit task_id (Sets.insert depends_on_id) g.dependencies;
    dependents = entry_edit depends_on_id (Sets.insert task_id) g.dependents;
  }

  unfoldable pub unlink : TaskId → TaskId → TaskGraph J → TaskGraph J
  unfolding entry_edit
  unlink task_id depends_on_id g = record g {
    dependencies = entry_edit task_id (Sets.remove depends_on_id) g.dependencies;
    dependents = entry_edit depends_on_id (Sets.remove task_id) g.dependents;
  }

  unfoldable pub add_dependency : TaskId → TaskId → TaskGraph J → Outcome J
  unfolding contains_task
  add_dependency task_id depends_on_id g =
      if task_id == depends_on_id
      then (g, err (cycle_detected task_id))
      else if not (contains_task g task_id)
      then (g, err (task_not_found task_id))
      else if not (contains_task g depends_on_id)
      then (g, err (task_not_found depends_on_id))
      else (let linked = link task_id depends_on_id g in
          elim (validate_acyclic linked) [
            | ok _ ↦ (linked, ok tt)
            | err e ↦ (unlink task_id depends_on_id linked, err e)
          ])

  unfoldable pub remove_dependency : TaskId → TaskId → TaskGraph J → Outcome J
  unfolding contains_task edit_present
  remove_dependency task_id depends_on_id g =
      if not (contains_task g task_id)
      then (g, err (task_not_found task_id))
      else if not (contains_task g depends_on_id)
      then (g, err (task_not_found depends_on_id))
      else (
        record g {
          dependencies = edit_present task_id (Sets.remove depends_on_id) g.dependencies;
          dependents = edit_present depends_on_id (Sets.remove task_id) g.dependents;
        },
        ok tt,
      )

  unfoldable pub remove_task :
      TaskId → TaskGraph J → TaskGraph J × Result GraphError (Option (Task J))
  unfolding forget_in
  remove_task task_id g =
      if not (is_empty (or_empty (get g.dependents task_id)))
      then (g, err (invalid_decomposition (still_needed task_id)))
      else (
        record {
          tasks = Map.remove task_id g.tasks;
          dependencies = Map.remove task_id g.dependencies;
          dependents =
              Map.remove task_id
                (forget_in task_id (or_empty (get g.dependencies task_id)) g.dependents);
        },
        ok (get g.tasks task_id),
      )

  -- `.filter(|t| t.parent_id == Some(parent_id)).map(|t| t.id)`
  unfoldable pub child_ids : TaskId → Map (Task J) → List TaskId
  child_ids parent_id [] = []
  child_ids parent_id ((k, t) ∷ m) =
      let rest = child_ids parent_id m in
      if is_parent parent_id t.parent_id then t.id ∷ rest else rest

  unfoldable pub decompose_task :
      TaskId → List (Task J) → List (TaskId × TaskId) → List TaskId → TaskGraph J → Outcome J
  unfolding contains_task
  decompose_task parent_id children child_dependencies terminal_child_ids g =
      if not (contains_task g parent_id)
      then (g, err (task_not_found parent_id))
      else (let existing_parent_deps = direct_dependencies g parent_id in
          let existing_parent_dependents = direct_dependents g parent_id in
          and_then
            (for_each
              (λ (child : Task J) h.
                if not (is_parent parent_id child.parent_id)
                then (h, err (invalid_decomposition (wrong_parent child.id parent_id)))
                else (add_task child h, ok tt))
              children g)
            λ g₁ _.
              and_then
                (for_each (λ (e : TaskId × TaskId) h. add_dependency e.0 e.1 h) child_dependencies
                  g₁)
                λ g₂ _.
                  and_then
                    (for_each
                      (λ child_id h.
                        if is_empty (direct_dependencies h child_id)
                        then for_each (λ p_dep. add_dependency child_id p_dep) existing_parent_deps
                            h
                        else (h, ok tt))
                      (child_ids parent_id g₂.tasks) g₂)
                    λ g₃ _.
                      and_then
                        (for_each
                          (λ dep_on_parent h.
                            and_then (remove_dependency dep_on_parent parent_id h) λ h' _.
                              for_each (λ term_id. add_dependency dep_on_parent term_id)
                                terminal_child_ids h')
                          existing_parent_dependents g₃)
                        λ g₄ _. (g₄, validate_acyclic g₄))

  unfoldable pub insert_task_between : Task J → TaskId → TaskId → TaskGraph J → Outcome J
  unfolding contains_task
  insert_task_between new_task upstream_id downstream_id g =
      if not (contains_task g upstream_id)
      then (g, err (task_not_found upstream_id))
      else if not (contains_task g downstream_id)
      then (g, err (task_not_found downstream_id))
      else and_then
          (add_dependency new_task.id upstream_id
            (remove_dependency downstream_id upstream_id (add_task new_task g)).0)
          λ g₁ _.
            and_then (add_dependency downstream_id new_task.id g₁) λ g₂ _. (g₂, validate_acyclic g₂)

  unfoldable pub replace_task_with_children :
      TaskId → List (Task J) → List (TaskId × TaskId) → List TaskId → TaskGraph J → Outcome J
  replace_task_with_children parent_id children child_dependencies terminal_child_ids g =
      and_then (decompose_task parent_id children child_dependencies terminal_child_ids g)
        λ g₁ _. and_then (remove_task parent_id g₁) λ g₂ _. (g₂, ok tt)

  unfoldable pub reassign_ownership : TaskId → Option AgentId → TaskGraph J → Outcome J
  reassign_ownership task_id new_agent_id g = elim (get g.tasks task_id) [
    | none ↦ (g, err (task_not_found task_id))
    | some task ↦ (
      record g {
        tasks = Map.insert task_id (record task { assigned_agent_id = new_agent_id }) g.tasks;
      },
      ok tt,
    )
  ]

  -- The task behind the reference that `get_task_mut` gives, as its caller leaves it.
  unfoldable pub get_task_mut : TaskId → (write : Task J → Task J) → TaskGraph J → TaskGraph J
  get_task_mut task_id write g = elim (get g.tasks task_id) [
    | none ↦ g
    | some task ↦ record g { tasks = Map.insert task_id (write task) g.tasks }
  ]
