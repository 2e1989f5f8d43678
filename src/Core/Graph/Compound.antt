-- ===== src/Core/Graph/Compound.antt =====
-- The compound rewrites of `TaskGraph` keep a graph consistent and without cycles, on every path
-- through them, those that fail half way included.
use axonel.Prelude.{
  ◌≡◌, refl, true, false, not, arith, List, ok, err, and_then, Leaves, Leaves-and_then, Leaves-if,
  Leaves-for_each, Bool-cases, inl, inr, ◌&&◌, Result,
}
use axonel.Core.Ids.{TaskId}
use axonel.Prelude.Map.{get}
use axonel.Core.Task.{Task}
use axonel.Core.Graph.Base.{
  TaskGraph, GraphError, contains_task, task_not_found, direct_dependencies, direct_dependents,
}
use axonel.Core.Graph.Kahn.{validate_acyclic}
use axonel.Core.Graph.Edit.{
  empty_graph, add_task, add_dependency, remove_dependency, remove_task, decompose_task,
  insert_task_between, replace_task_with_children, child_ids,
}
use axonel.Core.Graph.Links.{
  waits-add_task, add_task-IsConsistent, remove_dependency-IsUnlinked, waits-IsUnlinked,
  IsUnlinked-IsConsistent,
}
use axonel.Core.Graph.Safety.{IsSound, IsAcyclic-of_fewer, add_dependency-Added}
use axonel.Core.Graph.Removal.{remove_task-IsSound}

module _ {J : Type 0} where
  pub empty_graph-IsSound : IsSound (empty_graph {J = J})
  unfolding empty_graph direct_dependencies direct_dependents get
  empty_graph-IsSound = record {
    fine = record {
      keys_distinct = refl;
      named = λ k t e. cc;
      dependencies_distinct = λ a. refl;
      dependents_distinct = λ a. refl;
      mirrored = λ a b. refl;
      waiting_known = λ a b w. cc;
      awaited_known = λ a b w. cc;
    };
    acyclic = (λ _. 0, λ a b w. cc);
  }

  pub add_task-IsSound : (t : Task J) (g : TaskGraph J) → IsSound g → IsSound (add_task t g)
  add_task-IsSound t g sound = record {
    fine = add_task-IsConsistent t g sound.fine;
    acyclic = IsAcyclic-of_fewer g (add_task t g) (λ a b w. rw waits-add_task at w) sound.acyclic;
  }

  add_dependency-IsSound :
      (t d : TaskId) (g : TaskGraph J) → IsSound g → IsSound (add_dependency t d g).0
  add_dependency-IsSound t d g sound = (add_dependency-Added t d g sound).sound

  removed-IsSound :
      (t d : TaskId) (g : TaskGraph J)
      → contains_task g t ≡ true
      → contains_task g d ≡ true
      → IsSound g
      → IsSound (remove_dependency t d g).0
  removed-IsSound t d g kt kd sound =
      let unlinked = remove_dependency-IsUnlinked t d g kt kd in
      record {
        fine = IsUnlinked-IsConsistent t d unlinked sound.fine;
        acyclic =
            IsAcyclic-of_fewer g _ (λ a b w. ground (arith, waits-IsUnlinked t d unlinked a b))
              sound.acyclic;
      }

  remove_dependency_unknown :
      (t d : TaskId) (g : TaskGraph J)
      → (contains_task g t && contains_task g d) ≡ false
      → (remove_dependency t d g).0 ≡ g
  unfolding remove_dependency
  remove_dependency_unknown t d g u = ground arith

  remove_dependency-IsSound :
      (t d : TaskId) (g : TaskGraph J) → IsSound g → IsSound (remove_dependency t d g).0
  remove_dependency-IsSound t d g sound =
      elim (Bool-cases (contains_task g t && contains_task g d)) [
        | inl k ↦ removed-IsSound t d g (ground arith) (ground arith) sound
        | inr u ↦ rw (remove_dependency_unknown t d g u) sound
      ]

  kept : {A : Type 0} (o : TaskGraph J × Result GraphError A) → IsSound o.0 → Leaves IsSound o
  kept o h = record { left = h }

  edge : (t d : TaskId) (g : TaskGraph J) → IsSound g → Leaves IsSound (add_dependency t d g)
  edge t d g sound = kept _ (add_dependency-IsSound t d g sound)

  decompose_task-Leaves :
      (parent : TaskId) (children : List (Task J)) (inner : List (TaskId × TaskId))
      (terminal : List TaskId) (g : TaskGraph J)
      → IsSound g
      → Leaves IsSound (decompose_task parent children inner terminal g)
  unfolding decompose_task
  decompose_task-Leaves parent children inner terminal g sound = Leaves-if _ (kept _ sound) (
      Leaves-and_then
        (Leaves-for_each children g sound
          λ child h s. Leaves-if _ (kept _ s) (kept _ (add_task-IsSound child h s)))
        λ g₁ _ s₁.
          Leaves-and_then (Leaves-for_each inner g₁ s₁ λ e h s. edge e.0 e.1 h s) λ g₂ _ s₂.
            Leaves-and_then
              (Leaves-for_each (child_ids parent g₂.tasks) g₂ s₂
                λ c h s. Leaves-if _ (Leaves-for_each _ h s λ p k q. edge c p k q) (kept _ s))
              λ g₃ _ s₃.
                Leaves-and_then
                  (Leaves-for_each _ g₃ s₃ λ d h s.
                    Leaves-and_then (kept _ (remove_dependency-IsSound d parent h s))
                      λ h' _ s'. Leaves-for_each terminal h' s' λ x k q. edge d x k q)
                  λ g₄ _ s₄. kept _ s₄)

  insert_task_between-Leaves :
      (t : Task J) (up down : TaskId) (g : TaskGraph J)
      → IsSound g
      → Leaves IsSound (insert_task_between t up down g)
  unfolding insert_task_between
  insert_task_between-Leaves t up down g sound =
      Leaves-if (not (contains_task g up)) (kept (g, err (task_not_found up)) sound) (
        Leaves-if (not (contains_task g down)) (kept (g, err (task_not_found down)) sound) (
          Leaves-and_then
            {f = λ g₁ _. and_then (add_dependency down t.id g₁) λ g₂ _. (g₂, validate_acyclic g₂)}
            (edge t.id up _ (remove_dependency-IsSound down up _ (add_task-IsSound t g sound)))
            λ g₁ _ s₁.
              Leaves-and_then {f = λ g₂ _. (g₂, validate_acyclic g₂)} (edge down t.id g₁ s₁)
                λ g₂ _ s₂. kept (g₂, validate_acyclic g₂) s₂))

  replace_task_with_children-Leaves :
      (parent : TaskId) (children : List (Task J)) (inner : List (TaskId × TaskId))
      (terminal : List TaskId) (g : TaskGraph J)
      → IsSound g
      → Leaves IsSound (replace_task_with_children parent children inner terminal g)
  unfolding replace_task_with_children
  replace_task_with_children-Leaves parent children inner terminal g sound =
      Leaves-and_then (decompose_task-Leaves parent children inner terminal g sound) λ g₁ _ s₁.
        Leaves-and_then {f = λ g₂ _. (g₂, ok tt)}
          (kept (remove_task parent g₁) (remove_task-IsSound parent g₁ s₁))
          λ g₂ _ s₂. kept (g₂, ok tt) s₂

  -- The rewrites of a plan: each keeps a graph consistent and without cycles, whether it succeeds
  -- or an error ends it half way.
  pub record CompoundKeeps (g : TaskGraph J) : Type 0 where
    pub decomposed :
        (parent : TaskId) (children : List (Task J)) (inner : List (TaskId × TaskId))
        (terminal : List TaskId)
        → IsSound (decompose_task parent children inner terminal g).0
    pub replaced :
        (parent : TaskId) (children : List (Task J)) (inner : List (TaskId × TaskId))
        (terminal : List TaskId)
        → IsSound (replace_task_with_children parent children inner terminal g).0
    pub inserted : (t : Task J) (up down : TaskId) → IsSound (insert_task_between t up down g).0
    pub unlinked : (t d : TaskId) → IsSound (remove_dependency t d g).0

  -- On a consistent graph without cycles, `decompose_task`, `replace_task_with_children`,
  -- `insert_task_between` and `remove_dependency`, with whatever arguments, leave a consistent graph
  -- without cycles, whether they succeed or an error ends them half way.
  pub rewrites-IsSound : (g : TaskGraph J) → IsSound g → CompoundKeeps g
  rewrites-IsSound g sound = record {
    decomposed = λ p c i t. (decompose_task-Leaves p c i t g sound).left;
    replaced = λ p c i t. (replace_task_with_children-Leaves p c i t g sound).left;
    inserted = λ t u d. (insert_task_between-Leaves t u d g sound).left;
    unlinked = λ t d. remove_dependency-IsSound t d g sound;
  }
