-- ===== src/Core/Graph/Histories.antt =====
-- Every graph that the methods of `TaskGraph` (crates/plexis-core/src/graph.rs) can build is
-- consistent and without cycles.
use axonel.Prelude.{
  ◌≡◌, refl, true, some, none, Option, List, [], ◌∷◌, arith, inl, inr, Option-cases,
}
use axonel.Prelude.Map
use axonel.Prelude.Map.{get, keys, get-insert, distinct-keys-insert, contains-keys-insert}
use axonel.Prelude.Sets.{contains}
use axonel.Core.Ids.{TaskId, AgentId}
use axonel.Core.Task.{Task}
use axonel.Core.Graph.Base.{TaskGraph, direct_dependencies, direct_dependents}
use axonel.Core.Graph.Edit.{
  empty_graph, add_task, add_dependency, remove_dependency, remove_task, decompose_task,
  insert_task_between, replace_task_with_children, reassign_ownership, get_task_mut,
}
use axonel.Core.Graph.Safety.{IsSound, add_dependency-Added}
use axonel.Core.Graph.Removal.{remove_task-IsSound}
use axonel.Core.Graph.Compound.{empty_graph-IsSound, add_task-IsSound, rewrites-IsSound}

-- The methods that change a graph, with their arguments. `writes` is `get_task_mut` with what its caller
-- does to the task through the reference: anything that keeps the identifier.
pub data GraphCall (J : Type 0) : Type 0 where
  adds : Task J → GraphCall J
  links unlinks : TaskId → TaskId → GraphCall J
  removes : TaskId → GraphCall J
  decomposes replaces : TaskId → List (Task J) → List (TaskId × TaskId) → List TaskId → GraphCall J
  inserts : Task J → TaskId → TaskId → GraphCall J
  reassigns : TaskId → Option AgentId → GraphCall J
  writes : TaskId → (f : Task J → Task J) → ((t : Task J) → (f t).id ≡ t.id) → GraphCall J

module _ {J : Type 0} where
  abbrev written : TaskId → Task J → TaskGraph J → TaskGraph J
  written id u g = record g { tasks = Map.insert id u g.tasks }

  known_still :
      (id : TaskId) (u : Task J) (g : TaskGraph J) (k : TaskId)
      → contains (keys g.tasks) k ≡ true
      → contains (keys (written id u g).tasks) k ≡ true
  known_still id u g k m = ground (arith, contains-keys-insert id u g.tasks k)

  written-IsSound :
      (id : TaskId) (t u : Task J) (g : TaskGraph J)
      → get g.tasks id ≡ some t
      → u.id ≡ t.id
      → IsSound g
      → IsSound (written id u g)
  unfolding direct_dependencies direct_dependents
  written-IsSound id t u g h same sound =
      let fine = sound.fine in
      record {
        fine = record {
          keys_distinct = distinct-keys-insert id u g.tasks fine.keys_distinct;
          named =
              λ k s e. ground (arith, get-insert id u g.tasks k, fine.named k s, fine.named id t h);
          dependencies_distinct = fine.dependencies_distinct;
          dependents_distinct = fine.dependents_distinct;
          mirrored = fine.mirrored;
          waiting_known = λ x y w. known_still id u g x (fine.waiting_known x y w);
          awaited_known = λ x y w. known_still id u g y (fine.awaited_known x y w);
        };
        acyclic = sound.acyclic;
      }

  get_task_mut_known :
      (id : TaskId) (f : Task J → Task J) (t : Task J) (g : TaskGraph J)
      → get g.tasks id ≡ some t
      → get_task_mut id f g ≡ written id (f t) g
  unfolding get_task_mut
  get_task_mut_known id f t g h = ground arith

  get_task_mut_unknown :
      (id : TaskId) (f : Task J → Task J) (g : TaskGraph J)
      → get g.tasks id ≡ none
      → get_task_mut id f g ≡ g
  unfolding get_task_mut
  get_task_mut_unknown id f g h = ground arith

  get_task_mut-IsSound :
      (id : TaskId) (f : Task J → Task J) (g : TaskGraph J)
      → ((t : Task J) → (f t).id ≡ t.id)
      → IsSound g
      → IsSound (get_task_mut id f g)
  get_task_mut-IsSound id f g keeps sound = elim (Option-cases (get g.tasks id)) [
    | inl e ↦ rw (get_task_mut_unknown id f g e) sound
    | inr (t, e) ↦
        rw (get_task_mut_known id f t g e) (written-IsSound id t (f t) g e (keeps t) sound)
  ]

  reassign_ownership_known :
      (a : Option AgentId) (id : TaskId) (t : Task J) (g : TaskGraph J)
      → get g.tasks id ≡ some t
      → (reassign_ownership id a g).0 ≡ written id (record t { assigned_agent_id = a }) g
  unfolding reassign_ownership
  reassign_ownership_known a id t g h = ground arith

  reassign_ownership_unknown :
      (a : Option AgentId) (id : TaskId) (g : TaskGraph J)
      → get g.tasks id ≡ none
      → (reassign_ownership id a g).0 ≡ g
  unfolding reassign_ownership
  reassign_ownership_unknown a id g h = ground arith

  reassign_ownership-IsSound :
      (a : Option AgentId) (id : TaskId) (g : TaskGraph J)
      → IsSound g
      → IsSound (reassign_ownership id a g).0
  reassign_ownership-IsSound a id g sound = elim (Option-cases (get g.tasks id)) [
    | inl e ↦ rw (reassign_ownership_unknown a id g e) sound
    | inr (t, e) ↦
        rw (reassign_ownership_known a id t g e)
          (written-IsSound id t (record t { assigned_agent_id = a }) g e refl sound)
  ]

  pub perform : GraphCall J → TaskGraph J → TaskGraph J
  perform (adds t) g = add_task t g
  perform (links t d) g = (add_dependency t d g).0
  perform (unlinks t d) g = (remove_dependency t d g).0
  perform (removes t) g = (remove_task t g).0
  perform (decomposes p children inner terminal) g = (decompose_task p children inner terminal g).0
  perform (replaces p children inner terminal) g =
      (replace_task_with_children p children inner terminal g).0
  perform (inserts t up down) g = (insert_task_between t up down g).0
  perform (reassigns t a) g = (reassign_ownership t a g).0
  perform (writes t f keeps) g = get_task_mut t f g

  perform-IsSound : (call : GraphCall J) (g : TaskGraph J) → IsSound g → IsSound (perform call g)
  unfolding perform
  perform-IsSound (adds t) g s = add_task-IsSound t g s
  perform-IsSound (links t d) g s = (add_dependency-Added t d g s).sound
  perform-IsSound (unlinks t d) g s = (rewrites-IsSound g s).unlinked t d
  perform-IsSound (removes t) g s = remove_task-IsSound t g s
  perform-IsSound (decomposes p c i t) g s = (rewrites-IsSound g s).decomposed p c i t
  perform-IsSound (replaces p c i t) g s = (rewrites-IsSound g s).replaced p c i t
  perform-IsSound (inserts t u d) g s = (rewrites-IsSound g s).inserted t u d
  perform-IsSound (reassigns t a) g s = reassign_ownership-IsSound a t g s
  perform-IsSound (writes t f keeps) g s = get_task_mut-IsSound t f g keeps s

  pub perform_all : List (GraphCall J) → TaskGraph J → TaskGraph J
  perform_all [] g = g
  perform_all (call ∷ calls) g = perform_all calls (perform call g)

  perform_all-IsSound :
      (calls : List (GraphCall J)) (g : TaskGraph J) → IsSound g → IsSound (perform_all calls g)
  unfolding perform_all
  perform_all-IsSound [] g s = s
  perform_all-IsSound (call ∷ calls) g s =
      perform_all-IsSound calls (perform call g) (perform-IsSound call g s)

  -- Whatever methods are called on an empty graph, in whatever order and with whatever arguments,
  -- failed calls among them: the graph stays consistent and without cycles, as long as what is written
  -- through `get_task_mut` keeps the identifier of the task.
  pub histories-IsSound : (calls : List (GraphCall J)) → IsSound (perform_all calls empty_graph)
  histories-IsSound calls = perform_all-IsSound calls empty_graph empty_graph-IsSound
