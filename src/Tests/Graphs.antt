-- ===== src/Tests/Graphs.antt =====
-- The dependency graph (crates/plexis-core/src/graph.rs) on three tasks.
use axonel.Prelude.{some, ◌≡◌, ◌↔◌, refl, true, List, [], ◌∷◌, ok, err}
use axonel.Prelude.Map
use axonel.Prelude.Sets
use axonel.Prelude.Map.{keys}
use axonel.Prelude.Sets.{contains, distinct}
use axonel.Core.Ids.{TaskId}
use axonel.Core.Task as Task
use axonel.Core.Task.{Task}
use axonel.Core.State.Task.{TaskState-discrete, is_runnable_candidate}
use axonel.Core.Graph.Base
use axonel.Core.Graph.Kahn
use axonel.Core.Graph.Edit
use axonel.Core.Graph.Histories.{
  GraphCall, adds, links, unlinks, removes, reassigns, writes, perform_all, histories-IsSound,
}
use axonel.Core.Graph.Runnable
use axonel.Core.Graph.Base.{
  TaskGraph, GraphError, cycle_detected, IsAcyclic, IsConsistent, contains_task,
}
use axonel.Core.Graph.Kahn.{validate_acyclic, topological_sort}
use axonel.Core.Graph.Drain.{IsOrdered}
use axonel.Core.Graph.Sorted.{topological_sort_iff, topological_sort_sound, validate_acyclic_iff}
use axonel.Core.Graph.Edit.{empty_graph, add_task, add_dependency, remove_task}
use axonel.Core.Graph.Safety.{IsSound, Added, add_dependency-Added}
use axonel.Core.Graph.Compound.{
  empty_graph-IsSound, add_task-IsSound, CompoundKeeps, rewrites-IsSound,
}
use axonel.Core.Graph.Runnable.{find_runnable_tasks}
use axonel.Core.Graph.Runnable.Offer.{Offers, find_runnable_tasks-Offers}

abbrev numbered : TaskId → Task (Unit {0})
numbered id = Task.new tt id 0 7 "a task"

abbrev loose : TaskGraph (Unit {0})
loose = add_task (numbered 3) (add_task (numbered 2) (add_task (numbered 1) empty_graph))

-- 1 waits for 2, and 2 for 3.
abbrev chain : TaskGraph (Unit {0})
chain = (add_dependency 1 2 (add_dependency 2 3 loose).0).0

loose-IsSound : IsSound loose
loose-IsSound =
    add_task-IsSound (numbered 3) _
      (add_task-IsSound (numbered 2) _ (add_task-IsSound (numbered 1) _ empty_graph-IsSound))

chain-IsSound : IsSound chain
chain-IsSound =
    (add_dependency-Added 1 2 _ (add_dependency-Added 2 3 loose loose-IsSound).sound).sound

-- The maps of `chain`, written out.
abbrev line : TaskGraph (Unit {0})
line = record {
  tasks = (1, numbered 1) ∷ (2, numbered 2) ∷ (3, numbered 3) ∷ [];
  dependencies = (1, 2 ∷ []) ∷ (2, 3 ∷ []) ∷ (3, []) ∷ [];
  dependents = (1, []) ∷ (2, 1 ∷ []) ∷ (3, 2 ∷ []) ∷ [];
}

chain-line : chain ≡ line
unfolding add_dependency add_task empty_graph validate_acyclic Kahn.drain Kahn.sources
    Kahn.in_degrees Kahn.run Kahn.relax Kahn.relax_all Kahn.find_waiting Kahn.last_or
    Base.direct_dependencies Base.direct_dependents Base.task_count Map.get Map.insert Edit.link
    Edit.entry_default Edit.entry_edit Base.contains_task Sets.insert Task.new
chain-line = refl

line_sorts : topological_sort 99 line ≡ ok (3 ∷ 2 ∷ 1 ∷ [])
unfolding topological_sort Kahn.drain Kahn.sources Kahn.in_degrees Kahn.run Kahn.relax
    Kahn.relax_all Kahn.find_waiting Kahn.last_or Base.direct_dependencies Base.direct_dependents
    Base.task_count Map.get Map.insert
line_sorts = refl

chain_sorts : topological_sort 99 chain ≡ ok (3 ∷ 2 ∷ 1 ∷ [])
chain_sorts = rw chain-line line_sorts

cycle_refused : (add_dependency 3 1 line).1 ≡ err (cycle_detected 1)
unfolding add_dependency validate_acyclic Kahn.drain Kahn.sources Kahn.in_degrees Kahn.run
    Kahn.relax Kahn.relax_all Kahn.find_waiting Kahn.last_or Base.direct_dependencies
    Base.direct_dependents Base.task_count Map.get Map.insert Edit.link Edit.entry_edit
    Base.contains_task Sets.insert
cycle_refused = refl

line_offers : find_runnable_tasks line ≡ 3 ∷ []
unfolding find_runnable_tasks Runnable.runnable_tasks Runnable.sort_tasks Runnable.filter_runnable
    Runnable.is_runnable Runnable.insert_sorted Runnable.all_verified Runnable.is_verified Map.get
    Task.new TaskState-discrete is_runnable_candidate
line_offers = refl

add_dependency-Added_example : Added 3 1 chain (add_dependency 3 1 chain)
add_dependency-Added_example = add_dependency-Added 3 1 chain chain-IsSound

topological_sort_iff_example :
    ((order : List TaskId) × (topological_sort 99 chain ≡ ok order)) ↔ IsAcyclic chain
topological_sort_iff_example = topological_sort_iff chain chain-IsSound.fine 99

topological_sort_sound_example :
    (distinct (3 ∷ 2 ∷ 1 ∷ []) ≡ true)
    × ((v : TaskId) → contains (3 ∷ 2 ∷ 1 ∷ []) v ≡ contains (keys chain.tasks) v)
    × IsOrdered chain [] (3 ∷ 2 ∷ 1 ∷ [])
topological_sort_sound_example =
    topological_sort_sound chain chain-IsSound.fine 99 (3 ∷ 2 ∷ 1 ∷ []) chain_sorts

validate_acyclic_iff_example : (validate_acyclic chain ≡ ok tt) ↔ IsAcyclic chain
validate_acyclic_iff_example = validate_acyclic_iff chain chain-IsSound.fine

rewrites-IsSound_example : CompoundKeeps chain
rewrites-IsSound_example = rewrites-IsSound chain chain-IsSound

find_runnable_tasks-Offers_example : Offers chain
find_runnable_tasks-Offers_example = find_runnable_tasks-Offers chain chain-IsSound.fine

-- The fourth call closes a cycle and is refused.
abbrev some_calls : List (GraphCall (Unit {0}))
some_calls =
    adds (numbered 1)
    ∷ adds (numbered 2)
    ∷ links 1 2
    ∷ links 2 1
    ∷ reassigns 2 (some 5)
    ∷ writes 2 (λ t. record t { attempts = 1 }) (λ t. refl)
    ∷ removes 2
    ∷ unlinks 1 2
    ∷ removes 2
    ∷ []

histories-IsSound_example : IsSound (perform_all some_calls empty_graph)
histories-IsSound_example = histories-IsSound some_calls
