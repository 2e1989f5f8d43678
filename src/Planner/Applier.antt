-- ===== src/Planner/Applier.antt =====
-- Steps 2 to 4 of `PlanApplier::apply` (crates/plexis-planner/src/applier.rs), for a plan without a parent
-- task: the tasks of a valid proposal, their dependencies, and which of them are ready. `HashMap`s with
-- texts for keys are association lists. `task_id` draws the UUIDs, by the place of the task, and
-- `now` is what the clock shows. What is stored of it, and the plan record, are not modelled.
pub mod Kept
use text.Mathlib.Text.{◌==◌ as str_eq}
use axonel.Prelude.{
  ℕ, ◌+◌, String, Bool, false, Option, none, some, List, [], ◌∷◌, ◌==◌, ◌||◌, if◌then◌else◌,
}
use axonel.Core.Ids.{TaskId, WorkflowId, WorkspaceId, Instant}
use axonel.Core.State.Task.{TaskState}
use axonel.Core.Task as Task
use axonel.Core.Task.{Task, transition_to}
use axonel.Planner.Validator.{ProposedTask, ProposedDependency, is_nil}

-- The JSON values that the new tasks carry.
pub record Values (J : Type 0) : Type 0 where
  pub empty : J
  pub with_capabilities : List String → J → J

pub record PlanningContext : Type 0 where
  pub workflow_id : WorkflowId
  pub workspace_id : Option WorkspaceId

abbrev pub IdMap : Type 0
IdMap = List (String × TaskId)

unfoldable pub get_id : String → IdMap → Option TaskId
get_id key [] = none
get_id key ((k, id) ∷ m) = if str_eq k key then some id else get_id key m

unfoldable pub insert_id : String → TaskId → IdMap → IdMap
insert_id key id [] = (key, id) ∷ []
insert_id key id ((k, j) ∷ m) =
    let rest = insert_id key id m in if str_eq k key then (key, id) ∷ m else (k, j) ∷ rest

module _ {J : Type 0} (values : Values J) (context : PlanningContext) (now : Instant)
    (task_id : (index : ℕ) → TaskId) where
  abbrev described : Option String → Task J → Task J
  described none t = t
  described (some text) t = Task.with_description text t

  -- `Task::with_required_capabilities` of crates/plexis-core/src/task.rs, where there are any.
  abbrev able : List String → Task J → Task J
  able caps t =
      if is_nil caps then t else record t { metadata = values.with_capabilities caps t.metadata }

  unfoldable pub build_task : (index : ℕ) → ProposedTask → Task J
  unfolding Task.new Task.with_criteria Task.with_priority Task.with_description
  build_task index pt = able pt.required_capabilities (
      described pt.description
        (record (Task.with_priority pt.priority (
          Task.with_criteria pt.criteria
            (Task.new values.empty (task_id index) now context.workflow_id pt.objective))) {
              workspace_id = context.workspace_id;
            }))

  -- Step 2: `for pt in &proposal.tasks`
  unfoldable pub build_tasks : (index : ℕ) → List ProposedTask → IdMap → IdMap × List (Task J)
  unfolding build_task insert_id
  build_tasks index [] ids = (ids, [])
  build_tasks index (pt ∷ pts) ids =
      let (all, tasks) = build_tasks (index + 1) pts (insert_id pt.temp_id (task_id index) ids) in
      (all, build_task index pt ∷ tasks)

-- Step 3: `if let (Some(&t_id), Some(&dep_id)) = …`
abbrev pub push_both :
    Option TaskId → Option TaskId → List (TaskId × TaskId) → List (TaskId × TaskId)
push_both (some t) (some d) deps = (t, d) ∷ deps
push_both _ _ deps = deps

unfoldable pub map_dependencies : IdMap → List ProposedDependency → List (TaskId × TaskId)
unfolding get_id
map_dependencies ids [] = []
map_dependencies ids (dep ∷ deps) =
    push_both (get_id dep.task_temp_id ids) (get_id dep.depends_on_temp_id ids)
      (map_dependencies ids deps)

abbrev pub depends : TaskId → List (TaskId × TaskId) → Bool
depends id [] = false
depends id ((t, d) ∷ deps) = t == id || depends id deps

-- Step 4, without a parent: `for mut task in tasks`
unfoldable pub ready_tasks :
    {J : Type 0} → Instant → List (TaskId × TaskId) → List (Task J) → List (Task J)
unfolding transition_to
ready_tasks now deps [] = []
ready_tasks now deps (t ∷ ts) =
    let rest = ready_tasks now deps ts in
    if depends t.id deps then t ∷ rest else (transition_to now TaskState.ready t).0 ∷ rest
