-- ===== src/Planner/Validator.antt =====
-- crates/plexis-planner/src/proposal.rs and validator.rs: what a proposed plan is, and steps 1 to 4 of
-- `validate_with_budget`, which look at its tasks and at the ends of its dependencies. Step 5, the
-- search for cycles and the depth, is not modelled. An error is a constructor with what its
-- text reports. A `HashSet` of texts is a list.
pub mod Shape
use text.Mathlib.Text.{◌==◌ as str_eq}
use axonel.Prelude.{
  ℕ, ◌+◌, String, Bool, true, false, not, ◌&&◌, ◌||◌, Option, none, some, List, [], ◌∷◌, ◌++◌,
  length, leb, ltb, if◌then◌else◌,
}
use axonel.Prelude.Int.{ℤ}
use axonel.Prelude.Text.{trim, is_empty}

pub data ExecutionStrategy : Type 0 where
  parallel sequential staged : ExecutionStrategy

pub data VerificationStrategy : Type 0 where
  disk_artifacts command_output multi_step : VerificationStrategy

pub record ProposedTask : Type 0 where
  pub temp_id : String
  pub objective : String
  pub description : Option String
  pub criteria : List String
  pub required_capabilities : List String
  pub suggested_role : Option String
  pub priority : ℤ  -- i32

pub record ProposedDependency : Type 0 where
  pub task_temp_id : String
  pub depends_on_temp_id : String

pub record PlanProposal : Type 0 where
  pub objective : String
  pub rationale : String
  pub tasks : List ProposedTask
  pub dependencies : List ProposedDependency
  pub execution_strategy : ExecutionStrategy
  pub verification_strategy : VerificationStrategy

unfoldable pub new : (objective rationale : String) → PlanProposal
new objective rationale = record {
  objective = objective;
  rationale = rationale;
  tasks = [];
  dependencies = [];
  execution_strategy = parallel;
  verification_strategy = disk_artifacts;
}

unfoldable pub with_task : ProposedTask → PlanProposal → PlanProposal
with_task task p = record p { tasks = p.tasks ++ task ∷ [] }

unfoldable pub with_dependency :
    (task_temp_id depends_on_temp_id : String) → PlanProposal → PlanProposal
with_dependency task_temp_id depends_on_temp_id p = record p {
  dependencies =
      p.dependencies
      ++ (record { task_temp_id = task_temp_id; depends_on_temp_id = depends_on_temp_id }) ∷ [];
}

pub record PlannerBudgets : Type 0 where
  pub max_tasks_per_plan : ℕ  -- usize
  pub max_workflow_tasks : ℕ  -- usize
  pub max_decomposition_depth : ℕ  -- usize

unfoldable pub default_budgets : PlannerBudgets
default_budgets = record {
  max_tasks_per_plan = 50;
  max_workflow_tasks = 200;
  max_decomposition_depth = 15;
}

pub data PlanError : Type 0 where
  no_tasks : PlanError
  too_many_tasks : (max contained : ℕ) → PlanError
  workflow_full : (added max existing : ℕ) → PlanError
  empty_id : (index : ℕ) → PlanError
  duplicate_id empty_objective no_criteria : (id : String) → PlanError
  blank_criterion : (id : String) (number : ℕ) → PlanError
  self_dependency unknown_task unknown_prerequisite : (number : ℕ) (id : String) → PlanError

abbrev pub has_id : List String → String → Bool
has_id [] id = false
has_id (x ∷ xs) id = str_eq x id || has_id xs id

-- `if test { errors.push(e) }`
abbrev pub push_if : Bool → PlanError → List PlanError → List PlanError
push_if true e errors = errors ++ e ∷ []
push_if false e errors = errors

-- `for (c_idx, c) in task.criteria.iter().enumerate()`
unfoldable pub check_criteria :
    (id : String) (index : ℕ) → List String → List PlanError → List PlanError
unfolding trim
check_criteria id index [] errors = errors
check_criteria id index (c ∷ cs) errors =
    check_criteria id (index + 1) cs
      (push_if (is_empty (trim c)) (blank_criterion id (index + 1)) errors)

abbrev pub is_nil : {A : Type 0} → List A → Bool
is_nil [] = true
is_nil (x ∷ xs) = false

-- The objective and the criteria of a task.
unfoldable pub check_content : (id : String) → ProposedTask → List PlanError → List PlanError
unfolding trim check_criteria
check_content id task errors =
    let checked = push_if (is_empty (trim task.objective)) (empty_objective id) errors in
    if is_nil task.criteria
    then checked ++ no_criteria id ∷ []
    else check_criteria id 0 task.criteria checked

-- Steps 2 and 3: `for (idx, task) in proposal.tasks.iter().enumerate()`, with the set of identifiers.
unfoldable pub check_tasks :
    (index : ℕ) → List ProposedTask → List String → List PlanError → List String × List PlanError
unfolding trim check_content
check_tasks index [] ids errors = (ids, errors)
check_tasks index (task ∷ tasks) ids errors =
    let id = trim task.temp_id in
    if is_empty id
    then check_tasks (index + 1) tasks ids (errors ++ empty_id index ∷ [])
    else check_tasks (index + 1) tasks (if has_id ids id then ids else id ∷ ids)
        (check_content id task (push_if (has_id ids id) (duplicate_id id) errors))

-- Step 4: `for (d_idx, dep) in proposal.dependencies.iter().enumerate()`, its errors.
unfoldable pub check_dependencies :
    (index : ℕ) → List ProposedDependency → List String → List PlanError → List PlanError
unfolding trim
check_dependencies index [] ids errors = errors
check_dependencies index (dep ∷ deps) ids errors =
    let task_id = trim dep.task_temp_id in
    let depends_on_id = trim dep.depends_on_temp_id in
    if str_eq task_id depends_on_id
    then check_dependencies (index + 1) deps ids
        (errors ++ self_dependency (index + 1) task_id ∷ [])
    else check_dependencies (index + 1) deps ids (
        push_if (not (has_id ids depends_on_id)) (unknown_prerequisite (index + 1) depends_on_id)
          (push_if (not (has_id ids task_id)) (unknown_task (index + 1) task_id) errors))

unfoldable pub check_budget :
    PlannerBudgets → (existing_workflow_tasks : ℕ) → PlanProposal → List PlanError
check_budget budget existing p =
    push_if (ltb budget.max_workflow_tasks (existing + length p.tasks))
      (workflow_full (length p.tasks) budget.max_workflow_tasks existing)
      (push_if (ltb budget.max_tasks_per_plan (length p.tasks))
        (too_many_tasks budget.max_tasks_per_plan (length p.tasks)) [])

-- The errors of steps 1 to 4.
unfoldable pub check_plan :
    PlannerBudgets → (existing_workflow_tasks : ℕ) → PlanProposal → List PlanError
unfolding check_budget check_tasks check_dependencies
check_plan budget existing p =
    if is_nil p.tasks
    then no_tasks ∷ []
    else let (ids, errors) = check_tasks 0 p.tasks [] (check_budget budget existing p) in
      check_dependencies 0 p.dependencies ids errors
