-- ===== src/Core/Mission.antt =====
-- crates/plexis-core/src/mission.rs: the mission, its cycles and its checkpoints. Texts that the
-- engine makes up are data here (`Note`, `Reason`), with what they report. `J` stands for
-- `serde_json::Value`.
use axonel.Prelude.{ℕ, String, Bool, true, Option, none, some, List, []}
use axonel.Core.Ids.{MissionId, WorkspaceId, WorkflowId, TaskId, ExecutionId, CheckpointId, Instant}
use axonel.Core.State.Task.{TaskState}
use axonel.Core.State.Mission.{MissionState}
use axonel.Core.Budget.{
  MissionHealth, MissionBudget, MissionBudgetConsumed, Limit, default_budget, nothing_consumed,
}

pub record StoppingCondition : Type 0 where
  pub required_tests_pass : Bool
  pub working_tree_clean : Bool
  pub required_commit_exists : Bool
  pub custom_verifier : Option String

unfoldable pub default_condition : StoppingCondition
default_condition = record {
  required_tests_pass = true;
  working_tree_clean = true;
  required_commit_exists = true;
  custom_verifier = none;
}

-- What the outcome of a mission or of a cycle says.
pub data Note : Type 0 where
  halted_by : Limit → Note
  verified_after : ℕ → Note
  conditions_verified : Note
  replanning_after_failure replanning_after_completion : Note

-- Why a human is called.
pub data Reason : Type 0 where
  operator : String → Reason
  task_escalated : TaskId → Option String → Reason
  provider_unavailable : String → Reason
  stagnation : ℕ → Option String → Reason

pub record MissionOutcome : Type 0 where
  pub success : Bool
  pub summary : Note
  pub verified_commit_sha : Option String
  pub cycles_count : ℕ  -- u32
  pub completion_reason : Note

pub record Mission (J : Type 0) : Type 0 where
  pub id : MissionId
  pub workspace_id : Option WorkspaceId
  pub active_workflow_id : Option WorkflowId
  pub title : String
  pub objective : String
  pub state : MissionState
  pub cycle_index : ℕ  -- u32
  pub budget : MissionBudget
  pub budget_consumed : MissionBudgetConsumed
  pub health_status : MissionHealth
  pub stopping_condition : StoppingCondition
  pub latest_verified_commit : Option String
  pub final_outcome : Option MissionOutcome
  pub escalation_reason : Option Reason
  pub metadata : J
  pub created_at : Instant
  pub updated_at : Instant

module _ {J : Type 0} where
  -- `empty` is the empty JSON object, `id` the fresh UUID.
  unfoldable pub new : J → MissionId → Instant → String → String → Mission J
  new empty id now title objective = record {
    id = id;
    workspace_id = none;
    active_workflow_id = none;
    title = title;
    objective = objective;
    state = MissionState.created;
    cycle_index = 0;
    budget = default_budget;
    budget_consumed = nothing_consumed;
    health_status = MissionHealth.healthy;
    stopping_condition = default_condition;
    latest_verified_commit = none;
    final_outcome = none;
    escalation_reason = none;
    metadata = empty;
    created_at = now;
    updated_at = now;
  }

  unfoldable pub with_workspace_id : WorkspaceId → Mission J → Mission J
  with_workspace_id workspace_id m = record m { workspace_id = some workspace_id }

  unfoldable pub with_budget : MissionBudget → Mission J → Mission J
  with_budget budget m = record m { budget = budget }

  unfoldable pub with_stopping_condition : StoppingCondition → Mission J → Mission J
  with_stopping_condition condition m = record m { stopping_condition = condition }

  unfoldable pub with_metadata : J → Mission J → Mission J
  with_metadata metadata m = record m { metadata = metadata }

  unfoldable pub set_state : Instant → MissionState → Mission J → Mission J
  set_state now state m = record m { state = state; updated_at = now }

-- The context for the planner is what its JSON object is made of.
pub data PlannerContext : Type 0 where
  condition_satisfied : PlannerContext
  progress : (cycle_index completed total : ℕ) → Bool → PlannerContext

pub record MissionCheckpoint : Type 0 where
  pub id : CheckpointId
  pub mission_id : MissionId
  pub cycle_index : ℕ  -- u32
  pub workflow_id : WorkflowId
  pub task_states_summary : List (TaskId × TaskState)
  pub active_executions : List ExecutionId
  pub completed_tasks : List TaskId
  pub unresolved_tasks : List TaskId
  pub budget_consumed : MissionBudgetConsumed
  pub latest_verified_commit : Option String
  pub planner_context : Option PlannerContext
  pub created_at : Instant

unfoldable pub new_checkpoint :
    CheckpointId
    → Instant
    → MissionId
    → ℕ
    → WorkflowId
    → List (TaskId × TaskState)
    → MissionBudgetConsumed
    → MissionCheckpoint
new_checkpoint id now mission_id cycle_index workflow_id task_states_summary consumed = record {
  id = id;
  mission_id = mission_id;
  cycle_index = cycle_index;
  workflow_id = workflow_id;
  task_states_summary = task_states_summary;
  active_executions = [];
  completed_tasks = [];
  unresolved_tasks = [];
  budget_consumed = consumed;
  latest_verified_commit = none;
  planner_context = none;
  created_at = now;
}

-- The identifier is the text of the mission's and the index, so it is the two of them here.
pub record MissionCycle : Type 0 where
  pub mission_id : MissionId
  pub cycle_index : ℕ  -- u32
  pub workflow_id : WorkflowId
  pub phase : String
  pub started_at : Instant
  pub completed_at : Option Instant
  pub outcome : Option Note
  pub discovered_tasks_count : ℕ  -- u32

unfoldable pub new_cycle : Instant → MissionId → ℕ → WorkflowId → String → MissionCycle
new_cycle now mission_id cycle_index workflow_id phase = record {
  mission_id = mission_id;
  cycle_index = cycle_index;
  workflow_id = workflow_id;
  phase = phase;
  started_at = now;
  completed_at = none;
  outcome = none;
  discovered_tasks_count = 0;
}
