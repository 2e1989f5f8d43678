-- ===== src/Core/Budget.antt =====
-- crates/plexis-core/src/mission.rs: the budget of a mission and what it has consumed.
use axonel.Prelude.{ℕ, leb, if◌then◌else◌, Option, none, some}

pub data MissionHealth : Type 0 where
  healthy stagnant stalled degraded escalated : MissionHealth

pub record MissionBudget : Type 0 where
  pub max_duration_secs : ℕ  -- u64
  pub max_concurrent_agents : ℕ
  pub max_executions : ℕ  -- u32
  pub max_recovery_attempts : ℕ  -- u32
  pub max_planner_iterations : ℕ  -- u32
  pub max_stagnant_cycles : ℕ  -- u32

unfoldable pub default_budget : MissionBudget
default_budget = record {
  max_duration_secs = 3600;
  max_concurrent_agents = 4;
  max_executions = 20;
  max_recovery_attempts = 5;
  max_planner_iterations = 10;
  max_stagnant_cycles = 3;
}

pub record MissionBudgetConsumed : Type 0 where
  pub duration_secs : ℕ  -- u64
  pub total_executions : ℕ  -- u32
  pub recovery_attempts : ℕ  -- u32
  pub planner_iterations : ℕ  -- u32
  pub stagnant_cycles : ℕ  -- u32

-- Which limit the text of the reason names.
pub data Limit : Type 0 where
  duration executions recoveries iterations stagnation : Limit

unfoldable pub has_exhausted : MissionBudgetConsumed → MissionBudget → Option Limit
has_exhausted consumed budget =
    if leb budget.max_duration_secs consumed.duration_secs
    then some duration
    else if leb budget.max_executions consumed.total_executions
    then some executions
    else if leb budget.max_recovery_attempts consumed.recovery_attempts
    then some recoveries
    else if leb budget.max_planner_iterations consumed.planner_iterations
    then some iterations
    else if leb budget.max_stagnant_cycles consumed.stagnant_cycles
    then some stagnation
    else none

-- `MissionBudgetConsumed::default()`
unfoldable pub nothing_consumed : MissionBudgetConsumed
nothing_consumed = record {
  duration_secs = 0;
  total_executions = 0;
  recovery_attempts = 0;
  planner_iterations = 0;
  stagnant_cycles = 0;
}
