-- ===== src/Runtime/Mission.antt =====
-- crates/plexis-runtime/src/mission/budget.rs and liveness.rs: what a mission uses up, and whether it
-- gets on. The counters wrap, as in a release build. A commit is the text of its hash.
pub mod Spending
pub mod Stagnation
use text.Mathlib.Text.{◌==◌ as str_eq}
use axonel.Prelude.{
  ℕ, ◌+◌, ◌%◌, ◌^◌, String, Bool, true, false, not, ◌&&◌, ◌||◌, ltb, leb, if◌then◌else◌, Option,
  none, some, is_some,
}
use axonel.Core.Ids.{Instant}
use axonel.Core.Budget.{
  MissionHealth, healthy, stagnant, degraded, MissionBudget, MissionBudgetConsumed, Limit,
  has_exhausted,
}

pub record BudgetTracker : Type 0 where
  pub budget : MissionBudget
  pub consumed : MissionBudgetConsumed

unfoldable pub record_execution : BudgetTracker → BudgetTracker
record_execution t = record t {
  consumed = record t.consumed { total_executions = (t.consumed.total_executions + 1) % 2 ^ 32 };
}

unfoldable pub record_duration : ℕ → BudgetTracker → BudgetTracker
record_duration elapsed_secs t = record t {
  consumed = record t.consumed {
    duration_secs = (t.consumed.duration_secs + elapsed_secs) % 2 ^ 64;
  };
}

unfoldable pub record_recovery : BudgetTracker → BudgetTracker
record_recovery t = record t {
  consumed = record t.consumed { recovery_attempts = (t.consumed.recovery_attempts + 1) % 2 ^ 32 };
}

unfoldable pub record_planner_iteration : BudgetTracker → BudgetTracker
record_planner_iteration t = record t {
  consumed = record t.consumed {
    planner_iterations = (t.consumed.planner_iterations + 1) % 2 ^ 32;
  };
}

unfoldable pub record_stagnant_cycle : BudgetTracker → BudgetTracker
record_stagnant_cycle t = record t {
  consumed = record t.consumed { stagnant_cycles = (t.consumed.stagnant_cycles + 1) % 2 ^ 32 };
}

unfoldable pub reset_stagnant_cycles : BudgetTracker → BudgetTracker
reset_stagnant_cycles t = record t { consumed = record t.consumed { stagnant_cycles = 0 } }

unfoldable pub check_exhaustion : BudgetTracker → Option Limit
unfolding has_exhausted
check_exhaustion t = has_exhausted t.consumed t.budget

pub record ProgressSnapshot : Type 0 where
  pub completed_tasks_count : ℕ
  pub task_graph_node_count : ℕ
  pub latest_git_commit : Option String
  pub timestamp : Instant

-- `!=` on `Option<String>`
abbrev pub same_commit : Option String → Option String → Bool
same_commit none none = true
same_commit (some a) (some b) = str_eq a b
same_commit _ _ = false

unfoldable pub has_progressed_from : ProgressSnapshot → ProgressSnapshot → Bool
has_progressed_from current previous =
    ltb previous.completed_tasks_count current.completed_tasks_count
    || (ltb previous.task_graph_node_count current.task_graph_node_count
        || (is_some current.latest_git_commit
            && not (same_commit current.latest_git_commit previous.latest_git_commit)))

pub record LivenessEvaluator : Type 0 where
  pub last_progress : ProgressSnapshot
  pub consecutive_stagnant_cycles : ℕ  -- u32
  pub max_stagnant_cycles : ℕ  -- u32

unfoldable pub new_evaluator : ℕ → ProgressSnapshot → LivenessEvaluator
new_evaluator max_stagnant_cycles initial_snapshot = record {
  last_progress = initial_snapshot;
  consecutive_stagnant_cycles = 0;
  max_stagnant_cycles = max_stagnant_cycles;
}

unfoldable pub evaluate :
    ProgressSnapshot → LivenessEvaluator → LivenessEvaluator × (MissionHealth × Bool)
unfolding has_progressed_from
evaluate current v =
    if has_progressed_from current v.last_progress
    then (record v { consecutive_stagnant_cycles = 0; last_progress = current }, (healthy, true))
    else (let cycles = (v.consecutive_stagnant_cycles + 1) % 2 ^ 32 in
        (
          record v { consecutive_stagnant_cycles = cycles },
          (if leb v.max_stagnant_cycles cycles then stagnant else degraded, false),
        ))
