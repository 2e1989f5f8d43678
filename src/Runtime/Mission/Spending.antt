-- ===== src/Runtime/Mission/Spending.antt =====
-- A budget that is used up stays so (crates/plexis-runtime/src/mission/budget.rs).
use axonel.Prelude.{ℕ, ◌+◌, ◌<◌, ◌^◌, ◌≡◌, Bool, true, ◌||◌, leb, is_some, List, [], ◌∷◌, arith}
use axonel.Core.Budget.{has_exhausted}
use axonel.Runtime.Mission.{
  BudgetTracker, record_execution, record_duration, record_recovery, record_planner_iteration,
  record_stagnant_cycle, reset_stagnant_cycles, check_exhaustion,
}

-- The calls on a tracker.
pub data Spend : Type 0 where
  execution recovery iteration stagnant_cycle progress : Spend
  elapsed : ℕ → Spend

unfoldable pub spend : Spend → BudgetTracker → BudgetTracker
spend execution t = record_execution t
spend recovery t = record_recovery t
spend iteration t = record_planner_iteration t
spend stagnant_cycle t = record_stagnant_cycle t
spend progress t = reset_stagnant_cycles t
spend (elapsed secs) t = record_duration secs t

-- The counter that a call raises has room.
abbrev pub Fits : Spend → BudgetTracker → Type 0
Fits execution t = t.consumed.total_executions + 1 < 2 ^ 32
Fits recovery t = t.consumed.recovery_attempts + 1 < 2 ^ 32
Fits iteration t = t.consumed.planner_iterations + 1 < 2 ^ 32
Fits stagnant_cycle t = t.consumed.stagnant_cycles + 1 < 2 ^ 32
Fits progress t = Unit
Fits (elapsed secs) t = t.consumed.duration_secs + secs < 2 ^ 64

pub spend_all : List Spend → BudgetTracker → BudgetTracker
spend_all [] t = t
spend_all (x ∷ xs) t = spend_all xs (spend x t)

unfoldable pub AllFit : List Spend → BudgetTracker → Type 0
AllFit [] t = Unit
AllFit (x ∷ xs) t = Fits x t × AllFit xs (spend x t)

-- One of the limits that progress does not lift is reached.
abbrev pub is_spent : BudgetTracker → Bool
is_spent t =
    leb t.budget.max_duration_secs t.consumed.duration_secs
    || (leb t.budget.max_executions t.consumed.total_executions
        || (leb t.budget.max_recovery_attempts t.consumed.recovery_attempts
            || leb t.budget.max_planner_iterations t.consumed.planner_iterations))

spent_stays :
    (x : Spend) (t : BudgetTracker) → Fits x t → is_spent t ≡ true → is_spent (spend x t) ≡ true
unfolding spend record_execution record_duration record_recovery record_planner_iteration
    record_stagnant_cycle reset_stagnant_cycles
spent_stays x t f h = ground arith

spent_is_exhausted : (t : BudgetTracker) → is_spent t ≡ true → is_some (check_exhaustion t) ≡ true
unfolding check_exhaustion has_exhausted
spent_is_exhausted t h = ground arith

-- Once the time, the executions, the recoveries or the planner iterations of a mission are used
-- up, `check_exhaustion` gives a reason after any further calls, `reset_stagnant_cycles` among
-- them, as long as no counter wraps on the way.
pub exhaustion_lasts :
    (xs : List Spend) (t : BudgetTracker)
    → is_spent t ≡ true
    → AllFit xs t
    → is_some (check_exhaustion (spend_all xs t)) ≡ true
unfolding spend_all AllFit
exhaustion_lasts [] t h f = spent_is_exhausted t h
exhaustion_lasts (x ∷ xs) t h f = exhaustion_lasts xs (spend x t) (spent_stays x t f.0 h) f.1
