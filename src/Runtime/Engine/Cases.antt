-- ===== src/Runtime/Engine/Cases.antt =====
-- The ways in which the parts of a step of crates/plexis-runtime/src/mission/engine.rs end.
use axonel.Prelude.{
  ℕ, zero, suc, ◌+◌, ◌%◌, ◌^◌, ◌<◌, ◌≡◌, refl, Option, none, some, is_some, ok, err, ◌⊎◌, inl, inr,
  arith, ap, Option-cases, Bool-cases, Outcome-cases,
}
use axonel.Prelude.Map
use axonel.Core.Ids.{MissionId, WorkflowId}
use axonel.Core.Mission.{Mission}
use axonel.Runtime.Mission.{BudgetTracker, record_execution}
use axonel.Runtime.Engine.Store.{Store, EngineError, create_workflow}
use axonel.Runtime.Engine.Cycle.{
  WorkflowExecutionSummary, Executor, Env, record_executions, tracker_of, cycle_workflow,
  ensure_workflow, run_cycle, counted,
}
use axonel.Runtime.Engine.Rows.{row, Unmoved, Unmoved-refl}
use axonel.Runtime.Engine.Frames.{Frame, Frame-refl}

-- What the execution of a cycle, and the choice of its workflow, leave of a mission.
pub record Same {J : Type 0} (m n : Mission J) : Type 0 where
  pub frame : Frame m n
  pub same_state : n.state ≡ m.state
  pub same_stagnation : n.budget_consumed.stagnant_cycles ≡ m.budget_consumed.stagnant_cycles

-- The executor, which runs tasks, leaves the mission's row alone and the set of running missions.
unfoldable pub LeavesMissions : {J : Type 0} → MissionId → Env J → Type 0
LeavesMissions {J} id env =
    (execute : Executor J)
    → env.executor ≡ some execute
    → (w : WorkflowId) (s : Store J)
    → (row id (execute w id s).0 ≡ row id s) × ((execute w id s).0.running ≡ s.running)

-- Executions count towards their own limit alone.
pub record_executions-others :
    (n : ℕ) (t : BudgetTracker)
    → let u = record_executions n t in
      u.consumed ≡ record t.consumed { total_executions = u.consumed.total_executions }
unfolding record_executions record_execution
record_executions-others zero t = refl
record_executions-others (suc n) t = record_executions-others n (record_execution t)

pub record_executions-total :
    (n : ℕ) (t : BudgetTracker)
    → t.consumed.total_executions < 2 ^ 32
    → (record_executions n t).consumed.total_executions ≡ (t.consumed.total_executions + n) % 2 ^ 32
unfolding record_executions record_execution
record_executions-total zero t h = omega (arith, h)
record_executions-total (suc n) t h =
    let rest = record_executions-total n (record_execution t) (omega arith) in omega (arith, rest)

module _ {J : Type 0} where
  pub ensure_workflow_cases :
      (env : Env J) (m : Mission J) (s : Store J)
      → ((e : EngineError) × (ensure_workflow env m s ≡ (s, err e)))
        ⊎ ((t : Store J) × (n : Mission J) × (w : WorkflowId) × (ensure_workflow env m s
              ≡ (t, ok (n, w)))
            × Unmoved s t
            × Same m n)
  unfolding ensure_workflow create_workflow
  ensure_workflow_cases env m s = elim (Option-cases m.active_workflow_id) [
    | inr (w, e) ↦ inr (
      s,
      m,
      w,
      ground arith,
      Unmoved-refl s,
      record { frame = Frame-refl m; same_state = refl; same_stagnation = refl },
    )
    | inl e ↦ elim (Bool-cases (is_some (Map.get s.workflows (cycle_workflow env m s).id))) [
      | inl taken ↦ inl (EngineError.storage, ground arith)
      | inr free ↦ inr (
        record s {
          workflows = Map.insert (cycle_workflow env m s).id (cycle_workflow env m s) s.workflows;
        },
        record m { active_workflow_id = some env.workflow_id },
        env.workflow_id,
        ground arith,
        record { missions = refl; running = refl },
        record {
          frame = record {
            same_id = refl;
            same_creation = refl;
            same_budget = refl;
            same_duration = refl;
            same_recoveries = refl;
            same_condition = refl;
          };
          same_state = refl;
          same_stagnation = refl;
        },
      )
    ]
  ]

  counted-Same : (m : Mission J) (t : BudgetTracker) → Same m (counted m t)
  counted-Same m t = record {
    frame = record {
      same_id = refl;
      same_creation = refl;
      same_budget = refl;
      same_duration = refl;
      same_recoveries = refl;
      same_condition = refl;
    };
    same_state = refl;
    same_stagnation = refl;
  }

  pub run_cycle_cases :
      (env : Env J) (id : MissionId) (w : WorkflowId) (m : Mission J) (s : Store J)
      → LeavesMissions id env
      → ((e : EngineError) × (t : Store J) × (run_cycle env id w m s ≡ (t, err e))
          × (row id t ≡ row id s))
        ⊎ ((t : Store J) × (n : Mission J) × (b : BudgetTracker) × (summary : Option
              WorkflowExecutionSummary)
            × (run_cycle env id w m s ≡ (t, ok (n, (b, summary))))
            × (row id t ≡ row id s)
            × (t.running ≡ s.running)
            × Same m n
            × (b.consumed ≡ n.budget_consumed))
  unfolding run_cycle LeavesMissions record_execution tracker_of
  run_cycle_cases env id w m s leaves = elim (Option-cases env.executor) [
    | inl none_there ↦ inr (
      s,
      counted m (record_execution (tracker_of m)),
      record_execution (tracker_of m),
      none,
      ground arith,
      refl,
      refl,
      counted-Same m (record_execution (tracker_of m)),
      refl,
    )
    | inr (execute, there) ↦ elim (Outcome-cases (execute w id s)) [
      | inl (t, summary, e) ↦
          let b = record_executions summary.executed_tasks_count (tracker_of m) in
          inr (
            t,
            counted m b,
            b,
            some summary,
            ground arith,
            cc ((leaves execute there w s).0, ap (λ o. row id o.0) e),
            cc ((leaves execute there w s).1, ap (λ o. o.0.running) e),
            counted-Same m b,
            record_executions-others summary.executed_tasks_count (tracker_of m),
          )
      | inr (t, e, r) ↦
          inl (e, t, ground arith, cc ((leaves execute there w s).0, ap (λ o. row id o.0) r))
    ]
  ]
