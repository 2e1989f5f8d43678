-- ===== src/Runtime/Engine/Outcomes.antt =====
-- How a step of crates/plexis-runtime/src/mission/engine.rs ends, and what it leaves in the store.
use axonel.Prelude.{
  ◌≡◌, refl, true, ◌||◌, Option, none, some, ok, err, inl, inr, ap, Option-cases, Bool-cases, ◌∙◌,
}
use axonel.Core.Ids.{MissionId, WorkflowId}
use axonel.Core.Budget.{Limit}
use axonel.Core.State.Mission.{needs_human, is_terminal}
use axonel.Core.Mission.{Mission}
use axonel.Runtime.Mission.{BudgetTracker, check_exhaustion}
use axonel.Runtime.Engine.Store.{Store, Outcome, EngineError}
use axonel.Runtime.Engine.Control.{is_state}
use axonel.Runtime.Engine.Cycle.{
  WorkflowExecutionSummary, Env, begin_cycle, tracker_of, workspace_path, ensure_workflow,
  run_cycle,
}
use axonel.Runtime.Engine.Step.{work, step_mission}
use axonel.Runtime.Engine.Rows.{row, row-Unmoved, get_mission-row}
use axonel.Runtime.Engine.Frames.{Frame-trans, begin_cycle-Frame, consumed-begin_cycle}
use axonel.Runtime.Engine.Verdicts.{ReviewCase, review-ReviewCase}
use axonel.Runtime.Engine.Cases.{LeavesMissions, ensure_workflow_cases, run_cycle_cases}
use axonel.Runtime.Engine.Endings.{Stopped, halted, halt-Stopped}

-- The cycle that the step on the stored mission `m` runs: the workflow, the mission with its executions
-- counted, and the store that the executor leaves.
pub record Cycled {J : Type 0} (env : Env J) (id : MissionId) (m : Mission J) (s : Store J)
    : Type 0 where
  pub before : Store J
  pub owner : Mission J
  pub workflow : WorkflowId
  pub after : Store J
  pub mission : Mission J
  pub tracker : BudgetTracker
  pub summary : Option WorkflowExecutionSummary
  pub owned : ensure_workflow env (begin_cycle m) s ≡ (before, ok (owner, workflow))
  pub ran : run_cycle env id workflow owner before ≡ (after, ok (mission, (tracker, summary)))
  pub state : mission.state ≡ (begin_cycle m).state
  pub still_running : after.running ≡ s.running

-- The ends of a step on the stored mission `m`.
pub data StepCase {J : Type 0} (env : Env J) (id : MissionId) (m : Mission J) (s : Store J)
    (o : Outcome J (Mission J)) : Type 0 where
  fails : (e : EngineError) → o.1 ≡ err e → row id o.0 ≡ some m → StepCase env id m s o
  rests :
      (is_terminal m.state || is_state m.state needs_human) ≡ true
      → o.1 ≡ ok m
      → row id o.0 ≡ some m
      → StepCase env id m s o
  halts :
      (limit : Limit)
      → check_exhaustion (tracker_of m) ≡ some limit
      → Stopped id m (halted limit m) o
      → StepCase env id m s o
  reviews :
      check_exhaustion (tracker_of m) ≡ none
      → (c : Cycled env id m s)
      → ReviewCase env id (workspace_path m s) c.workflow m c.mission c.after o
      → StepCase env id m s o

module _ {J : Type 0} where
  work-StepCase :
      (env : Env J) (id : MissionId) (m : Mission J) (s : Store J)
      → LeavesMissions id env
      → m.id ≡ id
      → row id s ≡ some m
      → check_exhaustion (tracker_of m) ≡ none
      → StepCase env id m s (work env id m s)
  unfolding work
  work-StepCase env id m s leaves i h x = elim (ensure_workflow_cases env (begin_cycle m) s) [
    | inl (e, broke) ↦ rw broke (fails e refl h)
    | inr (s₁, n, w, owned, kept, same) ↦
        let h₁ = row-Unmoved id kept h in
        elim (run_cycle_cases env id w n s₁ leaves) [
          | inl (e, s₂, broke, k) ↦ rw (owned, broke) (fails e refl (k ∙ h₁))
          | inr (s₂, n', t, summary, ran, k, still, same', tracked) ↦
              rw (owned, ran)
                (reviews x
                  (record {
                    before = s₁;
                    owner = n;
                    workflow = w;
                    after = s₂;
                    mission = n';
                    tracker = t;
                    summary = summary;
                    owned = owned;
                    ran = ran;
                    state = same'.same_state ∙ same.same_state;
                    still_running = still ∙ kept.running;
                  })
                  (review-ReviewCase env id w (workspace_path m s) summary t m n' s₂ i (k ∙ h₁)
                    (record {
                      frame =
                          Frame-trans (begin_cycle-Frame m) (Frame-trans same.frame same'.frame);
                      same_stagnation =
                          same'.same_stagnation
                          ∙ same.same_stagnation
                          ∙ ap (λ c. c.stagnant_cycles) (consumed-begin_cycle m);
                      within = x;
                      tracked = tracked;
                      state = same'.same_state ∙ same.same_state;
                    })))
        ]
  ]

  -- A step on a mission that is stored under its identifier ends in one of the ways of `StepCase`,
  -- where the executor leaves missions alone: with an error and the mission as it was; at once, if it
  -- is over or with a human; halted, if its budget is used up; or, after the cycle that it runs,
  -- verified, if the stopping condition is met at the path that the tasks then give, with the commit
  -- found there or the candidate's; handed to a human, if the condition is not met and a task or a
  -- provider asks for one or the stagnant cycles reach the limit; or else with one stagnant cycle more,
  -- below the limit, still in the set of running missions.
  pub step_mission-StepCase :
      (env : Env J) (id : MissionId) (m : Mission J) (s : Store J)
      → LeavesMissions id env
      → m.id ≡ id
      → row id s ≡ some m
      → StepCase env id m s (step_mission env id s)
  unfolding step_mission
  step_mission-StepCase env id m s leaves i h =
      elim (Bool-cases (is_terminal m.state || is_state m.state needs_human)) [
        | inl over ↦ rw (get_mission-row id m s h, over) (rests over refl h)
        | inr going ↦ elim (Option-cases (check_exhaustion (tracker_of m))) [
          | inr (limit, e) ↦
              rw (get_mission-row id m s h, going, e)
                (halts limit e (halt-Stopped id limit m s i h))
          | inl e ↦ rw (get_mission-row id m s h, going, e) (work-StepCase env id m s leaves i h e)
        ]
      ]
