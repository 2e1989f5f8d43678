-- ===== src/Runtime/Engine/Progress.antt =====
-- How the last parts of a step of crates/plexis-runtime/src/mission/engine.rs end: the mission verified,
-- called stagnant, or with a step to come.
use axonel.Prelude.{
  ℕ, ◌≡◌, refl, Bool, true, Option, some, List, inl, inr, arith, ap, Bool-cases, ◌∙◌, String,
  length,
}
use axonel.Core.Ids.{MissionId, WorkflowId}
use axonel.Core.State.Mission.{
  MissionState, MissionState-discrete, replanning, transition_to, can_transition_to,
}
use axonel.Core.Task.{Task}
use axonel.Core.Mission.{Mission, stagnation, progress, condition_satisfied}
use axonel.Runtime.Mission.{BudgetTracker, record_planner_iteration}
use axonel.Runtime.Engine.Store.{
  Store, update_mission, emit, unmark_running, stagnation_detected, verification_passed,
  create_cycle,
}
use axonel.Runtime.Engine.Control.{try_move, escalated}
use axonel.Runtime.Engine.Cycle.{WorkflowExecutionSummary, Env, active_in}
use axonel.Runtime.Engine.Review.{
  accepted, accept, record_verification, verification_cycle, create_checkpoint,
}
use axonel.Runtime.Engine.Step.{
  stagnate, replanned, next_cycle, keep, completed_count, cycle_ends, journal, last_error,
}
use axonel.Runtime.Engine.Rows.{
  row, Unmoved, Unmoved-refl, Unmoved-trans, row-Unmoved, create_cycle-Unmoved,
  create_checkpoint-Unmoved, running-update_mission, row-update_mission, unmarked,
}
use axonel.Runtime.Engine.Frames.{Frame, Frame-refl, Frame-trans, is_driven}
use axonel.Runtime.Engine.Endings.{Stopped, Stopped-reload, escalate_human-Stopped}

replanning_is_driven :
    (st : MissionState) → is_driven st ≡ true → is_driven (transition_to st replanning).0 ≡ true
unfolding transition_to can_transition_to MissionState-discrete is_driven
replanning_is_driven st h = ground arith

module _ {J : Type 0} where
  accepted-Frame : (commit : Option String) (m : Mission J) → Frame m (accepted commit m)
  unfolding accepted try_move
  accepted-Frame commit m = record {
    same_id = refl;
    same_creation = refl;
    same_budget = refl;
    same_duration = refl;
    same_recoveries = refl;
    same_condition = refl;
  }

  record_verification-Unmoved :
      (env : Env J) (id : MissionId) (w : WorkflowId) (summary : Option WorkflowExecutionSummary)
      (commit : Option String) (m : Mission J) (s : Store J)
      → Unmoved s (record_verification env id w summary commit m s)
  unfolding record_verification emit
  record_verification-Unmoved env id w summary commit m s =
      let c = verification_cycle env id w summary m.cycle_index in
      let s₁ = emit (verification_passed id commit) s in
      let f = create_cycle-Unmoved c s₁ in
      Unmoved-trans (record { missions = f.missions; running = f.running })
        (create_checkpoint-Unmoved env id m.cycle_index w m.budget_consumed commit
          (active_in summary) condition_satisfied (create_cycle c s₁))

  -- The stored row is `r`, what the step made of it `m`.
  pub accept-Stopped :
      (env : Env J) (id : MissionId) (w : WorkflowId) (summary : Option WorkflowExecutionSummary)
      (commit : Option String) (r m : Mission J) (s : Store J)
      → r.id ≡ id
      → row id s ≡ some r
      → Frame r m
      → Stopped id r (accepted commit m) (accept env id w summary commit m s)
  unfolding accept emit unmark_running
  accept-Stopped env id w summary commit r m s i h f =
      let g = Frame-trans f (accepted-Frame commit m) in
      let s₁ = record_verification env id w summary commit m s in
      let kept = row-Unmoved id (record_verification-Unmoved env id w summary commit m s) h in
      record {
        returned = refl;
        stored =
            row-update_mission id (accepted commit m) r s₁ (g.same_id ∙ i) kept g.same_creation;
        not_running = unmarked id (update_mission (accepted commit m) s₁);
        frame = g;
      }

  pub stagnate-Stopped :
      (env : Env J) (id : MissionId) (cycles : ℕ) (ts : List (Task J)) (r : Mission J) (s : Store J)
      → r.id ≡ id
      → row id s ≡ some r
      → (error : Option String) × Stopped id r
          (escalated env.json (stagnation cycles error) r)
          (stagnate env id cycles ts s)
  unfolding stagnate emit
  stagnate-Stopped env id cycles ts r s i h =
      let s₁ = emit (stagnation_detected id cycles) s in
      let error = last_error s₁ ts in
      (error, Stopped-reload (escalate_human-Stopped env id (stagnation cycles error) r s₁ i h))

  pub keep-stores :
      (env : Env J) (id : MissionId) (w : WorkflowId) (summary : Option WorkflowExecutionSummary)
      (failed : Bool) (ts : List (Task J)) (commit : Option String) (r m : Mission J) (s : Store J)
      → m.id ≡ id
      → row id s ≡ some r
      → m.created_at ≡ r.created_at
      → let o = keep env id w summary failed ts commit m s in
        (row id o.0 ≡ some m) × (o.0.running ≡ s.running)
  unfolding keep emit
  keep-stores env id w summary failed ts commit r m s i h same =
      let context = progress m.cycle_index (completed_count ts) (length ts) failed in
      let s₁ =
        create_checkpoint env id m.cycle_index w m.budget_consumed commit (active_in summary)
          context s in
      let f =
        create_checkpoint-Unmoved env id m.cycle_index w m.budget_consumed commit
          (active_in summary) context s in
      (
        row-update_mission id m r s₁ i (row-Unmoved id f h) same,
        running-update_mission m s₁ ∙ f.running,
      )

  -- What the next cycle, or the same one, starts from.
  pub record Carried (m n : Mission J) (s t : Store J) : Type 0 where
    pub unmoved : Unmoved s t
    pub carried : Frame m n
    pub stagnation_kept : n.budget_consumed.stagnant_cycles ≡ m.budget_consumed.stagnant_cycles
    pub driven : is_driven m.state ≡ true → is_driven n.state ≡ true

  pub next_cycle-Carried :
      (env : Env J) (id : MissionId) (w : WorkflowId) (summary : Option WorkflowExecutionSummary)
      (failed : Bool) (ts : List (Task J)) (t : BudgetTracker) (m : Mission J) (s : Store J)
      → t.consumed ≡ m.budget_consumed
      → let next = next_cycle env id w summary failed ts t m s in Carried m next.1 s next.0
  unfolding next_cycle emit replanned try_move record_planner_iteration
  next_cycle-Carried env id w summary failed ts t m s e = elim (Bool-cases (cycle_ends failed ts)) [
    | inr stays ↦ rw stays (record {
      unmoved = Unmoved-refl s;
      carried = Frame-refl m;
      stagnation_kept = refl;
      driven = λ d. d;
    })
    | inl ends ↦ rw ends (record {
      unmoved =
          let f = create_cycle-Unmoved (journal env id w summary failed m.cycle_index) s in
          record { missions = f.missions; running = f.running };
      carried = record {
        same_id = refl;
        same_creation = refl;
        same_budget = refl;
        same_duration = ap (λ c. c.duration_secs) e;
        same_recoveries = ap (λ c. c.recovery_attempts) e;
        same_condition = refl;
      };
      stagnation_kept = ap (λ c. c.stagnant_cycles) e;
      driven = replanning_is_driven m.state;
    })
  ]
