-- ===== src/Runtime/Engine/Uncounted.antt =====
-- What the escalations of a step of crates/plexis-runtime/src/mission/engine.rs do to the budget.
use axonel.Prelude.{◌+◌, ◌^◌, ◌<◌, ◌≡◌, refl, true, false, Option, some, ok, arith, ◌∙◌, ap, sym}
use axonel.Core.Ids.{MissionId}
use axonel.Core.State.Mission.{
  MissionState, MissionState-discrete, running, verifying, awaiting_acceptance, needs_human,
  budget_exhausted, transition_to, can_transition_to,
}
use axonel.Core.Mission.{Mission}
use axonel.Runtime.Engine.Store.{Store}
use axonel.Runtime.Engine.Control.{try_move, escalated}
use axonel.Runtime.Engine.Cycle.{Env, begin_cycle}
use axonel.Runtime.Engine.Review.{accepted}
use axonel.Runtime.Engine.Step.{step_mission}
use axonel.Runtime.Engine.Rows.{row}
use axonel.Runtime.Engine.Frames.{is_driven, begin_cycle-is_driven}
use axonel.Runtime.Engine.Cases.{LeavesMissions}
use axonel.Runtime.Engine.Endings.{halted}
use axonel.Runtime.Engine.Verdicts.{verifies, calls, continues}
use axonel.Runtime.Engine.Outcomes.{fails, rests, halts, reviews, step_mission-StepCase}
use axonel.Runtime.Engine.Rounds.{
  driven_goes, still_driven, step_mission-Round, breaks, is_over, goes_on, is_settled,
}

halted_state :
    (st : MissionState)
    → is_driven st ≡ true
    → (transition_to st budget_exhausted).0 ≡ budget_exhausted
unfolding transition_to can_transition_to MissionState-discrete is_driven
halted_state st h = ground arith

awaiting_state :
    (transition_to (transition_to running verifying).0 awaiting_acceptance).0 ≡ awaiting_acceptance
unfolding transition_to can_transition_to MissionState-discrete
awaiting_state = refl

needs_human_not_driven : is_driven needs_human ≡ false
unfolding is_driven
needs_human_not_driven = refl

driven_not_settled : (st : MissionState) → is_driven st ≡ true → is_settled st ≡ false
unfolding is_driven is_settled
driven_not_settled st h = ground arith

module _ {J : Type 0} where
  accepted_state :
      (commit : Option _) (m n : Mission J)
      → n.state ≡ (begin_cycle m).state
      → is_driven m.state ≡ true
      → (accepted commit n).state ≡ awaiting_acceptance
  unfolding accepted try_move
  accepted_state commit m n e d = rw (e, begin_cycle-is_driven m d) awaiting_state

  -- A step that hands a mission that was planning, running or replanning to a human forgets what it has
  -- used up itself: the budget that is stored is that of before the step. The mission is stored under
  -- its identifier, and the executor leaves missions alone.
  pub escalation_uncounted :
      (env : Env J) (id : MissionId) (m n : Mission J) (s : Store J)
      → LeavesMissions id env
      → m.id ≡ id
      → row id s ≡ some m
      → is_driven m.state ≡ true
      → (step_mission env id s).1 ≡ ok n
      → n.state ≡ needs_human
      → (row id (step_mission env id s).0 ≡ some n) × (n.budget_consumed ≡ m.budget_consumed)
  unfolding escalated try_move halted
  escalation_uncounted env id m n s leaves i h d o st =
      elim (step_mission-StepCase env id m s leaves i h) [
        | fails e x k ↦ absurd (cc (x, o))
        | rests over x k ↦ absurd (cc (driven_goes m.state d, over))
        | halts limit x k ↦
            let same : halted limit m ≡ n = cc (k.returned, o) in
            absurd (cc (ap (λ a. a.state) same, halted_state m.state d, st))
        | reviews x c found ↦ elim found [
          | verifies commit met from k ↦
              let same : accepted commit c.mission ≡ n = cc (k.returned, o) in
              absurd (cc (ap (λ a. a.state) same, accepted_state commit m c.mission c.state d, st))
          | calls reason unmet why k ↦
              let same : escalated env.json reason m ≡ n = cc (k.returned, o) in
              (k.stored ∙ ap some same, ap (λ a. a.budget_consumed) (sym same))
          | continues n' unmet unasked k ↦
              let same : n' ≡ n = cc (k.returned, o) in
              absurd (
                cc (
                  still_driven m n' k.stays_driven d,
                  ap (λ a. is_driven a.state) same,
                  ap is_driven st,
                  needs_human_not_driven,
                ))
        ]
      ]

  -- A step from which a mission goes on counts as stagnant, one more than before and below the limit,
  -- whatever its tasks and its commits have come to. The mission is stored under its identifier, its
  -- limit fits 32 bits, and the executor leaves missions alone.
  pub continuing_step_is_stagnant :
      (env : Env J) (id : MissionId) (m n : Mission J) (s : Store J)
      → LeavesMissions id env
      → m.id ≡ id
      → row id s ≡ some m
      → m.budget.max_stagnant_cycles < 2 ^ 32
      → is_driven m.state ≡ true
      → (step_mission env id s).1 ≡ ok n
      → is_driven n.state ≡ true
      → (n.budget_consumed.stagnant_cycles ≡ m.budget_consumed.stagnant_cycles + 1)
        × (n.budget_consumed.stagnant_cycles < m.budget.max_stagnant_cycles)
  continuing_step_is_stagnant env id m n s leaves i h w d o dn =
      elim (step_mission-Round env id m s leaves i h w) [
        | breaks e x k ↦ absurd (cc (x, o))
        | is_over n' x k f over settles ↦
            let same : n' ≡ n = cc (x, o) in
            absurd
              (cc (ap (λ a. is_settled a.state) same, settles d, driven_not_settled n.state dn))
        | goes_on n' k more ↦
            let same : n' ≡ n = cc (k.returned, o) in
            let limit = ap (λ b. b.max_stagnant_cycles) k.frame.same_budget in
            let count = ap (λ a. a.budget_consumed.stagnant_cycles) same in
            (omega (arith, count, more), omega (arith, count, limit, k.below))
      ]
