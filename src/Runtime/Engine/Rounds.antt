-- ===== src/Runtime/Engine/Rounds.antt =====
-- What one round of the loop that steps a mission (crates/plexis-server/src/routes.rs) makes of it, and
-- of its state.
use axonel.Prelude.{
  ◌+◌, ◌^◌, ◌<◌, ◌≡◌, refl, Bool, true, false, not, ◌||◌, Option, none, some, ok, err, ◌⊎◌, inl,
  inr, arith, ◌∙◌,
}
use axonel.Prelude.Sets
use axonel.Core.Ids.{MissionId}
use axonel.Core.Budget.{has_exhausted}
use axonel.Core.State.Mission.{
  MissionState, MissionState-discrete, running, verifying, awaiting_acceptance, needs_human,
  budget_exhausted, is_terminal, transition_to, can_transition_to,
}
use axonel.Core.Mission.{Mission}
use axonel.Runtime.Mission.{check_exhaustion}
use axonel.Runtime.Engine.Store.{Store, Outcome, EngineError}
use axonel.Runtime.Engine.Control.{is_state, try_move, escalated}
use axonel.Runtime.Engine.Cycle.{Env, tracker_of, begin_cycle}
use axonel.Runtime.Engine.Review.{accepted}
use axonel.Runtime.Engine.Step.{step_mission}
use axonel.Runtime.Engine.Rows.{row}
use axonel.Runtime.Engine.Frames.{Frame, Frame-refl, is_driven, begin_cycle-is_driven}
use axonel.Runtime.Engine.Cases.{LeavesMissions}
use axonel.Runtime.Engine.Endings.{Continues, halted}
use axonel.Runtime.Engine.Verdicts.{verifies, calls, continues}
use axonel.Runtime.Engine.Outcomes.{fails, rests, halts, reviews, step_mission-StepCase}
use axonel.Runtime.Engine.Loop.{pauses}

-- Where a mission that the engine drives comes to rest.
unfoldable pub is_settled : MissionState → Bool
is_settled awaiting_acceptance = true
is_settled needs_human = true
is_settled budget_exhausted = true
is_settled _ = false

is_settled_halted :
    (st : MissionState)
    → is_driven st ≡ true
    → is_settled (transition_to st budget_exhausted).0 ≡ true
unfolding transition_to can_transition_to MissionState-discrete is_driven is_settled
is_settled_halted st h = ground arith

is_settled_called :
    (st : MissionState) → is_driven st ≡ true → is_settled (transition_to st needs_human).0 ≡ true
unfolding transition_to can_transition_to MissionState-discrete is_driven is_settled
is_settled_called st h = ground arith

pub driven_goes :
    (st : MissionState) → is_driven st ≡ true → (is_terminal st || is_state st needs_human) ≡ false
unfolding is_driven is_terminal MissionState-discrete
driven_goes st h = ground arith

rest_pauses :
    (st : MissionState) → (is_terminal st || is_state st needs_human) ≡ true → pauses st ≡ true
unfolding pauses is_terminal MissionState-discrete
rest_pauses st h = ground arith

pub driven_not_pauses : (st : MissionState) → is_driven st ≡ true → pauses st ≡ false
unfolding is_driven pauses is_terminal MissionState-discrete
driven_not_pauses st h = ground arith

verified_settles :
    is_settled (transition_to (transition_to running verifying).0 awaiting_acceptance).0 ≡ true
unfolding transition_to can_transition_to MissionState-discrete is_settled
verified_settles = refl

-- What one round of the loop makes of the mission `m`.
pub data Round {J : Type 0} (id : MissionId) (m : Mission J) (s : Store J)
    (o : Outcome J (Mission J)) : Type 0 where
  breaks : (e : EngineError) → o.1 ≡ err e → row id o.0 ≡ some m → Round id m s o
  is_over :
      (n : Mission J)
      → o.1 ≡ ok n
      → row id o.0 ≡ some n
      → Frame m n
      → (pauses n.state ≡ true) ⊎ (Sets.contains o.0.running id ≡ false)
      → (is_driven m.state ≡ true → is_settled n.state ≡ true)
      → Round id m s o
  goes_on :
      (n : Mission J)
      → Continues id m n s o
      → n.budget_consumed.stagnant_cycles ≡ m.budget_consumed.stagnant_cycles + 1
      → Round id m s o

module _ {J : Type 0} where
  pub still_driven :
      (m n : Mission J)
      → (not (is_driven m.state) || is_driven n.state) ≡ true
      → is_driven m.state ≡ true
      → is_driven n.state ≡ true
  still_driven m n h d = ground arith

  within_limit :
      (m : Mission J)
      → check_exhaustion (tracker_of m) ≡ none
      → m.budget_consumed.stagnant_cycles < m.budget.max_stagnant_cycles
  unfolding check_exhaustion has_exhausted tracker_of
  within_limit m h = ground arith

  accepted_settles :
      (commit : Option _) (m n : Mission J)
      → n.state ≡ (begin_cycle m).state
      → is_driven m.state ≡ true
      → is_settled (accepted commit n).state ≡ true
  unfolding accepted try_move
  accepted_settles commit m n e d = rw (e, begin_cycle-is_driven m d) verified_settles

  -- What ran before changed no set of running missions.
  Continues-from :
      {id : MissionId} {m n : Mission J} {s t : Store J} {o : Outcome J (Mission J)}
      → t.running ≡ s.running
      → Continues id m n t o
      → Continues id m n s o
  Continues-from e k = record {
    returned = k.returned;
    stored = k.stored;
    frame = k.frame;
    counted = k.counted;
    still_running = k.still_running ∙ e;
    below = k.below;
    stays_driven = k.stays_driven;
  }

  pub step_mission-Round :
      (env : Env J) (id : MissionId) (m : Mission J) (s : Store J)
      → LeavesMissions id env
      → m.id ≡ id
      → row id s ≡ some m
      → m.budget.max_stagnant_cycles < 2 ^ 32
      → Round id m s (step_mission env id s)
  unfolding halted escalated try_move
  step_mission-Round env id m s leaves i h w = elim (step_mission-StepCase env id m s leaves i h) [
    | fails e x k ↦ breaks e x k
    | rests over x k ↦
        is_over m x k (Frame-refl m) (inl (rest_pauses m.state over))
          (λ d. absurd (cc (driven_goes m.state d, over)))
    | halts limit x k ↦
        is_over (halted limit m) k.returned k.stored k.frame (inr k.not_running)
          (is_settled_halted m.state)
    | reviews x c found ↦ elim found [
      | verifies commit met same k ↦
          is_over (accepted commit c.mission) k.returned k.stored k.frame (inr k.not_running)
            (accepted_settles commit m c.mission c.state)
      | calls reason unmet why k ↦
          is_over (escalated env.json reason m) k.returned k.stored k.frame (inr k.not_running)
            (is_settled_called m.state)
      | continues n unmet unasked k ↦
          goes_on n (Continues-from c.still_running k)
            (omega (arith, k.counted, within_limit m x, w))
    ]
  ]
