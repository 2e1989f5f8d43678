-- ===== src/Runtime/Engine/Frames.antt =====
-- What a step of crates/plexis-runtime/src/mission/engine.rs leaves alone in a mission, and the states
-- that its transitions reach.
use axonel.Prelude.{◌≡◌, refl, Bool, true, false, arith}
use axonel.Core.State.Mission.{
  MissionState, MissionState-discrete, planning, running, replanning, transition_to,
  can_transition_to,
}
use axonel.Core.Mission.{Mission}
use axonel.Runtime.Engine.Control.{try_move}
use axonel.Runtime.Engine.Cycle.{begin_cycle}

-- The states between the start of a mission and its end, but for the waits.
unfoldable pub is_driven : MissionState → Bool
is_driven planning = true
is_driven running = true
is_driven replanning = true
is_driven _ = false

-- The two counters that no part of the engine raises, the stopping condition, and what identifies the mission.
pub record Frame {J : Type 0} (m n : Mission J) : Type 0 where
  pub same_id : n.id ≡ m.id
  pub same_creation : n.created_at ≡ m.created_at
  pub same_budget : n.budget ≡ m.budget
  pub same_duration : n.budget_consumed.duration_secs ≡ m.budget_consumed.duration_secs
  pub same_recoveries : n.budget_consumed.recovery_attempts ≡ m.budget_consumed.recovery_attempts
  pub same_condition : n.stopping_condition ≡ m.stopping_condition

module _ {J : Type 0} where
  pub Frame-refl : (m : Mission J) → Frame m m
  Frame-refl m = record {
    same_id = refl;
    same_creation = refl;
    same_budget = refl;
    same_duration = refl;
    same_recoveries = refl;
    same_condition = refl;
  }

  pub Frame-trans : {a b c : Mission J} → Frame a b → Frame b c → Frame a c
  Frame-trans f g = record {
    same_id = cc (f.same_id, g.same_id);
    same_creation = cc (f.same_creation, g.same_creation);
    same_budget = cc (f.same_budget, g.same_budget);
    same_duration = cc (f.same_duration, g.same_duration);
    same_recoveries = cc (f.same_recoveries, g.same_recoveries);
    same_condition = cc (f.same_condition, g.same_condition);
  }

  pub begin_cycle-Frame : (m : Mission J) → Frame m (begin_cycle m)
  unfolding begin_cycle try_move
  begin_cycle-Frame m = record {
    same_id = ground arith;
    same_creation = ground arith;
    same_budget = ground arith;
    same_duration = ground arith;
    same_recoveries = ground arith;
    same_condition = ground arith;
  }

  pub consumed-begin_cycle : (m : Mission J) → (begin_cycle m).budget_consumed ≡ m.budget_consumed
  unfolding begin_cycle try_move
  consumed-begin_cycle m = ground arith

  pub begin_cycle-is_driven :
      (m : Mission J) → is_driven m.state ≡ true → (begin_cycle m).state ≡ running
  unfolding begin_cycle try_move transition_to can_transition_to is_driven MissionState-discrete
  begin_cycle-is_driven m h = ground arith
