-- ===== src/Runtime/Engine/Control.antt =====
-- The commands on a mission: crates/plexis-runtime/src/mission/engine.rs but `step_mission`.
use axonel.Prelude.{
  String, Bool, true, false, ◌||◌, Option, none, some, ite, if◌then◌else◌, Result, ok, err,
  and_then,
}
use axonel.Prelude.Text.{lower_equals}
use axonel.Core.Ids.{MissionId, WorkspaceId, Instant}
use axonel.Core.State.Mission.{
  MissionState, MissionState-discrete, created, planning, running, waiting, needs_human, replanning,
  cancelled, transition_to, is_terminal,
}
use axonel.Core.Budget.{MissionBudget, MissionHealth}
use axonel.Core.Mission as Mission
use axonel.Core.Mission.{Mission, StoppingCondition, Reason}
use axonel.Runtime.Engine.Store.{
  Json, Store, Outcome, EngineError, conflict, transition, mission_created, mission_paused,
  mission_cancelled, mission_started, human_escalation, human_resolution, get_mission,
  insert_mission, update_mission, emit, mark_running, unmark_running,
}

abbrev pub is_state : MissionState → MissionState → Bool
is_state a b = ite (MissionState-discrete a b) true false

abbrev pub decided : String → MissionState
decided decision =
    if lower_equals decision "cancel"
    then cancelled
    else if lower_equals decision "replan"
    then replanning
    else running

module _ {J : Type 0} where
  abbrev optionally : {A : Type 0} → Option A → (A → Mission J → Mission J) → Mission J → Mission J
  optionally none f m = m
  optionally (some a) f m = f a m

  unfoldable pub create_mission :
      Json J
      → MissionId
      → Instant
      → String
      → String
      → Option WorkspaceId
      → Option MissionBudget
      → Option StoppingCondition
      → Store J
      → Outcome J (Mission J)
  unfolding insert_mission emit Mission.new
  create_mission json id now title objective workspace_id budget condition s =
      let m = optionally condition Mission.with_stopping_condition (
        optionally budget Mission.with_budget (
          optionally workspace_id Mission.with_workspace_id
            (Mission.new json.empty id now title objective))) in
      and_then (insert_mission m s) λ s₁ _. (emit (mission_created id) s₁, ok m)

  -- `mission.state.transition_to(next)?`
  unfoldable pub move : MissionState → Mission J → Result EngineError (Mission J)
  unfolding transition_to
  move next m = elim (transition_to m.state next).1 [
    | ok _ ↦ ok (record m { state = next })
    | err e ↦ err (transition e)
  ]

  -- `let _ = mission.state.transition_to(next)`
  unfoldable pub try_move : MissionState → Mission J → Mission J
  unfolding transition_to
  try_move next m = record m { state = (transition_to m.state next).0 }

  unfoldable pub started : Mission J → Result EngineError (Mission J)
  unfolding move MissionState-discrete
  started m =
      if is_state m.state created
      then move planning m
      else if is_state m.state waiting || is_state m.state needs_human
      then move running m
      else ok m

  unfoldable pub start_mission : MissionId → Store J → Outcome J (Mission J)
  unfolding get_mission started update_mission mark_running emit is_terminal
  start_mission id s = and_then (get_mission id s) λ s₁ m.
      if is_terminal m.state
      then (s₁, err (conflict id m.state))
      else and_then (s₁, started m)
          λ s₂ m'.
            (emit (mission_started id m'.state) (mark_running id (update_mission m' s₂)), ok m')

  unfoldable pub pause_mission : MissionId → Store J → Outcome J (Mission J)
  unfolding get_mission move update_mission unmark_running emit is_terminal
  pause_mission id s = and_then (get_mission id s) λ s₁ m.
      if is_terminal m.state
      then (s₁, err (conflict id m.state))
      else and_then (s₁, move waiting m)
          λ s₂ m'. (emit (mission_paused id) (unmark_running id (update_mission m' s₂)), ok m')

  unfoldable pub resume_mission : MissionId → Store J → Outcome J (Mission J)
  resume_mission = start_mission

  unfoldable pub cancel_mission : MissionId → Store J → Outcome J (Mission J)
  unfolding get_mission move update_mission unmark_running emit
  cancel_mission id s = and_then (get_mission id s) λ s₁ m.
      and_then (s₁, move cancelled m)
        λ s₂ m'. (emit (mission_cancelled id) (unmark_running id (update_mission m' s₂)), ok m')

  -- The mission as an escalation writes it.
  unfoldable pub escalated : Json J → Reason → Mission J → Mission J
  unfolding try_move
  escalated json reason m = try_move needs_human (record m {
    escalation_reason = some reason;
    metadata = json.set "escalation_reason" (json.reason reason) m.metadata;
    health_status = MissionHealth.escalated;
  })

  unfoldable pub escalate_human : Json J → MissionId → Reason → Store J → Outcome J (Mission J)
  unfolding get_mission escalated update_mission unmark_running emit
  escalate_human json id reason s = and_then (get_mission id s) λ s₁ m.
      let m' = escalated json reason m in
      (emit (human_escalation id reason) (unmark_running id (update_mission m' s₁)), ok m')

  unfoldable pub resolve_escalation : MissionId → String → Store J → Outcome J (Mission J)
  unfolding get_mission try_move update_mission emit lower_equals MissionState-discrete
  resolve_escalation id decision s = and_then (get_mission id s) λ s₁ m.
      if is_state m.state needs_human
      then (let m' =
            try_move (decided decision)
              (record m { escalation_reason = none; health_status = MissionHealth.healthy }) in
          (emit (human_resolution id decision m'.state) (update_mission m' s₁), ok m'))
      else (s₁, err (conflict id m.state))
