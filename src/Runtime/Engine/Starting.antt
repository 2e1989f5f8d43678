-- ===== src/Runtime/Engine/Starting.antt =====
-- A mission that is started, with the loop that steps it (crates/plexis-server/src/routes.rs).
use axonel.Prelude.{
  ℕ, suc, ◌+◌, ◌^◌, ◌<◌, ◌≡◌, refl, true, false, ◌||◌, Option, some, is_some, ok, ◌⊎◌, arith,
  and_then, ◌∙◌, ap, sym,
}
use axonel.Prelude.Sets
use axonel.Core.Ids.{MissionId}
use axonel.Core.State.Mission.{
  MissionState, MissionState-discrete, is_terminal, transition_to, can_transition_to,
}
use axonel.Core.Mission.{Mission}
use axonel.Runtime.Engine.Store.{Store, EngineError}
use axonel.Runtime.Engine.Control.{is_state}
use axonel.Runtime.Engine.Cycle.{Env}
use axonel.Runtime.Engine.Rows.{row}
use axonel.Runtime.Engine.Frames.{Frame, is_driven}
use axonel.Runtime.Engine.Cases.{LeavesMissions}
use axonel.Runtime.Engine.Loop.{auto_step}
use axonel.Core.State.Mission.{created}
use axonel.Runtime.Engine.Store.{update_mission, emit, mark_running}
use axonel.Runtime.Engine.Control.{move, started, start_mission}
use axonel.Runtime.Engine.Rows.{get_mission-row, row-update_mission}
use axonel.Prelude.Sets.{contains-insert}
use axonel.Runtime.Engine.Store.{mission_started}
use axonel.Runtime.Engine.Settling.{auto_step_settles}
use axonel.Runtime.Engine.Rounds.{is_settled}
use axonel.Runtime.Engine.Commands.{succeeded}

marked_running :
    {J : Type 0} (id : MissionId) (s : Store J)
    → Sets.contains (mark_running id s).running id ≡ true
unfolding mark_running
marked_running id s = ground (arith, contains-insert id s.running id)

startable :
    (st : MissionState) → (is_state st created || is_driven st) ≡ true → is_terminal st ≡ false
unfolding is_driven is_terminal MissionState-discrete
startable st d = ground arith

module _ {J : Type 0} where
  started_cases :
      (m n : Mission J)
      → (is_state m.state created || is_driven m.state) ≡ true
      → started m ≡ ok n
      → (is_driven n.state ≡ true) × Frame m n × (n.budget_consumed ≡ m.budget_consumed)
  unfolding started move transition_to can_transition_to MissionState-discrete is_driven
  started_cases m n d h = (
    ground arith,
    record {
      same_id = ground arith;
      same_creation = ground arith;
      same_budget = ground arith;
      same_duration = ground arith;
      same_recoveries = ground arith;
      same_condition = ground arith;
    },
    ground arith,
  )

  start_going :
      (id : MissionId) (m : Mission J) (s : Store J)
      → row id s ≡ some m
      → (is_state m.state created || is_driven m.state) ≡ true
      → start_mission id s ≡ (
          and_then
            (s, started m)
            λ s₂ m'.
              (emit (mission_started id m'.state) (mark_running id (update_mission m' s₂)), ok m'))
  unfolding start_mission
  start_going id m s h d = rw (get_mission-row id m s h, startable m.state d) refl

  -- A mission that was created, or that is planning, running or replanning, and that is started comes to
  -- rest in the loop: where the loop ends, and with enough fuel it does, the mission awaits acceptance,
  -- has called a human or has used up its budget, unless a step failed; and of its budget, neither
  -- seconds nor recovery attempts have been counted. This is for a mission stored under its
  -- identifier, whose limit of stagnant cycles fits 32 bits, and an executor that leaves missions
  -- alone.
  pub started_mission_settles :
      (fuel : ℕ) (envs : ℕ → Env J) (id : MissionId) (m n : Mission J) (s t : Store J)
      → ((k : ℕ) → LeavesMissions id (envs k))
      → m.id ≡ id
      → row id s ≡ some m
      → (is_state m.state created || is_driven m.state) ≡ true
      → m.budget.max_stagnant_cycles < 2 ^ 32
      → m.budget.max_stagnant_cycles < fuel + 1 + m.budget_consumed.stagnant_cycles
      → start_mission id s ≡ (t, ok n)
      → (u : Store J) × (failure : Option EngineError) × (last : Mission J) × (auto_step
            (suc (suc fuel))
            envs
            id
            t
          ≡ some (u, failure))
        × (row id u ≡ some last)
        × (is_some failure ≡ true ⊎ (is_settled last.state ≡ true))
        × (last.budget_consumed.duration_secs ≡ m.budget_consumed.duration_secs)
        × (last.budget_consumed.recovery_attempts ≡ m.budget_consumed.recovery_attempts)
  unfolding emit mark_running
  started_mission_settles fuel envs id m n s t leaves i h d w enough c =
      let (x, there) =
        succeeded s t (started m)
          (λ s₂ m'. emit (mission_started id m'.state) (mark_running id (update_mission m' s₂))) n
          (sym (start_going id m s h d) ∙ c) in
      let (driven, f, same) = started_cases m n d x in
      let kept = row-update_mission id n m s (f.same_id ∙ i) h f.same_creation in
      let limit = ap (λ b. b.max_stagnant_cycles) f.same_budget in
      let count = ap (λ b. b.stagnant_cycles) same in
      let (u, failure, last, ended, stored, settled, secs, attempts) =
        auto_step_settles fuel envs id n t leaves (f.same_id ∙ i)
          (ap (λ u. row id u) (sym there) ∙ kept) (omega (arith, limit, w))
          (omega (arith, limit, count, enough)) driven
          (ap (λ u. Sets.contains u.running id) (sym there)
            ∙ marked_running id (update_mission n s)) in
      (
        u,
        failure,
        last,
        ended,
        stored,
        settled,
        cc (secs, f.same_duration),
        cc (attempts, f.same_recoveries),
      )
