-- ===== src/Runtime/Engine/Loop.antt =====
-- The task that `create_mission` of crates/plexis-server/src/routes.rs starts for a mission: it steps the
-- mission as long as it runs. What a step finds outside is given for each step.
use axonel.Prelude.{ℕ, zero, suc, Bool, not, ◌||◌, Option, none, some, if◌then◌else◌, ok, err}
use axonel.Prelude.Sets
use axonel.Core.Ids.{MissionId}
use axonel.Core.State.Mission.{
  MissionState, MissionState-discrete, awaiting_acceptance, accepted, needs_human, waiting,
  is_terminal,
}
use axonel.Runtime.Engine.Store.{Store, EngineError}
use axonel.Runtime.Engine.Control.{is_state}
use axonel.Runtime.Engine.Cycle.{Env}
use axonel.Runtime.Engine.Step.{step_mission}

unfoldable pub pauses : MissionState → Bool
unfolding is_terminal MissionState-discrete
pauses st =
    is_terminal st
    || (is_state st awaiting_acceptance
        || (is_state st accepted || (is_state st needs_human || is_state st waiting)))

module _ {J : Type 0} where
  -- The store that the loop leaves, with the error of the step that stopped it; `none` when the fuel is
  -- used up.
  unfoldable pub auto_step :
      (fuel : ℕ) → (ℕ → Env J) → MissionId → Store J → Option (Store J × Option EngineError)
  unfolding step_mission pauses
  auto_step zero envs id s = none
  auto_step (suc fuel) envs id s =
      let o = step_mission (envs 0) id s in
      let rest = auto_step fuel (λ k. envs (suc k)) id o.0 in
      if not (Sets.contains s.running id) then some (s, none) else elim o.1 [
        | err e ↦ some (o.0, some e)
        | ok m ↦ if pauses m.state then some (o.0, none) else rest
      ]
