-- ===== src/Tests/Missions.antt =====
-- Missions (crates/plexis-runtime/src/mission/engine.rs) at concrete values: the tests of mission 7 fail,
-- and each cycle runs one task.
use axonel.Prelude.{
  ℕ, ◌+◌, ◌<◌, ◌≡◌, refl, true, false, Option, none, some, is_some, List, [], ◌∷◌, ok, ◌⊎◌, arith,
  subst,
}
use axonel.Prelude.Map
use axonel.Prelude.Sets
use axonel.Core.Ids.{MissionId}
use axonel.Core.State.Mission.{
  MissionState, MissionState-discrete, created, planning, running, waiting, needs_human, cancelled,
  is_terminal,
}
use axonel.Core.Budget.{MissionHealth, default_budget, nothing_consumed}
use axonel.Core.Mission.{Mission, default_condition, Reason, stagnation}
use axonel.Core.Mission as Mission
use axonel.Runtime.Engine.Store.{
  Json, Store, EngineError, mission_started, mission_paused, conflict,
}
use axonel.Runtime.Engine.Stopping.{World}
use axonel.Runtime.Engine.Control.{start_mission, pause_mission}
use axonel.Runtime.Engine.Cycle.{Env, Executor}
use axonel.Runtime.Engine.Step.{step_mission}
use axonel.Runtime.Engine.Rows.{row}
use axonel.Runtime.Engine.Frames.{is_driven}
use axonel.Runtime.Engine.Cases.{LeavesMissions}
use axonel.Runtime.Engine.Outcomes.{StepCase, step_mission-StepCase}
use axonel.Runtime.Engine.Loop.{auto_step}
use axonel.Runtime.Engine.Rounds.{is_settled}
use axonel.Runtime.Engine.Settling.{auto_step-ends}
use axonel.Runtime.Engine.Starting.{started_mission_settles}
use axonel.Runtime.Engine.Commands.{
  start, pausing, failed_command_changes_nothing, paused_or_cancelled_is_not_stepped,
}
use axonel.Runtime.Engine.Uncounted.{escalation_uncounted, continuing_step_is_stagnant}

abbrev no_json : Json (Unit {0})
no_json = record {
  empty = tt;
  get = λ key v. none;
  as_str = λ v. none;
  set = λ key x v. tt;
  number = λ n. tt;
  flag = λ b. tt;
  text = λ s. tt;
  reason = λ r. tt;
  diagnostics = λ ds. tt;
}

abbrev failing_tests : World
failing_tests = record {
  exists = λ path. true;
  rev_parse = λ dir. some "abc";
  git_status = λ dir. some "";
  cargo_test = λ dir. some false;
  run_command = λ cmd dir. none;
}

abbrev one_task : Executor (Unit {0})
one_task w id s = (
  s,
  ok (record {
    executed_tasks_count = 1;
    completed_tasks_count = 0;
    failed_tasks_count = 0;
    discovered_tasks_count = 0;
    active_executions = [];
  }),
)

abbrev an_env : Env (Unit {0})
an_env = record {
  json = no_json;
  executor = some one_task;
  world = failing_tests;
  now = 50;
  workflow_id = 9;
  checkpoint_id = 11;
}

abbrev envs : ℕ → Env (Unit {0})
envs k = an_env

one_task-LeavesMissions : LeavesMissions 7 an_env
unfolding LeavesMissions
one_task-LeavesMissions execute e w s =
    let same : one_task ≡ execute = cc e in
    subst (λ x. (row 7 (x w 7 s).0 ≡ row 7 s) × ((x w 7 s).0.running ≡ s.running)) same (refl, refl)

-- Mission 7 in a state, with stagnant cycles.
abbrev a_mission : MissionState → ℕ → Mission (Unit {0})
unfolding Mission.new nothing_consumed
a_mission state stagnant = record (Mission.new tt 7 0 "a mission" "an objective") {
  state = state;
  budget_consumed = record nothing_consumed { stagnant_cycles = stagnant };
}

abbrev a_store : MissionState → ℕ → List MissionId → Store (Unit {0})
a_store state stagnant marked = record {
  missions = (7, a_mission state stagnant) ∷ [];
  workspaces = [];
  workflows = [];
  tasks = [];
  executions = [];
  cycles = [];
  checkpoints = [];
  events = [];
  running = marked;
}

abbrev started_store : Store (Unit {0})
started_store = record (a_store planning 0 (7 ∷ [])) { events = mission_started 7 planning ∷ [] }

abbrev a_called_mission : Mission (Unit {0})
unfolding a_mission
a_called_mission = record (a_mission needs_human 2) {
  escalation_reason = some (stagnation 3 none);
  health_status = MissionHealth.escalated;
}

abbrev a_worn_mission : Mission (Unit {0})
unfolding a_mission
a_worn_mission = record (a_mission running 1) {
  active_workflow_id = some 9;
  health_status = MissionHealth.degraded;
  budget_consumed = record (a_mission running 1).budget_consumed { total_executions = 1 };
}

started_mission_settles_example :
    (u : Store (Unit {0})) × (failure : Option EngineError) × (last : Mission (Unit {0}))
    × (auto_step 5 envs 7 started_store ≡ some (u, failure))
    × (row 7 u ≡ some last)
    × (is_some failure ≡ true ⊎ (is_settled last.state ≡ true))
    × (last.budget_consumed.duration_secs ≡ 0)
    × (last.budget_consumed.recovery_attempts ≡ 0)
unfolding start_mission is_driven MissionState-discrete default_budget a_mission Map.get Map.insert
    Sets.insert
started_mission_settles_example =
    started_mission_settles 3 envs 7 (a_mission created 0) (a_mission planning 0)
      (a_store created 0 []) started_store (λ k. one_task-LeavesMissions) refl refl refl
      (omega arith) (omega arith) refl

auto_step-ends_example : is_some (auto_step 3 envs 7 (a_store waiting 2 (7 ∷ []))) ≡ true
unfolding default_budget a_mission Map.get
auto_step-ends_example =
    auto_step-ends 1 envs 7 (a_mission waiting 2) (a_store waiting 2 (7 ∷ []))
      (λ k. one_task-LeavesMissions) refl refl (omega arith) (omega arith)

step_mission-StepCase_example :
    StepCase an_env 7
      (a_mission running 0)
      (a_store running 0 (7 ∷ []))
      (step_mission an_env 7 (a_store running 0 (7 ∷ [])))
unfolding a_mission Map.get
step_mission-StepCase_example =
    step_mission-StepCase an_env 7 (a_mission running 0) (a_store running 0 (7 ∷ []))
      one_task-LeavesMissions refl refl

abbrev waiting_store : Store (Unit {0})
waiting_store = record (a_store waiting 1 []) { events = mission_paused 7 ∷ [] }

paused_or_cancelled_is_not_stepped_example :
    (row 7 waiting_store ≡ some (a_mission waiting 1))
    × (a_mission waiting 1 ≡ a_mission waiting 1)
    × (auto_step 5 envs 7 waiting_store ≡ some (waiting_store, none))
unfolding a_mission Map.get pause_mission Map.insert Sets.remove
paused_or_cancelled_is_not_stepped_example =
    paused_or_cancelled_is_not_stepped pausing 4 envs 7 (a_mission running 1) (a_mission waiting 1)
      (a_store running 1 (7 ∷ [])) waiting_store refl refl refl

failed_command_changes_nothing_example : a_store cancelled 0 [] ≡ a_store cancelled 0 []
unfolding a_mission Map.get start_mission is_terminal
failed_command_changes_nothing_example =
    failed_command_changes_nothing no_json (start 7) (a_store cancelled 0 [])
      (a_store cancelled 0 []) (conflict 7 cancelled) refl

-- The third cycle in a row without progress hands the mission over, and its execution is not counted.
escalation_uncounted_example :
    let n = a_called_mission in
    (row 7 (step_mission an_env 7 (a_store running 2 (7 ∷ []))).0 ≡ some n)
    × (n.budget_consumed ≡ (a_mission running 2).budget_consumed)
unfolding a_mission Map.get is_driven step_mission default_budget Map.insert
escalation_uncounted_example =
    escalation_uncounted an_env 7 (a_mission running 2) a_called_mission
      (a_store running 2 (7 ∷ [])) one_task-LeavesMissions refl refl refl refl refl

continuing_step_is_stagnant_example :
    (a_worn_mission.budget_consumed.stagnant_cycles
      ≡ (a_mission running 0).budget_consumed.stagnant_cycles + 1)
    × (a_worn_mission.budget_consumed.stagnant_cycles
        < (a_mission running 0).budget.max_stagnant_cycles)
unfolding a_mission Map.get is_driven step_mission default_budget
continuing_step_is_stagnant_example =
    continuing_step_is_stagnant an_env 7 (a_mission running 0) a_worn_mission
      (a_store running 0 (7 ∷ [])) one_task-LeavesMissions refl refl (omega arith) refl refl refl
