-- ===== src/Runtime/Engine/Store.antt =====
-- What the mission engine works on: the rows of `SqliteStore` that it reads and writes
-- (crates/plexis-storage/src/sqlite/store.rs, `impl MissionStore` and the listings of tasks,
-- executions and workflows), and its set of running missions. `serde_json::Value` is `J`, with the
-- operations of `Json`. An insertion fails on an identifier that is there already or a mission that
-- is not (migrations/0005_missions_and_checkpoints.sql).
use axonel.Prelude.{
  ℕ, String, Bool, true, false, not, ◌&&◌, ◌||◌, Option, none, some, is_some, List, [], ◌∷◌, ◌++◌,
  ◌==◌, if◌then◌else◌, Result, ok, err,
}
use axonel.Prelude.Map
use axonel.Prelude.Map.{Map}
use axonel.Prelude.Sets
use axonel.Core.Ids.{MissionId, WorkspaceId, WorkflowId, TaskId}
use axonel.Core.Budget.{Limit, MissionBudgetConsumed}
use axonel.Core.State.Transition.{StateTransitionError}
use axonel.Core.State.Mission.{MissionState}
use axonel.Core.Task.{Task}
use axonel.Core.Workflow.{Workflow}
use axonel.Core.Execution.{Execution}
use axonel.Core.Mission.{Mission, MissionCheckpoint, MissionCycle, Reason, Note}

pub record Json (J : Type 0) : Type 0 where
  pub empty : J
  pub get : String → J → Option J
  pub as_str : J → Option String
  pub set : String → J → J → J
  pub number : ℕ → J
  pub flag : Bool → J
  pub text : String → J
  pub reason : Reason → J
  pub diagnostics : List (ℕ × (String × Note)) → J

-- The mission events, with what their payloads are made of.
pub data MissionEvent : Type 0 where
  mission_created mission_paused mission_cancelled : MissionId → MissionEvent
  mission_started : MissionId → MissionState → MissionEvent
  human_escalation : MissionId → Reason → MissionEvent
  human_resolution : MissionId → String → MissionState → MissionEvent
  budget_warning : MissionId → Limit → MissionBudgetConsumed → MissionEvent
  verification_passed : MissionId → Option String → MissionEvent
  mission_awaiting_acceptance : MissionId → Option String → ℕ → MissionEvent
  stagnation_detected : MissionId → ℕ → MissionEvent
  replan_started : MissionId → ℕ → Bool → MissionEvent
  progress_checkpoint : MissionId → (cycle_index completed total : ℕ) → MissionEvent

pub data EngineError : Type 0 where
  storage : EngineError
  not_found : MissionId → EngineError
  conflict : MissionId → MissionState → EngineError
  transition : StateTransitionError → EngineError
  execution : String → EngineError

pub record Store (J : Type 0) : Type 0 where
  pub missions : Map (Mission J)
  pub workspaces : Map String  -- the canonical path of each
  pub workflows : Map (Workflow J)
  pub tasks : List (Task J)  -- in the order of `list_tasks_by_workflow`
  pub executions : List (Execution J)  -- in the order of `list_executions_by_task`
  pub cycles : List MissionCycle  -- in the order of `list_cycles`
  pub checkpoints : List MissionCheckpoint
  pub events : List MissionEvent
  pub running : List MissionId

abbrev pub Outcome : Type 0 → Type 0 → Type 0
Outcome J A = Store J × Result EngineError A

abbrev pub same_cycle : MissionCycle → MissionCycle → Bool
same_cycle a b = a.mission_id == b.mission_id && a.cycle_index == b.cycle_index

unfoldable pub has_cycle : MissionCycle → List MissionCycle → Bool
has_cycle c [] = false
has_cycle c (d ∷ ds) = same_cycle d c || has_cycle c ds

cycles_of : MissionId → List MissionCycle → List MissionCycle
cycles_of id [] = []
cycles_of id (c ∷ cs) = let rest = cycles_of id cs in if c.mission_id == id then c ∷ rest else rest

-- What a reference to a workspace asks for.
abbrev is_known : Option WorkspaceId → Map String → Bool
is_known none workspaces = true
is_known (some id) workspaces = is_some (Map.get workspaces id)

module _ {J : Type 0} where
  unfoldable pub get_mission : MissionId → Store J → Outcome J (Mission J)
  get_mission id s = elim (Map.get s.missions id) [
    | none ↦ (s, err (not_found id))
    | some m ↦ (s, ok m)
  ]

  unfoldable pub insert_mission : Mission J → Store J → Outcome J (Unit {0})
  insert_mission m s =
      if is_some (Map.get s.missions m.id) || not (is_known m.workspace_id s.workspaces)
      then (s, err storage)
      else (record s { missions = Map.insert m.id m s.missions }, ok tt)

  -- An `UPDATE` of all columns but the time of creation; without such a row it does nothing.
  unfoldable pub update_mission : Mission J → Store J → Store J
  update_mission m s = elim (Map.get s.missions m.id) [
    | none ↦ s
    | some row ↦
        let written : Mission J = record m { created_at = row.created_at } in
        record s { missions = Map.insert m.id written s.missions }
  ]

  unfoldable pub create_workflow : Workflow J → Store J → Outcome J (Unit {0})
  create_workflow w s =
      if is_some (Map.get s.workflows w.id)
      then (s, err storage)
      else (record s { workflows = Map.insert w.id w s.workflows }, ok tt)

  tasks_of : WorkflowId → List (Task J) → List (Task J)
  tasks_of id [] = []
  tasks_of id (t ∷ ts) = let rest = tasks_of id ts in if t.workflow_id == id then t ∷ rest else rest

  unfoldable pub list_tasks_by_workflow : WorkflowId → Store J → List (Task J)
  unfolding tasks_of
  list_tasks_by_workflow id s = tasks_of id s.tasks

  executions_of : TaskId → List (Execution J) → List (Execution J)
  executions_of id [] = []
  executions_of id (e ∷ es) =
      let rest = executions_of id es in if e.task_id == id then e ∷ rest else rest

  unfoldable pub list_executions_by_task : TaskId → Store J → List (Execution J)
  unfolding executions_of
  list_executions_by_task id s = executions_of id s.executions

  unfoldable pub list_cycles : MissionId → Store J → List MissionCycle
  unfolding cycles_of
  list_cycles id s = cycles_of id s.cycles

  -- The engine drops the error of these two.
  unfoldable pub create_cycle : MissionCycle → Store J → Store J
  unfolding has_cycle
  create_cycle c s =
      if has_cycle c s.cycles || not (is_some (Map.get s.missions c.mission_id))
      then s
      else record s { cycles = s.cycles ++ c ∷ [] }

  unfoldable pub save_checkpoint : MissionCheckpoint → Store J → Store J
  save_checkpoint c s =
      if is_some (Map.get s.missions c.mission_id)
      then record s { checkpoints = s.checkpoints ++ c ∷ [] }
      else s

  -- `emit_mission_event`, and the set of running missions.
  unfoldable pub emit : MissionEvent → Store J → Store J
  emit e s = record s { events = s.events ++ e ∷ [] }

  unfoldable pub mark_running : MissionId → Store J → Store J
  mark_running id s = record s { running = Sets.insert id s.running }

  unfoldable pub unmark_running : MissionId → Store J → Store J
  unmark_running id s = record s { running = Sets.remove id s.running }
