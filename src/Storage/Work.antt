-- ===== src/Storage/Work.antt =====
-- The rows of `SqliteStore` (crates/plexis-storage/src/sqlite/store.rs) that the scheduler and the
-- reconciler read and write: workflows, tasks with their dependencies, agents, leases, commands,
-- executions and missions. The schema is migrations/0001_initial_schema.sql: identifiers are keys, as is the
-- idempotency key of a command. Listings stand in the order of the store's `ORDER BY`. `J` stands
-- for `serde_json::Value`, and `now` for what `Utc::now()` returns at the call. A statement that
-- SQLite itself cannot run (a full disk, a lost file) is outside the model.
use text.Mathlib.Text.{◌==◌ as str_eq}
use axonel.Prelude.{
  ℕ, ◌+◌, String, Bool, true, false, ◌||◌, Option, none, some, is_some, List, [], ◌∷◌, ◌++◌, ◌==◌,
  if◌then◌else◌, ite, Result, ok, err, and_then,
}
use axonel.Prelude.Map.{Map}
use axonel.Prelude.Rows.{find_row, update_row}
use axonel.Core.Ids.{TaskId, WorkflowId, CommandId, ExecutionId, MissionId, Instant}
use axonel.Core.State.Command.{CommandState, CommandState-discrete}
use axonel.Core.State.Mission.{MissionState}
use axonel.Core.Task.{Task}
use axonel.Core.Workflow.{Workflow}
use axonel.Core.Agent.{Agent}
use axonel.Core.Command.{Command}
use axonel.Core.Execution.{Execution}
use axonel.Core.Mission.{Mission}
use axonel.Core.Graph.Base.{TaskGraph, GraphError}
use axonel.Core.Graph.Edit as Graph
use axonel.Core.Graph.Edit.{empty_graph, add_task, add_dependency}
use axonel.Storage.Leases as Leases
use axonel.Storage.Leases.{Tables}

-- The events that the reconciler appends, with what their payloads are made of.
pub data WorkEvent : Type 0 where
  execution_failed : ExecutionId → TaskId → WorkEvent
  lease_reclaimed : TaskId → WorkEvent
  command_reconciled : CommandId → TaskId → CommandState → WorkEvent
  orphan_recovered : TaskId → WorkflowId → WorkEvent
  integration_reconciled : MissionId → MissionState → WorkEvent
  mission_resumable : MissionId → MissionState → ℕ → WorkEvent

pub data WorkError : Type 0 where
  task_not_found : TaskId → WorkError
  execution_not_found : ExecutionId → WorkError
  idempotency_conflict : String → WorkError
  migration : GraphError → WorkError
  lease : Leases.StorageError → WorkError

pub record Work (J : Type 0) : Type 0 where
  pub workflows : List (Workflow J)
  pub tasks : List (Task J)
  pub dependencies : List (TaskId × TaskId)  -- (task_id, depends_on_id)
  pub agents : List (Agent J)
  pub leases : Tables
  pub commands : List (Command J)
  pub executions : List (Execution J)
  pub missions : List (Mission J)
  pub workspaces : Map String  -- the canonical path of each
  pub events : List WorkEvent

abbrev pub Outcome : Type 0 → Type 0 → Type 0
Outcome J A = Work J × Result WorkError A

abbrev pub is_claimable : CommandState → Bool
is_claimable CommandState.queued = true
is_claimable CommandState.retrying = true
is_claimable _ = false

module _ {J : Type 0} where
  abbrev pub task_key : Task J → TaskId
  task_key t = t.id

  abbrev pub command_key : Command J → CommandId
  command_key c = c.id

  abbrev pub execution_key : Execution J → ExecutionId
  execution_key e = e.id

  unfoldable pub get_task : TaskId → Work J → Option (Task J)
  unfolding find_row
  get_task id s = find_row task_key id s.tasks

  -- The columns that `UPDATE tasks` leaves alone are those of the row.
  abbrev pub written_task : Task J → Task J → Task J
  written_task task row = record task {
    id = row.id;
    workflow_id = row.workflow_id;
    created_at = row.created_at;
  }

  unfoldable pub update_task : Task J → Work J → Outcome J (Unit {0})
  unfolding get_task update_row
  update_task task s =
      if is_some (get_task task.id s)
      then (record s { tasks = update_row task_key task.id (written_task task) s.tasks }, ok tt)
      else (s, err (task_not_found task.id))

  unfoldable pub tasks_of : WorkflowId → List (Task J) → List (Task J)
  tasks_of id [] = []
  tasks_of id (t ∷ ts) = let rest = tasks_of id ts in if t.workflow_id == id then t ∷ rest else rest

  unfoldable pub list_tasks_by_workflow : WorkflowId → Work J → List (Task J)
  unfolding tasks_of
  list_tasks_by_workflow id s = tasks_of id s.tasks

  abbrev pub is_task_of : WorkflowId → Option (Task J) → Bool
  is_task_of id none = false
  is_task_of id (some t) = t.workflow_id == id

  -- `task_dependencies td JOIN tasks t ON td.task_id = t.id WHERE t.workflow_id = ?1`
  unfoldable pub edges_of :
      WorkflowId → List (Task J) → List (TaskId × TaskId) → List (TaskId × TaskId)
  unfolding find_row
  edges_of id ts [] = []
  edges_of id ts ((t, d) ∷ edges) =
      let rest = edges_of id ts edges in
      if is_task_of id (find_row task_key t ts) then (t, d) ∷ rest else rest

  unfoldable pub add_tasks : List (Task J) → TaskGraph J → TaskGraph J
  unfolding add_task
  add_tasks [] g = g
  add_tasks (t ∷ ts) g = add_tasks ts (add_task t g)

  unfoldable pub add_edges : List (TaskId × TaskId) → TaskGraph J → Graph.Outcome J
  unfolding add_dependency
  add_edges [] g = (g, ok tt)
  add_edges ((t, d) ∷ edges) g = and_then (add_dependency t d g) λ h _. add_edges edges h

  abbrev pub loaded : Graph.Outcome J → Result WorkError (TaskGraph J)
  loaded (g, ok _) = ok g
  loaded (g, err e) = err (migration e)

  unfoldable pub load_task_graph : WorkflowId → Work J → Result WorkError (TaskGraph J)
  unfolding list_tasks_by_workflow edges_of add_tasks add_edges empty_graph
  load_task_graph id s = loaded (
      add_edges (edges_of id s.tasks s.dependencies)
        (add_tasks (list_tasks_by_workflow id s) empty_graph))

  executions_of : TaskId → List (Execution J) → List (Execution J)
  executions_of id [] = []
  executions_of id (e ∷ es) =
      let rest = executions_of id es in if e.task_id == id then e ∷ rest else rest

  unfoldable pub list_executions_by_task : TaskId → Work J → List (Execution J)
  unfolding executions_of
  list_executions_by_task id s = executions_of id s.executions

  abbrev pub written_execution : Execution J → Execution J → Execution J
  written_execution e row = record row {
    state = e.state;
    started_at = e.started_at;
    completed_at = e.completed_at;
    error_message = e.error_message;
    metadata = e.metadata;
    updated_at = e.updated_at;
  }

  unfoldable pub update_execution : Execution J → Work J → Outcome J (Unit {0})
  unfolding find_row update_row
  update_execution e s =
      if is_some (find_row execution_key e.id s.executions)
      then (
        record s { executions = update_row execution_key e.id (written_execution e) s.executions },
        ok tt,
      )
      else (s, err (execution_not_found e.id))

  unfoldable pub commands_in : CommandState → List (Command J) → List (Command J)
  unfolding CommandState-discrete
  commands_in state [] = []
  commands_in state (c ∷ cs) =
      let rest = commands_in state cs in ite (CommandState-discrete c.state state) (c ∷ rest) rest

  unfoldable pub list_commands_by_state : CommandState → Work J → List (Command J)
  unfolding commands_in
  list_commands_by_state state s = commands_in state s.commands

  abbrev pub written_command : Command J → Command J → Command J
  written_command c row = record row {
    state = c.state;
    attempts = c.attempts;
    dispatched_at = c.dispatched_at;
    completed_at = c.completed_at;
  }

  -- Without such a row it does nothing.
  unfoldable pub update_command : Command J → Work J → Work J
  unfolding update_row
  update_command c s = record s {
    commands = update_row command_key c.id (written_command c) s.commands;
  }

  unfoldable pub has_key : Command J → List (Command J) → Bool
  has_key c [] = false
  has_key c (d ∷ ds) = d.id == c.id || (str_eq d.idempotency_key c.idempotency_key || has_key c ds)

  unfoldable pub enqueue_command : Command J → Work J → Outcome J (Unit {0})
  unfolding has_key
  enqueue_command c s =
      if has_key c s.commands
      then (s, err (idempotency_conflict c.idempotency_key))
      else (record s { commands = s.commands ++ c ∷ [] }, ok tt)

  -- `attempts + 1` is read back into a `u32`, which a count of attempts fits.
  abbrev pub claimed : Instant → Command J → Command J
  claimed now row = record row {
    state = CommandState.dispatched;
    attempts = row.attempts + 1;
    dispatched_at = some now;
  }

  claim_row : Instant → Option (Command J) → Work J → Work J × Option (Command J)
  unfolding update_row
  claim_row now none s = (s, none)
  claim_row now (some c) s =
      if is_claimable c.state
      then (
        record s { commands = update_row command_key c.id (claimed now) s.commands },
        some (claimed now c),
      )
      else (s, none)

  unfoldable pub claim_command_by_id : Instant → CommandId → Work J → Work J × Option (Command J)
  unfolding claim_row find_row
  claim_command_by_id now id s = claim_row now (find_row command_key id s.commands) s

  abbrev pub mission_key : Mission J → MissionId
  mission_key m = m.id

  -- Without such a row it does nothing.
  unfoldable pub update_mission : Mission J → Work J → Work J
  unfolding update_row
  update_mission m s = record s {
    missions =
        update_row mission_key m.id (λ row. record m { id = row.id; created_at = row.created_at })
          s.missions;
  }

  unfoldable pub append_event : WorkEvent → Work J → Work J
  append_event e s = record s { events = s.events ++ e ∷ [] }
