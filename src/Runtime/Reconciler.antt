-- ===== src/Runtime/Reconciler.antt =====
-- crates/plexis-runtime/src/reconciler.rs: the durable state is brought in line with what still
-- runs. `reconcile` and `reconcile_commands` stand here, what a start of the server adds in the
-- children. The stores are one `SqliteStore` (`Storage.Work`); those that are optional are flags.
-- `json` and `parse_id` are the reads of `serde_json::Value` and the parser of a UUID; `now` is
-- what the clock shows in the pass, which is read for time stamps and once to find what expired.
pub mod Startup
pub mod Frames
pub mod InFlight
pub mod Orphans
pub mod Restart
pub mod Missions
pub mod Expiry
pub mod Returned
use axonel.Prelude.{
  String, Bool, true, false, not, ◌&&◌, ◌||◌, Option, none, some, is_some, List, [], ◌∷◌, ◌++◌,
  if◌then◌else◌, ite, Result, ok, err, and_then,
}
use axonel.Core.Ids.{TaskId, WorkflowId, MissionId, CommandId, ExecutionId, Instant}
use axonel.Core.State.Transition.{StateTransitionError}
use axonel.Core.State.Task.{TaskState}
use axonel.Core.State.Execution.{ExecutionState, ExecutionState-discrete}
use axonel.Core.State.Command.{CommandState}
use axonel.Core.Task.{Task, unassign}
use axonel.Core.Lease.{Lease}
use axonel.Core.Command as Command
use axonel.Core.Command.{Command}
use axonel.Core.Execution as Execution
use axonel.Core.Execution.{Execution}
use axonel.Storage.Leases as Leases
use axonel.Storage.Leases.{get_lease_by_task, reclaim_expired_leases}
use axonel.Storage.Work.{
  Work, WorkError, execution_failed, lease_reclaimed, command_reconciled, get_task, update_task,
  list_executions_by_task, update_execution, list_commands_by_state, update_command, append_event,
}
use axonel.Storage.Work as Storage
use axonel.Runtime.Selector.{Metadata, and_then_read}

pub data Anomaly : Type 0 where
  not_returned : TaskId → StateTransitionError → Anomaly
  no_such_task : TaskId → Anomaly

pub record ReconciliationReport : Type 0 where
  pub expired_leases_reclaimed : List TaskId
  pub tasks_unassigned : List TaskId
  pub resumable_workflows : List WorkflowId
  pub resumable_missions : List MissionId
  pub missions_reconciled : List MissionId
  pub commands_reconciled : List CommandId
  pub executions_reconciled : List ExecutionId
  pub anomalies : List Anomaly

unfoldable pub default_report : ReconciliationReport
default_report = record {
  expired_leases_reclaimed = [];
  tasks_unassigned = [];
  resumable_workflows = [];
  resumable_missions = [];
  missions_reconciled = [];
  commands_reconciled = [];
  executions_reconciled = [];
  anomalies = [];
}

pub record Reconciler : Type 0 where
  pub workflow_store : Bool
  pub command_store : Bool
  pub execution_store : Bool
  pub mission_store : Bool
  pub workspace_store : Bool

-- The rows and the report so far.
pub record Pass (J : Type 0) : Type 0 where
  pub work : Work J
  pub report : ReconciliationReport

abbrev pub Outcome : Type 0 → Type 0 → Type 0
Outcome J A = Pass J × Result WorkError A

abbrev pub is_held : TaskState → Bool
is_held TaskState.assigned = true
is_held TaskState.running = true
is_held _ = false

module _ {J : Type 0} where
  -- `?` on a call of the store
  abbrev pub called : {A : Type 0} → ReconciliationReport → Storage.Outcome J A → Outcome J A
  called r (w, res) = (record { work = w; report = r }, res)

  abbrev pub note : Anomaly → Pass J → Pass J
  note a p = record p { report = record p.report { anomalies = p.report.anomalies ++ a ∷ [] } }

  abbrev pub emit : Storage.WorkEvent → Pass J → Pass J
  emit e p = record p { work = append_event e p.work }

  -- One round of `for mut exec in execs`.
  unfoldable pub fail_execution : Instant → String → TaskId → Execution J → Pass J → Pass J
  unfolding ExecutionState-discrete update_execution append_event Execution.mark_failed
  fail_execution now reason task_id e p =
      ite (ExecutionState-discrete e.state ExecutionState.running)
        (let failed = (Execution.mark_failed now reason e).0 in
          record {
            work =
                append_event (execution_failed failed.id task_id)
                  (update_execution failed p.work).0;
            report = record p.report {
              executions_reconciled = p.report.executions_reconciled ++ failed.id ∷ [];
            };
          })
        p

  unfoldable pub fail_executions : Instant → String → TaskId → List (Execution J) → Pass J → Pass J
  unfolding fail_execution
  fail_executions now reason task_id [] p = p
  fail_executions now reason task_id (e ∷ es) p =
      fail_executions now reason task_id es (fail_execution now reason task_id e p)

  unfoldable pub reconcile_executions : Reconciler → Instant → String → TaskId → Pass J → Pass J
  unfolding fail_executions list_executions_by_task
  reconcile_executions r now reason task_id p =
      if r.execution_store
      then fail_executions now reason task_id (list_executions_by_task task_id p.work) p
      else p

  abbrev pub push_unassigned : TaskId → Pass J → Pass J
  push_unassigned id p = record p {
    report = record p.report { tasks_unassigned = p.report.tasks_unassigned ++ id ∷ [] };
  }

  -- A task that was given back: it is stored, reported, and its executions are failed.
  unfoldable pub return_task :
      Reconciler → Instant → String → Storage.WorkEvent → Task J → Pass J → Outcome J (Unit {0})
  unfolding update_task reconcile_executions append_event
  return_task r now reason event task p =
      and_then (called p.report (update_task task p.work)) λ q _.
        (emit event (reconcile_executions r now reason task.id (push_unassigned task.id q)), ok tt)

  unfoldable pub given_back :
      Reconciler
      → Instant
      → TaskId
      → Task J × Result StateTransitionError (Unit {0})
      → Pass J
      → Outcome J (Unit {0})
  unfolding return_task
  given_back r now id (task, ok _) p =
      return_task r now
        "Orphaned external agent execution reconciled after server restart / lease expiry"
        (lease_reclaimed id) task p
  given_back r now id (task, err e) p = (note (not_returned id e) p, ok tt)

  unfoldable pub release_found :
      Reconciler → Instant → TaskId → Option (Task J) → Pass J → Outcome J (Unit {0})
  unfolding given_back unassign
  release_found r now id none p = (note (no_such_task id) p, ok tt)
  release_found r now id (some task) p =
      if is_held task.state then given_back r now id (unassign now task) p else (p, ok tt)

  abbrev pub push_reclaimed : TaskId → Pass J → Pass J
  push_reclaimed id p = record p {
    report = record p.report {
      expired_leases_reclaimed = p.report.expired_leases_reclaimed ++ id ∷ [];
    };
  }

  -- One round of `for task_id in expired_tasks`.
  unfoldable pub release_task : Reconciler → Instant → TaskId → Pass J → Outcome J (Unit {0})
  unfolding release_found get_task
  release_task r now id p = release_found r now id (get_task id p.work) (push_reclaimed id p)

  unfoldable pub release_tasks : Reconciler → Instant → List TaskId → Pass J → Outcome J (Unit {0})
  unfolding release_task
  release_tasks r now [] p = (p, ok tt)
  release_tasks r now (id ∷ ids) p =
      and_then (release_task r now id p) λ q _. release_tasks r now ids q

  abbrev pub should_cancel : Option (Task J) → Option Lease → Bool
  should_cancel none lease = true
  should_cancel (some t) lease = not (is_held t.state) || not (is_some lease)

  module _ (json : Metadata J) (parse_id : String → Option TaskId) where
    unfoldable pub target_task : Command J → Option TaskId
    target_task c = elim c.target [
      | Command.task id ↦ some id
      | _ ↦ and_then_read (and_then_read (json.get "task_id" c.payload) json.as_str) parse_id
    ]

    unfoldable pub is_orphaned : Work J → Option TaskId → Bool
    unfolding get_task get_lease_by_task
    is_orphaned w none = false
    is_orphaned w (some id) = should_cancel (get_task id w) (get_lease_by_task id w.leases)

    abbrev pub or_zero : Option TaskId → TaskId
    or_zero none = 0
    or_zero (some id) = id

    -- One round of `for mut cmd in in_flight`.
    unfoldable pub reconcile_command : Instant → Command J → Pass J → Pass J
    unfolding target_task is_orphaned update_command append_event Command.mark_failed
    reconcile_command now c p =
        if is_orphaned p.work (target_task c)
        then (let failed = Command.mark_failed now c in
            record {
              work =
                  append_event (command_reconciled c.id (or_zero (target_task c)) failed.state)
                    (update_command failed p.work);
              report = record p.report {
                commands_reconciled = p.report.commands_reconciled ++ c.id ∷ [];
              };
            })
        else p

    unfoldable pub reconcile_all : Instant → List (Command J) → Pass J → Pass J
    unfolding reconcile_command
    reconcile_all now [] p = p
    reconcile_all now (c ∷ cs) p = reconcile_all now cs (reconcile_command now c p)

    unfoldable pub reconcile_commands : Reconciler → Instant → Pass J → Pass J
    unfolding list_commands_by_state reconcile_all
    reconcile_commands r now p =
        if r.command_store
        then reconcile_all now
            (list_commands_by_state CommandState.dispatched p.work
              ++ list_commands_by_state CommandState.delivered p.work)
            p
        else p

    -- From the list of the tasks whose leases were reclaimed on.
    unfoldable pub reconcile_reclaimed :
        Reconciler → Instant → Work J → Leases.Outcome (List TaskId) → Outcome J (Unit {0})
    unfolding default_report release_tasks reconcile_commands
    reconcile_reclaimed r now w (leases, err e) = (
      record { work = record w { leases = leases }; report = default_report },
      err (Storage.lease e),
    )
    reconcile_reclaimed r now w (leases, ok ids) =
        and_then
          (release_tasks r now ids
            (record { work = record w { leases = leases }; report = default_report }))
          λ p _. (reconcile_commands r now p, ok tt)

    unfoldable pub reconcile : Reconciler → Instant → Work J → Outcome J (Unit {0})
    unfolding reconcile_reclaimed reclaim_expired_leases
    reconcile r now w = reconcile_reclaimed r now w (reclaim_expired_leases now w.leases)
