-- ===== src/Runtime/Reconciler/Returned.antt =====
-- The tasks that crates/plexis-runtime/src/reconciler.rs gives back.
use axonel.Prelude.{◌≡◌, refl, String, true, is_some, ok, arith}
use axonel.Prelude.Rows.{update_row}
use axonel.Core.Ids.{Instant}
use axonel.Core.State.Task.{TaskState}
use axonel.Core.Task.{Task, unassign}
use axonel.Storage.Work.{
  Work, WorkEvent, task_key, written_task, get_task, update_task, append_event,
}
use axonel.Runtime.Reconciler.{
  Pass, Outcome, Reconciler, is_held, emit, push_unassigned, return_task, reconcile_executions,
}
use axonel.Runtime.Reconciler.Frames.{reconcile_executions-SameTasks}

module _ {J : Type 0} where
  -- The call went through, and wrote the task.
  pub record Returned (task : Task J) (p : Pass J) (o : Outcome J (Unit {0})) : Type 0 where
    pub after : Pass J
    pub is_ok : o ≡ (after, ok tt)
    pub tasks : after.work.tasks ≡ update_row task_key task.id (written_task task) p.work.tasks
    pub leases : after.work.leases ≡ p.work.leases
    pub workflows : after.work.workflows ≡ p.work.workflows

  update_task-ok :
      (task : Task J) (s : Work J)
      → is_some (get_task task.id s) ≡ true
      → update_task task s
        ≡ (record s { tasks = update_row task_key task.id (written_task task) s.tasks }, ok tt)
  unfolding update_task
  update_task-ok task s h = ground arith

  pub return_task-Returned :
      (r : Reconciler) (now : Instant) (reason : String) (event : WorkEvent) (task : Task J)
      (p : Pass J)
      → is_some (get_task task.id p.work) ≡ true
      → Returned task p (return_task r now reason event task p)
  unfolding return_task append_event
  return_task-Returned r now reason event task p h =
      let q : Pass J = record p {
        work = record p.work {
          tasks = update_row task_key task.id (written_task task) p.work.tasks;
        };
      } in
      let same = reconcile_executions-SameTasks r now reason task.id (push_unassigned task.id q) in
      record {
        after = emit event (reconcile_executions r now reason task.id (push_unassigned task.id q));
        is_ok = rw (update_task-ok task p.work h) refl;
        tasks = same.tasks;
        leases = same.leases;
        workflows = same.workflows;
      }

  -- A task that is held can be given back, and then it is ready.
  pub unassign_held :
      (now : Instant) (task : Task J)
      → is_held task.state ≡ true
      → (unassign now task ≡ ((unassign now task).0, ok tt))
        × ((unassign now task).0.id ≡ task.id)
        × ((unassign now task).0.state ≡ TaskState.ready)
  unfolding unassign
  unassign_held now task h = ground arith
