-- ===== src/Runtime/Reconciler/Frames.antt =====
-- What the rounds of crates/plexis-runtime/src/reconciler.rs leave alone.
use axonel.Prelude.{◌≡◌, refl, ◌∙◌, String, List, [], ◌∷◌, arith, Bool-cases, inl, inr}
use axonel.Core.Ids.{TaskId, Instant}
use axonel.Core.Execution.{Execution}
use axonel.Storage.Work.{Work, list_executions_by_task, update_execution, append_event}
use axonel.Runtime.Reconciler.{
  Pass, Reconciler, fail_execution, fail_executions, reconcile_executions,
}

-- The tables that say which tasks are held, and by which lease.
pub record SameTasks {J : Type 0} (s t : Work J) : Type 0 where
  pub tasks : t.tasks ≡ s.tasks
  pub leases : t.leases ≡ s.leases
  pub workflows : t.workflows ≡ s.workflows

module _ {J : Type 0} where
  pub SameTasks-refl : {s : Work J} → SameTasks s s
  SameTasks-refl = record { tasks = refl; leases = refl; workflows = refl }

  pub SameTasks-trans : {s t u : Work J} → SameTasks s t → SameTasks t u → SameTasks s u
  SameTasks-trans a b = record {
    tasks = b.tasks ∙ a.tasks;
    leases = b.leases ∙ a.leases;
    workflows = b.workflows ∙ a.workflows;
  }

  fail_execution-SameTasks :
      (now : Instant) (reason : String) (id : TaskId) (e : Execution J) (p : Pass J)
      → SameTasks p.work (fail_execution now reason id e p).work
  unfolding fail_execution update_execution append_event
  fail_execution-SameTasks now reason id e p = record {
    tasks = ground arith;
    leases = ground arith;
    workflows = ground arith;
  }

  fail_executions-SameTasks :
      (now : Instant) (reason : String) (id : TaskId) (es : List (Execution J)) (p : Pass J)
      → SameTasks p.work (fail_executions now reason id es p).work
  unfolding fail_executions
  fail_executions-SameTasks now reason id [] p = SameTasks-refl
  fail_executions-SameTasks now reason id (e ∷ es) p =
      SameTasks-trans (fail_execution-SameTasks now reason id e p)
        (fail_executions-SameTasks now reason id es (fail_execution now reason id e p))

  pub reconcile_executions-SameTasks :
      (r : Reconciler) (now : Instant) (reason : String) (id : TaskId) (p : Pass J)
      → SameTasks p.work (reconcile_executions r now reason id p).work
  unfolding reconcile_executions list_executions_by_task
  reconcile_executions-SameTasks r now reason id p = elim (Bool-cases r.execution_store) [
    | inl e ↦ rw e (fail_executions-SameTasks now reason id (list_executions_by_task id p.work) p)
    | inr e ↦ rw e SameTasks-refl
  ]
