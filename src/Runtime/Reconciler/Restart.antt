-- ===== src/Runtime/Reconciler/Restart.antt =====
-- What `reconcile_startup` of crates/plexis-runtime/src/reconciler.rs leaves of tasks and missions.
use axonel.Prelude.{
  ◌≡◌, refl, ap, ◌∙◌, subst, String, Bool, true, false, not, ◌&&◌, ◌||◌, ◌==◌, Option, List, [],
  ◌∷◌, ok, arith, Bool-cases, inl, inr, Has, if◌then◌else◌, ite, if_pos, if_neg,
}
use axonel.Prelude.Rows.{all_in, all_in-of_Has}
use axonel.Core.Ids.{TaskId, Instant}
use axonel.Core.State.Workflow.{WorkflowState, WorkflowState-discrete}
use axonel.Core.Task.{Task}
use axonel.Core.Workflow.{Workflow}
use axonel.Core.Mission.{Mission}
use axonel.Storage.Work.{Work, update_mission, append_event}
use axonel.Runtime.Engine.Store.{Json}
use axonel.Runtime.Selector.{Metadata}
use axonel.Runtime.Reconciler.{Pass, Outcome, Reconciler}
use axonel.Runtime.Reconciler.Startup.{
  Repository, is_orphaned_task, resolve_integration, reconcile_mission, reconcile_missions,
  recover_workflows, restart_workflows, restart_missions, reconcile_startup,
}
use axonel.Runtime.Reconciler.Frames.{SameTasks, SameTasks-refl, SameTasks-trans}
use axonel.Runtime.Reconciler.Orphans.{
  recover_workflows-Cleared, is_orphaned_task-leases, orphan_held,
}
use axonel.Runtime.Reconciler.Expiry.{reconcile-Reconciled}

module _ {J : Type 0} (json : Json J) (git : Repository) (r : Reconciler) (now : Instant) where
  reconcile_mission-SameTasks :
      (m : Mission J) (p : Pass J) → SameTasks p.work (reconcile_mission json git r now m p).work
  unfolding reconcile_mission resolve_integration update_mission append_event
  reconcile_mission-SameTasks m p = record {
    tasks = ground arith;
    leases = ground arith;
    workflows = ground arith;
  }

  reconcile_missions-SameTasks :
      (ms : List (Mission J)) (p : Pass J)
      → SameTasks p.work (reconcile_missions json git r now ms p).work
  unfolding reconcile_missions
  reconcile_missions-SameTasks [] p = SameTasks-refl
  reconcile_missions-SameTasks (m ∷ ms) p =
      SameTasks-trans (reconcile_mission-SameTasks m p)
        (reconcile_missions-SameTasks ms (reconcile_mission json git r now m p))

  restart_missions-SameTasks :
      (p : Pass J) → SameTasks p.work (restart_missions json git r now p).work
  unfolding restart_missions
  restart_missions-SameTasks p = elim (Bool-cases r.mission_store) [
    | inl e ↦ rw e (reconcile_missions-SameTasks p.work.missions p)
    | inr e ↦ rw e SameTasks-refl
  ]

-- The task belongs to a workflow that is active.
abbrev pub is_of_active : {J : Type 0} → List (Workflow J) → Task J → Bool
is_of_active [] t = false
is_of_active (wf ∷ wfs) t =
    (t.workflow_id == wf.id
      && ite (WorkflowState-discrete wf.state WorkflowState.active) true false)
    || is_of_active wfs t

module _ {J : Type 0} where
  -- Every task of an active workflow that is assigned or running has a lease.
  abbrev pub all_leased : Work J → Bool
  all_leased w = all_in (λ t. not (is_of_active w.workflows t && is_orphaned_task w t)) w.tasks

  spared_all :
      (wfs : List (Workflow J)) (t : Task J) (b : Bool)
      → ((wf : Workflow J)
          → Has wf wfs
          → wf.state ≡ WorkflowState.active
          → (t.workflow_id == wf.id) ≡ true
          → b ≡ false)
      → not (is_of_active wfs t && b) ≡ true
  spared_all [] t b h = refl
  spared_all (wf ∷ wfs) t b h =
      let rest = spared_all wfs t b (λ v m. h v (inr m)) in
      elim (WorkflowState-discrete wf.state WorkflowState.active) [
        | yes y ↦
            let active =
              if_pos (WorkflowState-discrete wf.state WorkflowState.active) y true false in
            ground (arith, active, h wf (inl refl) y)
        | no n ↦
            let idle = if_neg (WorkflowState-discrete wf.state WorkflowState.active) n true false in
            ground (arith, idle)
      ]

  restart_workflows_on :
      (r : Reconciler) (now : Instant) (p : Pass J)
      → r.workflow_store ≡ true
      → restart_workflows r now p ≡ recover_workflows r now p.work.workflows p
  unfolding restart_workflows
  restart_workflows_on r now p on =
      ap (λ b. if b then recover_workflows r now p.work.workflows p else (p, ok tt)) on

  pub record Restarted (w : Work J) (o : Outcome J (Unit {0})) : Type 0 where
    pub after : Pass J
    pub is_ok : o ≡ (after, ok tt)
    pub leased : all_leased after.work ≡ true
    pub workflows : after.work.workflows ≡ w.workflows

  -- With a store of workflows, `reconcile_startup` never fails, and after it every task of an active
  -- workflow that is assigned or running has a lease.
  pub reconcile_startup-Restarted :
      (json : Json J) (git : Repository) (reads : Metadata J) (parse_id : String → Option TaskId)
      (r : Reconciler) (now : Instant) (w : Work J)
      → r.workflow_store ≡ true
      → Restarted w (reconcile_startup json git reads parse_id r now w)
  unfolding reconcile_startup
  reconcile_startup-Restarted json git reads parse_id r now w on =
      let first = reconcile-Reconciled reads parse_id r now w in
      let p = first.after in
      let done = recover_workflows-Cleared now r p.work.workflows p in
      let same = restart_missions-SameTasks json git r now done.after in
      let last = restart_missions json git r now done.after in
      let listed = same.workflows ∙ done.workflows in
      record {
        after = last;
        is_ok = rw (first.is_ok, restart_workflows_on r now p on, done.is_ok) refl;
        leased =
            all_in-of_Has
              (λ t. not (is_of_active last.work.workflows t && is_orphaned_task last.work t))
              last.work.tasks
              (λ t m.
                rw
                  (
                    listed,
                    is_orphaned_task-leases now p.work last.work t (same.leases ∙ done.leases),
                  )
                  (spared_all p.work.workflows t (is_orphaned_task p.work t) (λ wf i y e.
                    elim (Bool-cases (is_orphaned_task p.work t)) [
                      | inr f ↦ f
                      | inl f ↦
                          done.spared t wf (subst (λ l. Has t l) same.tasks m)
                            (orphan_held now t p.work f) i y e
                    ])));
        workflows = listed ∙ first.workflows;
      }
