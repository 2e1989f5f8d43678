-- ===== src/Runtime/Reconciler/Orphans.antt =====
-- What the loop over the active workflows of `reconcile_startup`
-- (crates/plexis-runtime/src/reconciler.rs) leaves of the tasks without a lease.
use axonel.Prelude.{
  ◌≡◌, refl, sym, ap, ◌∙◌, subst, Bool, true, false, ◌||◌, ◌==◌, Option, none, some, is_some, List,
  [], ◌∷◌, ok, arith, Bool-cases, inl, inr, Has, if◌then◌else◌, if_pos, if_neg,
}
use axonel.Prelude.Rows.{
  find_row, update_row, find_row-update_row, changed, sweep, sweep-spares, Has-kept_if,
  Has-of_kept_if, Has-find_row,
}
use axonel.Core.Ids.{TaskId, WorkflowId, Instant}
use axonel.Core.State.Task.{is_runnable_candidate}
use axonel.Core.State.Workflow.{WorkflowState, WorkflowState-discrete}
use axonel.Core.Task.{Task, unassign}
use axonel.Core.Workflow.{Workflow}
use axonel.Storage.Leases.{get_lease_by_task}
use axonel.Storage.Work.{
  Work, orphan_recovered, task_key, written_task, get_task, tasks_of, list_tasks_by_workflow,
}
use axonel.Runtime.Reconciler.{Pass, Outcome, Reconciler, is_held}
use axonel.Runtime.Reconciler.Startup.{
  is_orphaned_task, recovered, recover_task, recover_tasks, push_resumable, recover_workflow,
  recover_workflows,
}
use axonel.Runtime.Reconciler.Returned.{return_task-Returned, unassign_held}

module _ {J : Type 0} (now : Instant) where
  abbrev rewritten : Task J → Task J → Task J
  rewritten t = written_task (unassign now t).0

  -- The call went through, with these tasks and the leases and workflows of before.
  record Swept (tasks : List (Task J)) (p : Pass J) {A : Type 0} (o : Outcome J A) : Type 0 where
    pub after : Pass J
    pub answer : A
    pub is_ok : o ≡ (after, ok answer)
    pub swept : after.work.tasks ≡ tasks
    pub leases : after.work.leases ≡ p.work.leases
    pub workflows : after.work.workflows ≡ p.work.workflows

  pub orphan_held : (t : Task J) (w : Work J) → is_orphaned_task w t ≡ true → is_held t.state ≡ true
  unfolding is_orphaned_task
  orphan_held t w e = ground arith

  recover_task-Swept :
      (r : Reconciler) (wf : WorkflowId) (t : Task J) (p : Pass J)
      → is_some (get_task t.id p.work) ≡ true
      → Swept
          (if is_orphaned_task p.work t
            then update_row task_key t.id (rewritten t) p.work.tasks
            else p.work.tasks)
          p
          (recover_task r now wf t p)
  unfolding recover_task recovered
  recover_task-Swept r wf t p here = elim (Bool-cases (is_orphaned_task p.work t)) [
    | inr e ↦ record {
      after = p;
      answer = is_runnable_candidate t.state;
      is_ok = rw e refl;
      swept = rw e refl;
      leases = refl;
      workflows = refl;
    }
    | inl e ↦
        let held : is_held t.state ≡ true = orphan_held t p.work e in
        let (goes, same, ready) = unassign_held now t held in
        let back = (unassign now t).0 in
        let done =
          return_task-Returned r now "Orphaned external agent execution reconciled during startup"
            (orphan_recovered back.id wf) back p (rw same here) in
        record {
          after = done.after;
          answer = is_runnable_candidate back.state;
          is_ok = rw (e, goes, done.is_ok) refl;
          swept =
              rw e (done.tasks ∙ ap (λ k. update_row task_key k (rewritten t) p.work.tasks) same);
          leases = done.leases;
          workflows = done.workflows;
        }
  ]

  pub is_orphaned_task-leases :
      (s w : Work J) (t : Task J)
      → w.leases ≡ s.leases
      → is_orphaned_task w t ≡ is_orphaned_task s t
  unfolding is_orphaned_task get_lease_by_task
  is_orphaned_task-leases s w t e = rw e refl

  still_there :
      (b : Bool) (t : Task J) (rows : List (Task J)) (id : TaskId)
      → is_some (find_row task_key id rows) ≡ true
      → is_some
          (find_row task_key id (if b then update_row task_key t.id (rewritten t) rows else rows))
        ≡ true
  still_there true t rows id h =
      rw (find_row-update_row task_key (rewritten t) (λ a. refl) t.id rows id)
        (kept (t.id == id) (find_row task_key id rows) h)
    where
      kept :
          (b : Bool) (o : Option (Task J))
          → is_some o ≡ true
          → is_some (if b then changed (rewritten t) o else o) ≡ true
      kept true none h = h
      kept true (some a) h = refl
      kept false o h = h
  still_there false t rows id h = h

  recover_tasks-Swept :
      (r : Reconciler) (wf : WorkflowId) (s : Work J) (ts : List (Task J)) (p : Pass J)
      → p.work.leases ≡ s.leases
      → ((t : Task J) → Has t ts → is_some (get_task t.id p.work) ≡ true)
      → Swept
          (sweep task_key (is_orphaned_task s) rewritten ts p.work.tasks)
          p
          (recover_tasks r now wf ts p)
  unfolding recover_tasks sweep get_task
  recover_tasks-Swept r wf s [] p same here = record {
    after = p;
    answer = false;
    is_ok = refl;
    swept = refl;
    leases = refl;
    workflows = refl;
  }
  recover_tasks-Swept r wf s (t ∷ ts) p same here =
      let first = recover_task-Swept r wf t p (here t (inl refl)) in
      let rest = recover_tasks-Swept r wf s ts first.after (first.leases ∙ same) (λ u m.
        rw (first.swept)
          (still_there (is_orphaned_task p.work t) t p.work.tasks u.id (here u (inr m)))) in
      record {
        after = rest.after;
        answer = first.answer || rest.answer;
        is_ok = rw (first.is_ok, rest.is_ok) refl;
        swept = rw (rest.swept, first.swept, is_orphaned_task-leases s p.work t same) refl;
        leases = rest.leases ∙ first.leases;
        workflows = rest.workflows ∙ first.workflows;
      }

  Has-tasks_of :
      (id : WorkflowId) (t : Task J) (rows : List (Task J))
      → Has t rows
      → (t.workflow_id == id) ≡ true
      → Has t (tasks_of id rows)
  unfolding tasks_of
  Has-tasks_of id t [] m e = m
  Has-tasks_of id t (u ∷ rest) (inl q) e =
      Has-kept_if (u.workflow_id == id) t u (tasks_of id rest)
        (inl (q, ground (arith, ap (λ (x : Task J). x.workflow_id) q)))
  Has-tasks_of id t (u ∷ rest) (inr n) e =
      Has-kept_if (u.workflow_id == id) t u (tasks_of id rest) (inr (Has-tasks_of id t rest n e))

  Has-of_tasks_of :
      (id : WorkflowId) (t : Task J) (rows : List (Task J)) → Has t (tasks_of id rows) → Has t rows
  unfolding tasks_of
  Has-of_tasks_of id t [] m = m
  Has-of_tasks_of id t (u ∷ rest) m =
      elim (Has-of_kept_if (u.workflow_id == id) t u (tasks_of id rest) m) [
        | inl e ↦ inl e
        | inr n ↦ inr (Has-of_tasks_of id t rest n)
      ]

  -- What is held at the end of the loop was held before, and no active workflow has it as an orphan.
  pub record Cleared (wfs : List (Workflow J)) (p : Pass J) (o : Outcome J (Unit {0}))
      : Type 0 where
    pub after : Pass J
    pub is_ok : o ≡ (after, ok tt)
    pub leases : after.work.leases ≡ p.work.leases
    pub workflows : after.work.workflows ≡ p.work.workflows
    pub old : (t : Task J) → Has t after.work.tasks → is_held t.state ≡ true → Has t p.work.tasks
    pub spared :
        (t : Task J) (wf : Workflow J)
        → Has t after.work.tasks
        → is_held t.state ≡ true
        → Has wf wfs
        → wf.state ≡ WorkflowState.active
        → (t.workflow_id == wf.id) ≡ true
        → is_orphaned_task p.work t ≡ false

  rewritten_free :
      (t a : Task J) (w : Work J)
      → is_orphaned_task w t ≡ true
      → is_held (rewritten t a).state ≡ false
  rewritten_free t a w b = ap is_held (unassign_held now t (orphan_held t w b)).2

  push_resumable-work :
      (id : WorkflowId) (b : Bool) (p : Pass J) → (push_resumable id b p).work ≡ p.work
  push_resumable-work id true p = refl
  push_resumable-work id false p = refl

  recover_workflow-Cleared :
      (r : Reconciler) (wf : Workflow J) (p : Pass J)
      → Cleared (wf ∷ []) p (recover_workflow r now wf p)
  unfolding recover_workflow list_tasks_by_workflow get_task
  recover_workflow-Cleared r wf p = elim (WorkflowState-discrete wf.state WorkflowState.active) [
    | no n ↦ record {
      after = p;
      is_ok = if_neg (WorkflowState-discrete wf.state WorkflowState.active) n _ _;
      leases = refl;
      workflows = refl;
      old = λ t m h. m;
      spared = λ t v m h i e. elim i [
        | inl q ↦ absurd (n (sym (ap (λ (x : Workflow J). x.state) q) ∙ e))
        | inr k ↦ absurd k
      ];
    }
    | yes y ↦
        let rows = tasks_of wf.id p.work.tasks in
        let done =
          recover_tasks-Swept r wf.id p.work rows p refl (λ t m.
            Has-find_row task_key p.work.tasks t (Has-of_tasks_of wf.id t p.work.tasks m)) in
        let same = push_resumable-work wf.id done.answer done.after in
        let last = push_resumable wf.id done.answer done.after in
        let swept_from = λ (t : Task J) (m : Has t last.work.tasks) (h : is_held t.state ≡ true).
          sweep-spares task_key (is_orphaned_task p.work) (λ u. is_held u.state) rewritten
            (λ c a b. rewritten_free c a p.work b) rows p.work.tasks t
            (subst (λ l. Has t l) (ap (λ (w : Work J). w.tasks) same ∙ done.swept) m) h in
        record {
          after = last;
          is_ok =
              if_pos (WorkflowState-discrete wf.state WorkflowState.active) y _ _
              ∙ rw (done.is_ok) refl;
          leases = ap (λ (w : Work J). w.leases) same ∙ done.leases;
          workflows = ap (λ (w : Work J). w.workflows) same ∙ done.workflows;
          old = λ t m h. (swept_from t m h).0;
          spared = λ t v m h i e f. elim i [
            | inr k ↦ absurd k
            | inl q ↦
                (swept_from t m h).1 t
                  (Has-tasks_of wf.id t p.work.tasks (swept_from t m h).0
                    (rw (← ap (λ (x : Workflow J). x.id) q) f))
                  refl
          ];
        }
  ]

  pub recover_workflows-Cleared :
      (r : Reconciler) (wfs : List (Workflow J)) (p : Pass J)
      → Cleared wfs p (recover_workflows r now wfs p)
  unfolding recover_workflows recover_workflow
  recover_workflows-Cleared r [] p = record {
    after = p;
    is_ok = refl;
    leases = refl;
    workflows = refl;
    old = λ t m h. m;
    spared = λ t wf m h n. absurd n;
  }
  recover_workflows-Cleared r (wf ∷ wfs) p =
      let first = recover_workflow-Cleared r wf p in
      let rest = recover_workflows-Cleared r wfs first.after in
      record {
        after = rest.after;
        is_ok = rw (first.is_ok) rest.is_ok;
        leases = rest.leases ∙ first.leases;
        workflows = rest.workflows ∙ first.workflows;
        old = λ t m h. first.old t (rest.old t m h) h;
        spared = λ t v m h i e f. elim i [
          | inl q ↦ first.spared t v (rest.old t m h) h (inl q) e f
          | inr k ↦
              sym (is_orphaned_task-leases p.work first.after.work t first.leases)
              ∙ rest.spared t v m h k e f
        ];
      }
