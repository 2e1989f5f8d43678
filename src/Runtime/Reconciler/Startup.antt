-- ===== src/Runtime/Reconciler/Startup.antt =====
-- `reconcile_startup` of crates/plexis-runtime/src/reconciler.rs: what a start of the server adds to
-- `reconcile`. Git is the record `Repository` of what it answers; `merge --abort`, whose result is
-- dropped, changes nothing but the repository.
use axonel.Prelude.{
  String, Bool, true, false, not, ◌&&◌, ◌||◌, Option, none, some, is_some, List, [], ◌∷◌, ◌++◌,
  if◌then◌else◌, ite, Result, ok, err, and_then,
}
use axonel.Prelude.Map
use axonel.Core.Ids.{TaskId, WorkflowId, WorkspaceId, Instant}
use axonel.Core.State.Transition.{StateTransitionError}
use axonel.Core.State.Task.{is_runnable_candidate}
use axonel.Core.State.Workflow.{WorkflowState, WorkflowState-discrete}
use axonel.Core.State.Mission.{MissionState, MissionState-discrete}
use axonel.Core.Task.{Task, unassign}
use axonel.Core.Workflow.{Workflow}
use axonel.Core.Mission.{Mission}
use axonel.Storage.Leases.{get_lease_by_task}
use axonel.Storage.Work.{
  Work, orphan_recovered, integration_reconciled, mission_resumable, list_tasks_by_workflow,
  update_mission,
}
use axonel.Runtime.Engine.Store.{Json}
use axonel.Runtime.Selector.{Metadata, and_then_read, unwrap_or}
use axonel.Runtime.Reconciler.{Reconciler, Pass, Outcome, is_held, emit, return_task, reconcile}

module _ {J : Type 0} where
  unfoldable pub is_orphaned_task : Work J → Task J → Bool
  unfolding get_lease_by_task
  is_orphaned_task w t = is_held t.state && not (is_some (get_lease_by_task t.id w.leases))

  -- The answer is whether the task is now one that may run.
  unfoldable pub recovered :
      Reconciler
      → Instant
      → WorkflowId
      → Task J × Result StateTransitionError (Unit {0})
      → Pass J
      → Outcome J Bool
  unfolding return_task
  recovered r now wf (t, ok _) p =
      and_then
        (return_task r now "Orphaned external agent execution reconciled during startup"
          (orphan_recovered t.id wf) t p)
        λ q _. (q, ok (is_runnable_candidate t.state))
  recovered r now wf (t, err e) p = (p, ok (is_runnable_candidate t.state))

  -- One round of `for mut task in tasks`.
  unfoldable pub recover_task : Reconciler → Instant → WorkflowId → Task J → Pass J → Outcome J Bool
  unfolding is_orphaned_task recovered unassign
  recover_task r now wf t p =
      if is_orphaned_task p.work t
      then recovered r now wf (unassign now t) p
      else (p, ok (is_runnable_candidate t.state))

  unfoldable pub recover_tasks :
      Reconciler → Instant → WorkflowId → List (Task J) → Pass J → Outcome J Bool
  unfolding recover_task
  recover_tasks r now wf [] p = (p, ok false)
  recover_tasks r now wf (t ∷ ts) p =
      and_then (recover_task r now wf t p)
        λ q here. and_then (recover_tasks r now wf ts q) λ q' further. (q', ok (here || further))

  abbrev pub push_resumable : WorkflowId → Bool → Pass J → Pass J
  push_resumable wf false p = p
  push_resumable wf true p = record p {
    report = record p.report { resumable_workflows = p.report.resumable_workflows ++ wf ∷ [] };
  }

  -- One round of `for wf in active_workflows`, its filter with it.
  unfoldable pub recover_workflow :
      Reconciler → Instant → Workflow J → Pass J → Outcome J (Unit {0})
  unfolding recover_tasks list_tasks_by_workflow WorkflowState-discrete
  recover_workflow r now wf p =
      ite (WorkflowState-discrete wf.state WorkflowState.active)
        (and_then (recover_tasks r now wf.id (list_tasks_by_workflow wf.id p.work) p)
          λ q has_runnable. (push_resumable wf.id has_runnable q, ok tt))
        (p, ok tt)

  unfoldable pub recover_workflows :
      Reconciler → Instant → List (Workflow J) → Pass J → Outcome J (Unit {0})
  unfolding recover_workflow
  recover_workflows r now [] p = (p, ok tt)
  recover_workflows r now (wf ∷ wfs) p =
      and_then (recover_workflow r now wf p) λ q _. recover_workflows r now wfs q

  unfoldable pub restart_workflows : Reconciler → Instant → Pass J → Outcome J (Unit {0})
  unfolding recover_workflows
  restart_workflows r now p =
      if r.workflow_store then recover_workflows r now p.work.workflows p else (p, ok tt)

-- What the reconciler asks of Git, at the path of a workspace: whether a commit stands in the
-- history of a branch. `rfc3339` prints an instant.
pub record Repository : Type 0 where
  pub is_ancestor : (path commit branch : String) → Bool
  pub rfc3339 : Instant → String

module _ {J : Type 0} (json : Json J) (git : Repository) where
  unfoldable pub intent : String → Mission J → Option String
  intent field m =
      and_then_read (and_then_read (json.get "integration_intent" m.metadata) (json.get field))
        json.as_str

  abbrev pub or_else : {A : Type 0} → Option A → Option A → Option A
  or_else none b = b
  or_else (some a) b = some a

  unfoldable pub candidate_commit : Mission J → Option String
  unfolding intent
  candidate_commit m = or_else m.latest_verified_commit (intent "candidate_commit" m)

  unfoldable pub target_branch : Mission J → String
  unfolding intent
  target_branch m = unwrap_or "main" (
      or_else (intent "target_branch" m)
        (and_then_read (json.get "integration_target_branch" m.metadata) json.as_str))

  abbrev pub path_of : Map.Map String → Option WorkspaceId → Option String
  path_of workspaces none = none
  path_of workspaces (some id) = Map.get workspaces id

  abbrev pub is_reachable : Option String → Option String → String → Bool
  is_reachable (some path) (some commit) branch = git.is_ancestor path commit branch
  is_reachable _ _ branch = false

  unfoldable pub is_integrated : Reconciler → Work J → Mission J → Bool
  unfolding candidate_commit target_branch Map.get
  is_integrated r w m =
      r.workspace_store
      && is_reachable (path_of w.workspaces m.workspace_id) (candidate_commit m) (target_branch m)

  unfoldable pub resolved : Instant → Bool → Mission J → Mission J
  unfolding target_branch
  resolved now true m = record m {
    state = MissionState.integrated;
    metadata =
        json.set "reconciliation_reason" (json.text "candidate_commit_reachable_in_target_branch") (
          json.set "reconciled_at" (json.text (git.rfc3339 now)) (
            json.set "integration_target_branch" (json.text (target_branch m)) (
              json.set "integrated_at" (json.text (git.rfc3339 now))
                (json.set "integrated" (json.flag true) m.metadata))));
  }
  resolved now false m = record m {
    state = MissionState.accepted;
    metadata =
        json.set "reconciliation_reason" (json.text "candidate_commit_not_integrated_on_disk") (
          json.set "reconciled_at" (json.text (git.rfc3339 now)) (
            json.set "integration_error"
              (json.text
                "Integration interrupted by server restart; candidate commit not reachable in target branch. Reset to accepted.")
              m.metadata));
  }

  abbrev pub is_under_way : MissionState → Bool
  is_under_way MissionState.planning = true
  is_under_way MissionState.running = true
  is_under_way MissionState.replanning = true
  is_under_way MissionState.verifying = true
  is_under_way _ = false

  unfoldable pub resolve_integration : Reconciler → Instant → Mission J → Pass J → Pass J
  unfolding is_integrated resolved update_mission
  resolve_integration r now m p =
      let m' = resolved now (is_integrated r p.work m) m in
      emit (integration_reconciled m'.id m'.state) (record {
        work = update_mission m' p.work;
        report = record p.report {
          missions_reconciled = p.report.missions_reconciled ++ m'.id ∷ [];
        };
      })

  abbrev pub push_mission : Mission J → Pass J → Pass J
  push_mission m p = record p {
    report = record p.report { resumable_missions = p.report.resumable_missions ++ m.id ∷ [] };
  }

  -- One round of `for mut m in missions`.
  unfoldable pub reconcile_mission : Reconciler → Instant → Mission J → Pass J → Pass J
  unfolding resolve_integration MissionState-discrete
  reconcile_mission r now m p =
      ite (MissionState-discrete m.state MissionState.integrating) (resolve_integration r now m p) (
        if is_under_way m.state
        then emit (mission_resumable m.id m.state m.cycle_index) (push_mission m p)
        else p)

  unfoldable pub reconcile_missions : Reconciler → Instant → List (Mission J) → Pass J → Pass J
  unfolding reconcile_mission
  reconcile_missions r now [] p = p
  reconcile_missions r now (m ∷ ms) p = reconcile_missions r now ms (reconcile_mission r now m p)

  unfoldable pub restart_missions : Reconciler → Instant → Pass J → Pass J
  unfolding reconcile_missions
  restart_missions r now p =
      if r.mission_store then reconcile_missions r now p.work.missions p else p

  unfoldable pub reconcile_startup :
      Metadata J → (String → Option TaskId) → Reconciler → Instant → Work J → Outcome J (Unit {0})
  unfolding reconcile restart_workflows restart_missions
  reconcile_startup reads parse_id r now w =
      and_then (reconcile reads parse_id r now w)
        λ p _. and_then (restart_workflows r now p) λ q _. (restart_missions r now q, ok tt)
