-- ===== src/Runtime/Reconciler/Expiry.antt =====
-- What `reconcile` of crates/plexis-runtime/src/reconciler.rs leaves of the tasks whose leases expired.
use axonel.Prelude.{
  ◌≡◌, refl, ap, ◌∙◌, String, Bool, true, false, not, ◌||◌, ◌&&◌, if◌then◌else◌, ◌==◌, Option, none,
  some, List, [], ◌∷◌, ok, arith, Bool-cases, Option-cases, inl, inr,
}
use axonel.Prelude.Rows.{find_row, find_row-key, find_row-update_row, all_in, changed}
use axonel.Core.Ids.{TaskId, Instant}
use axonel.Core.Task.{Task, unassign}
use axonel.Storage.Leases.{expired_tasks, delete_expired, reclaim_expired_leases}
use axonel.Storage.Work.{Work, lease_reclaimed, task_key, written_task, get_task}
use axonel.Runtime.Selector.{Metadata}
use axonel.Runtime.Reconciler.{
  Pass, Outcome, Reconciler, default_report, is_held, note, no_such_task, push_reclaimed,
  given_back, release_found, release_task, release_tasks, reconcile_commands, reconcile_reclaimed,
  reconcile,
}
use axonel.Runtime.Reconciler.InFlight.{reconcile_commands-SameTasks}
use axonel.Runtime.Reconciler.Returned.{Returned, return_task-Returned, unassign_held}

module _ {J : Type 0} where
  abbrev pub holds : Option (Task J) → Bool
  holds none = false
  holds (some t) = is_held t.state

  -- The task is assigned or running.
  abbrev pub held_at : TaskId → Work J → Bool
  held_at id s = holds (get_task id s)

  holds-changed :
      (b : Bool) (w : Task J → Task J) (o : Option (Task J))
      → ((a : Task J) → is_held (w a).state ≡ false)
      → holds (if b then changed w o else o) ≡ (not b && holds o)
  holds-changed true w none h = refl
  holds-changed true w (some a) h = h a
  holds-changed false w o h = refl

  held_at-Returned :
      (task : Task J) (p : Pass J) (o : Outcome J (Unit {0})) (done : Returned task p o)
      (j : TaskId)
      → is_held task.state ≡ false
      → held_at j done.after.work ≡ (not (task.id == j) && held_at j p.work)
  unfolding get_task
  held_at-Returned task p o done j h =
      rw
        (
          done.tasks,
          find_row-update_row task_key (written_task task) (λ a. refl) task.id p.work.tasks j,
        )
        (holds-changed (task.id == j) (written_task task) (find_row task_key j p.work.tasks)
          (λ a. h))

  -- The round went through: the task is not held now, and no other became so.
  record Released (id : TaskId) (p : Pass J) (o : Outcome J (Unit {0})) : Type 0 where
    pub after : Pass J
    pub is_ok : o ≡ (after, ok tt)
    pub freed : held_at id after.work ≡ false
    pub only : (j : TaskId) → held_at j after.work ≡ true → held_at j p.work ≡ true
    pub leases : after.work.leases ≡ p.work.leases
    pub workflows : after.work.workflows ≡ p.work.workflows

  record AllReleased (ids : List TaskId) (p : Pass J) (o : Outcome J (Unit {0})) : Type 0 where
    pub after : Pass J
    pub is_ok : o ≡ (after, ok tt)
    pub freed : all_in (λ id. not (held_at id after.work)) ids ≡ true
    pub only : (j : TaskId) → held_at j after.work ≡ true → held_at j p.work ≡ true
    pub leases : after.work.leases ≡ p.work.leases
    pub workflows : after.work.workflows ≡ p.work.workflows

  still_free :
      (id : TaskId) (p q : Pass J)
      → ((j : TaskId) → held_at j q.work ≡ true → held_at j p.work ≡ true)
      → held_at id p.work ≡ false
      → held_at id q.work ≡ false
  still_free id p q only h = elim (Bool-cases (held_at id q.work)) [
    | inl e ↦ absurd (ground (arith, only id e))
    | inr e ↦ e
  ]

  release_found-Released :
      (r : Reconciler) (now : Instant) (id : TaskId) (p : Pass J)
      → Released id p (release_found r now id (get_task id p.work) p)
  unfolding release_found given_back get_task
  release_found-Released r now id p = elim (Option-cases (get_task id p.work)) [
    | inl e ↦ rw e (record {
      after = note (no_such_task id) p;
      is_ok = refl;
      freed = rw e refl;
      only = λ j h. h;
      leases = refl;
      workflows = refl;
    })
    | inr (t, e) ↦ elim (Bool-cases (is_held t.state)) [
      | inr f ↦
          rw (e, f)
            (record {
              after = p;
              is_ok = refl;
              freed = rw e f;
              only = λ j h. h;
              leases = refl;
              workflows = refl;
            })
      | inl f ↦
          let (goes, same, ready) = unassign_held now t f in
          let back = (unassign now t).0 in
          let named = find_row-key task_key id p.work.tasks t e in
          let done =
            return_task-Returned r now
              "Orphaned external agent execution reconciled after server restart / lease expiry"
              (lease_reclaimed id) back p (rw (same, named, e) refl) in
          let held = λ (j : TaskId). held_at-Returned back p _ done j (ap is_held ready) in
          record {
            after = done.after;
            is_ok = rw (e, f, goes) done.is_ok;
            freed = ground (arith, held id, same, named);
            only = λ j h. ground (arith, held j);
            leases = done.leases;
            workflows = done.workflows;
          }
    ]
  ]

  release_tasks-Released :
      (r : Reconciler) (now : Instant) (ids : List TaskId) (p : Pass J)
      → AllReleased ids p (release_tasks r now ids p)
  unfolding release_tasks release_task
  release_tasks-Released r now [] p = record {
    after = p;
    is_ok = refl;
    freed = refl;
    only = λ j h. h;
    leases = refl;
    workflows = refl;
  }
  release_tasks-Released r now (id ∷ ids) p =
      let here = release_found-Released r now id (push_reclaimed id p) in
      let rest = release_tasks-Released r now ids here.after in
      record {
        after = rest.after;
        is_ok = rw (here.is_ok) rest.is_ok;
        freed =
            ground (arith, rest.freed, still_free id here.after rest.after rest.only here.freed);
        only = λ j h. here.only j (rest.only j h);
        leases = rest.leases ∙ here.leases;
        workflows = rest.workflows ∙ here.workflows;
      }

  -- A pass went through: the leases that had expired are gone, no task that held one is assigned or
  -- running, and none became so that was not.
  pub record Reconciled (now : Instant) (w : Work J) (o : Outcome J (Unit {0})) : Type 0 where
    pub after : Pass J
    pub is_ok : o ≡ (after, ok tt)
    pub leases : after.work.leases.leases ≡ delete_expired now w.leases.leases
    pub freed :
        all_in (λ id. not (held_at id after.work)) (expired_tasks now w.leases.leases) ≡ true
    pub only : (j : TaskId) → (not (held_at j after.work) || held_at j w) ≡ true
    pub workflows : after.work.workflows ≡ w.workflows

  module _ (json : Metadata J) (parse_id : String → Option TaskId) where
    -- `reconcile` never fails. After it the leases that had expired are gone, each task that held one
    -- is neither assigned nor running, and no task is assigned or running that was not before.
    pub reconcile-Reconciled :
        (r : Reconciler) (now : Instant) (w : Work J)
        → Reconciled now w (reconcile json parse_id r now w)
    unfolding reconcile reconcile_reclaimed reclaim_expired_leases get_task default_report
    reconcile-Reconciled r now w =
        let start : Pass J = record {
          work = record w { leases = (reclaim_expired_leases now w.leases).0 };
          report = default_report;
        } in
        let done = release_tasks-Released r now (expired_tasks now w.leases.leases) start in
        let same = reconcile_commands-SameTasks json parse_id r now done.after in
        record {
          after = reconcile_commands json parse_id r now done.after;
          is_ok = rw (done.is_ok) refl;
          leases = rw (same.leases, done.leases) refl;
          freed = rw (same.tasks) done.freed;
          only = λ j. rw (same.tasks) (ground (arith, done.only j));
          workflows = same.workflows ∙ done.workflows;
        }
