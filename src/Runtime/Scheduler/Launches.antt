-- ===== src/Runtime/Scheduler/Launches.antt =====
-- What steps 1 to 4 of `tick` (crates/plexis-runtime/src/scheduler.rs) make of one task and its agent.
use axonel.Prelude.{
  String, ◌≡◌, ◌⊎◌, refl, sym, ap, ◌∙◌, true, false, ◌==◌, some, is_some, List, [], ◌∷◌, ◌++◌, ok,
  err, arith, Bool-cases, inl, inr, Has, if◌then◌else◌,
}
use axonel.Prelude.Rows.{find_row, update_row, changed, find_row-update_row}
use axonel.Core.Ids.{TaskId, AgentId, WorkflowId, LeaseId}
use axonel.Core.State.Task.{TaskState}
use axonel.Core.State.Command.{CommandState}
use axonel.Core.Task.{Task, transition_to}
use axonel.Core.Lease as Lease
use axonel.Core.Lease.{Lease}
use axonel.Core.Command as Command
use axonel.Core.Command.{Command}
use axonel.Storage.Leases.{Tables}
use axonel.Storage.Leases.Runs.{acquire_lease-Acquired, refused, failed, granted}
use axonel.Storage.Leases.Others.{distinct_leases, Added, acquire_lease-Added}
use axonel.Storage.Work.{
  Work, idempotency_conflict, Outcome, is_claimable, claimed, task_key, command_key, written_task,
  get_task, update_task, has_key, enqueue_command, claim_command_by_id,
}
use axonel.Runtime.LeaseManager.{acquire}
use axonel.Runtime.Scheduler.{
  Context, Job, Launch, taken, launched, is_schedulable, execute_task, claim, assigned, assign,
  leased, launch, five_minutes,
}

module _ {J : Type 0} where
  -- The job's command goes to the agent, whose lease of the task is in the table; the task is
  -- assigned to that agent.
  pub record Backed (w : Work J) (job : Job J) (task : TaskId) (agent : AgentId) : Type 0 where
    pub lease : Lease
    pub listed : Has lease w.leases.leases
    pub same_lease : lease.id ≡ job.lease_id
    pub of_task : lease.task_id ≡ task
    pub to_agent : lease.agent_id ≡ agent
    pub target : job.command.target ≡ Command.agent agent
    pub dispatched : job.command.state ≡ CommandState.dispatched
    pub row : Task J
    pub found : get_task task w ≡ some row
    pub is_assigned : row.state ≡ TaskState.assigned
    pub has_agent : row.assigned_agent_id ≡ some agent

  -- The other tasks and their leases, and that identifiers of leases differ.
  pub record Spares (task : TaskId) (s t : Work J) : Type 0 where
    pub rows : (j : TaskId) → (task == j) ≡ false → get_task j t ≡ get_task j s
    pub leases :
        (l : Lease) → Has l s.leases.leases → (l.task_id == task) ≡ false → Has l t.leases.leases
    pub distinct : distinct_leases t.leases.leases ≡ true

  pub data Launched (task : TaskId) (agent : AgentId) (s : Work J) (o : Outcome J (Launch J))
      : Type 0 where
    is_taken : o ≡ (s, ok taken) → Launched task agent s o
    is_launched :
        (t : Work J) (job : Job J)
        → o ≡ (t, ok (launched job))
        → Backed t job task agent
        → Spares task s t
        → Launched task agent s o
    fails :
        (t : Work J) (key : String)
        → o ≡ (t, err (idempotency_conflict key))
        → Launched task agent s o

  Launched-at :
      {task : TaskId} {agent : AgentId} {s : Work J} {o o' : Outcome J (Launch J)}
      → o ≡ o'
      → Launched task agent s o'
      → Launched task agent s o
  Launched-at e (is_taken f) = is_taken (e ∙ f)
  Launched-at e (is_launched t job f b k) = is_launched t job (e ∙ f) b k
  Launched-at e (fails t x f) = fails t x (e ∙ f)

module _ {J : Type 0} (context : Context J) where
  -- A task that is ready or in the backlog can be assigned.
  pub assign-ok :
      (t : Task J)
      → is_schedulable t.state ≡ true
      → (assign context t ≡ ((assign context t).0, ok tt))
        × ((assign context t).0.id ≡ t.id)
        × ((assign context t).0.state ≡ TaskState.assigned)
  unfolding assign transition_to
  assign-ok t h = ground arith

  find_row-snoc :
      (c : Command J) (rows : List (Command J))
      → has_key c rows ≡ false
      → find_row command_key c.id (rows ++ c ∷ []) ≡ some c
  unfolding has_key find_row
  find_row-snoc c [] h = ground arith
  find_row-snoc c (d ∷ rows) h = ground (arith, find_row-snoc c rows)

  record Claimed (lease_id : LeaseId) (c : Command J) (s : Work J) (o : Outcome J (Launch J))
      : Type 0 where
    pub after : Work J
    pub job : Job J
    pub is_ok : o ≡ (after, ok (launched job))
    pub tasks : after.tasks ≡ s.tasks
    pub leases : after.leases ≡ s.leases
    pub same_lease : job.lease_id ≡ lease_id
    pub target : job.command.target ≡ c.target
    pub dispatched : job.command.state ≡ CommandState.dispatched

  claim-Claimed :
      (id : TaskId) (lease_id : LeaseId) (c : Command J) (s : Work J)
      → has_key c s.commands ≡ false
      → c.state ≡ CommandState.queued
      → Claimed lease_id c s (claim context id lease_id c s)
  unfolding claim enqueue_command claim_command_by_id
  claim-Claimed id lease_id c s fresh queued =
      let claimable : is_claimable c.state ≡ true = ap is_claimable queued in
      record {
        after = record s {
          commands =
              update_row command_key c.id (claimed (context.claimed_at id)) (s.commands ++ c ∷ []);
        };
        job = record { command = claimed (context.claimed_at id) c; lease_id = lease_id };
        is_ok = rw (fresh, find_row-snoc c s.commands fresh, claimable) refl;
        tasks = refl;
        leases = refl;
        same_lease = refl;
        target = refl;
        dispatched = refl;
      }

  pub claim_again :
      (id : TaskId) (lease_id : LeaseId) (c : Command J) (s : Work J)
      → has_key c s.commands ≡ true
      → claim context id lease_id c s ≡ (s, err (idempotency_conflict c.idempotency_key))
  unfolding claim enqueue_command
  claim_again id lease_id c s old = rw old refl

  -- The tables once the task is assigned.
  record Assigned (agent : AgentId) (lease : Lease) (t : Task J) (s : Work J)
      (o : Outcome J (Launch J)) : Type 0 where
    pub after : Work J
    pub job : Job J
    pub is_ok : o ≡ (after, ok (launched job))
    pub tasks :
        after.tasks
        ≡ update_row task_key t.id
            (written_task (record t { assigned_agent_id = some agent }))
            s.tasks
    pub leases : after.leases ≡ s.leases
    pub same_lease : job.lease_id ≡ lease.id
    pub target : job.command.target ≡ Command.agent agent
    pub dispatched : job.command.state ≡ CommandState.dispatched

  assigned_cases :
      (workflow_id : WorkflowId) (agent : AgentId) (lease : Lease) (t : Task J) (s : Work J)
      → is_some (get_task t.id s) ≡ true
      → Assigned agent lease t s (assigned context workflow_id agent lease (t, ok tt) s)
        ⊎ ((u : Work J) × (key : String) × (assigned context workflow_id agent lease (t, ok tt) s
              ≡ (u, err (idempotency_conflict key))))
  unfolding assigned update_task execute_task Command.new
  assigned_cases workflow_id agent lease t s here =
      let task : Task J = record t { assigned_agent_id = some agent } in
      let command = execute_task context workflow_id task agent lease in
      let u : Work J = record s { tasks = update_row task_key t.id (written_task task) s.tasks } in
      elim (Bool-cases (has_key command s.commands)) [
        | inr fresh ↦
            let r = claim-Claimed t.id lease.id command u fresh refl in
            inl (record {
              after = r.after;
              job = r.job;
              is_ok = rw here r.is_ok;
              tasks = r.tasks;
              leases = r.leases;
              same_lease = r.same_lease;
              target = r.target;
              dispatched = r.dispatched;
            })
        | inl old ↦
            inr (u, command.idempotency_key, rw here (claim_again t.id lease.id command u old))
      ]

  Backed-Assigned :
      (id : TaskId) (agent : AgentId) (t row : Task J) (g : Lease) (s : Work J) (tables : Tables)
      (o : Outcome J (Launch J))
      → t.id ≡ id
      → get_task id s ≡ some row
      → t.state ≡ TaskState.assigned
      → Added
          (Lease.new (context.lease_id id) (context.granted_at id) id agent five_minutes)
          s.leases
          tables
          g
      → Assigned agent g t (record s { leases = tables }) o
      → Launched id agent s o
  unfolding Lease.new get_task
  Backed-Assigned id agent t row g s tables o same here state r a =
      let task : Task J = record t { assigned_agent_id = some agent } in
      let found = λ (j : TaskId).
        ap (find_row task_key j) a.tasks
        ∙ find_row-update_row task_key (written_task task) (λ x. refl) t.id s.tasks j in
      let apart = λ (j : TaskId) (n : (id == j) ≡ false).
        let other : (t.id == j) ≡ false = ground (arith, same) in
        ap (λ b. if b then changed (written_task task) (get_task j s) else get_task j s) other in
      is_launched a.after a.job a.is_ok
        (record {
          lease = g;
          listed = rw (a.leases) r.added;
          same_lease = sym a.same_lease;
          of_task = r.same_task;
          to_agent = r.same_agent;
          target = a.target;
          dispatched = a.dispatched;
          row = written_task task row;
          found =
              let self : (t.id == id) ≡ true = ground (arith, same) in
              found id ∙ rw self (ap (changed (written_task task)) here);
          is_assigned = state;
          has_agent = refl;
        })
        (record {
          rows = λ j n. found j ∙ apart j n;
          leases = λ l m n. rw (a.leases) (r.others l m n);
          distinct = rw (a.leases) r.distinct;
        })

  -- For a task that may be scheduled: another holds its lease, and nothing changes; or there is a job,
  -- and only this task and its lease changed; or the store refuses a call.
  pub launch-Launched :
      (workflow_id : WorkflowId) (t : Task J) (agent : AgentId) (s : Work J)
      → distinct_leases s.leases.leases ≡ true
      → get_task t.id s ≡ some t
      → is_schedulable t.state ≡ true
      → Launched t.id agent s (launch context workflow_id t agent s)
  unfolding launch leased acquire
  launch-Launched workflow_id t agent s d here may =
      let lease =
        Lease.new (context.lease_id t.id) (context.granted_at t.id) t.id agent five_minutes in
      let (goes, same, state) = assign-ok t may in
      elim (acquire_lease-Acquired (context.acquired_at t.id) lease s.leases) [
        | refused _ e ↦ is_taken (rw e refl)
        | failed _ e ↦ is_taken (rw e refl)
        | granted _ tables g e _ ↦
            let back = (assign context t).0 in
            let u : Work J = record s { leases = tables } in
            let reached : launch context workflow_id t agent s
                ≡ assigned context workflow_id agent g (back, ok tt) u =
              rw (e, goes) refl in
            elim (assigned_cases workflow_id agent g back u (rw (same, here) refl)) [
              | inl a ↦ Launched-at reached (
                  Backed-Assigned t.id agent back t g s tables _ same here state
                    (acquire_lease-Added (context.acquired_at t.id) lease s.leases tables g d e) a)
              | inr (v, x, f) ↦ fails v x (reached ∙ f)
            ]
      ]
