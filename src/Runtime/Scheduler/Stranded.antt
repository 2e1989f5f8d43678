-- ===== src/Runtime/Scheduler/Stranded.antt =====
-- What `tick` (crates/plexis-runtime/src/scheduler.rs) makes of a task that comes back with the attempts
-- that it was sent off with.
use text.Mathlib.Text.{◌==◌ as str_eq}
use axonel.Prelude.{
  ◌+◌, ◌%◌, ◌^◌, ◌≡◌, refl, ap, ◌∙◌, String, Bool, true, false, ◌||◌, ◌==◌, some, List, [], ◌∷◌, ok,
  err, arith, is_some,
}
use axonel.Prelude.Rows.{update_row, changed, find_row-update_row}
use axonel.Core.Ids.{AgentId, WorkflowId}
use axonel.Core.State.Task.{TaskState}
use axonel.Core.Task.{Task}
use axonel.Core.Lease.{Lease}
use axonel.Core.Command as Command
use axonel.Core.Command.{Command}
use axonel.Storage.Leases.{Tables}
use axonel.Storage.Work.{
  Work, Outcome, idempotency_conflict, task_key, written_task, get_task, update_task, has_key,
}
use axonel.Runtime.LeaseManager.{acquire}
use axonel.Runtime.Scheduler.{
  Context, Launch, is_schedulable, assign, assigned, execute_task, leased, launch, five_minutes,
}
use axonel.Runtime.Scheduler.Launches.{assign-ok, claim_again}

-- A command has the key.
abbrev pub is_key_taken : {J : Type 0} → String → List (Command J) → Bool
is_key_taken key [] = false
is_key_taken key (c ∷ rest) = str_eq c.idempotency_key key || is_key_taken key rest

has_key-taken :
    {J : Type 0} (c : Command J) (rows : List (Command J))
    → is_key_taken c.idempotency_key rows ≡ true
    → has_key c rows ≡ true
unfolding has_key
has_key-taken c [] h = h
has_key-taken c (d ∷ rows) h = ground (arith, has_key-taken c rows)

execute_task-key :
    {J : Type 0} (context : Context J) (workflow_id : WorkflowId) (t : Task J) (agent : AgentId)
    (g : Lease)
    → (execute_task context workflow_id t agent g).idempotency_key
      ≡ context.idempotency_key t.id ((t.attempts + 1) % 2 ^ 32)
unfolding execute_task Command.new
execute_task-key context workflow_id t agent g = refl

module _ {J : Type 0} (context : Context J) where
  abbrev pub attempt_key : Task J → String
  attempt_key t = context.idempotency_key t.id ((t.attempts + 1) % 2 ^ 32)

  -- The task is assigned to the agent, under the lease, and there is no job.
  pub record Stranded (t : Task J) (agent : AgentId) (tables : Tables) (o : Outcome J (Launch J))
      : Type 0 where
    pub left : Work J
    pub fails : o ≡ (left, err (idempotency_conflict (attempt_key t)))
    pub leases : left.leases ≡ tables
    pub row : Task J
    pub found : get_task t.id left ≡ some row
    pub is_assigned : row.state ≡ TaskState.assigned
    pub has_agent : row.assigned_agent_id ≡ some agent
    pub same_attempts : row.attempts ≡ t.attempts

  assign-attempts : (t : Task J) → (assign context t).0.attempts ≡ t.attempts
  unfolding assign
  assign-attempts t = ground arith

  -- A task that may be scheduled, whose lease is granted, while a command has the key of its next
  -- attempt: the call fails, with the task assigned under the new lease, its attempts as they were.
  pub launch-Stranded :
      (workflow_id : WorkflowId) (t : Task J) (agent : AgentId) (s : Work J) (tables : Tables)
      (g : Lease)
      → get_task t.id s ≡ some t
      → is_schedulable t.state ≡ true
      → is_key_taken (attempt_key t) s.commands ≡ true
      → acquire
          (context.lease_id t.id)
          (context.granted_at t.id)
          (context.acquired_at t.id)
          t.id
          agent
          five_minutes
          s.leases
        ≡ (tables, ok g)
      → Stranded t agent tables (launch context workflow_id t agent s)
  unfolding launch leased assigned update_task get_task
  launch-Stranded workflow_id t agent s tables g here may old e =
      let (goes, same, state) = assign-ok context t may in
      let back = (assign context t).0 in
      let task : Task J = record back { assigned_agent_id = some agent } in
      let u : Work J = record s {
        tasks = update_row task_key back.id (written_task task) s.tasks;
        leases = tables;
      } in
      let command = execute_task context workflow_id task agent g in
      let key_of_command : command.idempotency_key
          ≡ context.idempotency_key task.id ((task.attempts + 1) % 2 ^ 32) =
        execute_task-key context workflow_id task agent g in
      let same_key : command.idempotency_key ≡ attempt_key t =
        key_of_command
        ∙ (λ i. context.idempotency_key (same i) ((assign-attempts t i + 1) % 2 ^ 32)) in
      let reached : launch context workflow_id t agent s
          ≡ assigned context workflow_id agent g (back, ok tt) (record s { leases = tables }) =
        rw (e, goes) refl in
      let present : is_some (get_task back.id s) ≡ true = rw (same, here) refl in
      record {
        left = u;
        fails =
            reached
            ∙ rw present (
                claim_again context task.id g.id command u
                  (has_key-taken command s.commands (rw same_key old)))
            ∙ ap (λ k. (u, err (idempotency_conflict k))) same_key;
        leases = refl;
        row = written_task task t;
        found =
            let self : (back.id == t.id) ≡ true = ground (arith, same) in
            find_row-update_row task_key (written_task task) (λ x. refl) back.id s.tasks t.id
            ∙ rw self (ap (changed (written_task task)) here);
        is_assigned = state;
        has_agent = refl;
        same_attempts = assign-attempts t;
      }
