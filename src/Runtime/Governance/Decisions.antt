-- ===== src/Runtime/Governance/Decisions.antt =====
-- What a decision on an approval does to its task, and that it is made once
-- (crates/plexis-runtime/src/governance.rs).
use axonel.Prelude.{
  ◌≡◌, ◌∙◌, ap, Bool, true, false, Option, none, some, String, if◌then◌else◌, Result, ok, err,
  arith,
}
use axonel.Prelude.Map
use axonel.Prelude.Map.{get-insert}
use axonel.Core.Ids.{TaskId, ApprovalId, Instant}
use axonel.Core.State.Transition.{StateTransitionError}
use axonel.Core.State.Task.{TaskState}
use axonel.Core.Task as Task
use axonel.Core.Task.{Task}
use axonel.Core.Approval as Approval
use axonel.Core.Approval.{ApprovalRecord, ApprovalState, approve, reject}
use axonel.Core.Approval.Decisions.{verdict}
use axonel.Runtime.Governance.Rows.{settle-Settled}
use axonel.Runtime.Governance.{
  Desk, GovernanceEvent, approval_granted, approval_rejected, already_decided, settle,
  submit_decision,
}

-- The approval that the branch for verdict `b` makes of `a`.
abbrev judged :
    Bool
    → Instant
    → Option String
    → ApprovalRecord
    → ApprovalRecord × Result StateTransitionError (Unit {0})
judged true decided notes a = approve decided notes a
judged false decided notes a = reject decided notes a

abbrev told : Bool → ApprovalRecord → Option String → GovernanceEvent
told true a notes = approval_granted a.id a.task_id notes
told false a notes = approval_rejected a.id a.task_id notes

judged_pending :
    (b : Bool) (decided : Instant) (notes : Option String) (a : ApprovalRecord)
    → a.state ≡ Approval.pending
    → let (x, r) = judged b decided notes a in
      (judged b decided notes a ≡ (x, ok tt)) × (x.id ≡ a.id) × (x.state ≡ verdict b)
unfolding approve reject
judged_pending b decided notes a p = ground arith

module _ {J : Type 0} where
  -- The rows stand under their identifiers.
  pub record IsKeyed (s : Desk J) : Type 0 where
    pub approvals_named :
        (k : ApprovalId) (a : ApprovalRecord) → Map.get s.approvals k ≡ some a → a.id ≡ k
    pub tasks_named : (k : TaskId) (t : Task J) → Map.get s.tasks k ≡ some t → t.id ≡ k

  abbrev followed : Bool → Instant → Task J → Task J
  followed true now t =
      (Task.transition_to now TaskState.ready (record t { assigned_agent_id = none })).0
  followed false now t = (Task.transition_to now TaskState.failed t).0

  submit_decision_open :
      (decided now : Instant) (id : ApprovalId) (b : Bool) (notes : Option String) (s : Desk J)
      (a : ApprovalRecord) (t : Task J)
      → Map.get s.approvals id ≡ some a
      → a.state ≡ Approval.pending
      → Map.get s.tasks a.task_id ≡ some t
      → submit_decision decided now id b notes s
        ≡ settle (judged b decided notes a) (followed b now t) (told b a notes) s
  unfolding submit_decision
  submit_decision_open decided now id true notes s a t ha p ht = ground arith
  submit_decision_open decided now id false notes s a t ha p ht = ground arith

  followed_waiting :
      (b : Bool) (now : Instant) (t : Task J)
      → t.state ≡ TaskState.needs_human
      → let u = followed b now t in
        (u.id ≡ t.id)
        × (u.state ≡ (if b then TaskState.ready else TaskState.failed))
        × (u.assigned_agent_id ≡ (if b then none else t.assigned_agent_id))
  unfolding Task.transition_to
  followed_waiting b now t w = ground arith

  -- What a decision leaves: the approval with its verdict and the task in the state that follows.
  pub record Decided (id : ApprovalId) (b : Bool) (task : TaskId) (before : Task J) (s : Desk J)
      : Type 0 where
    pub approval : ApprovalRecord
    pub filed : Map.get s.approvals id ≡ some approval
    pub final : approval.state ≡ verdict b
    pub held : Task J
    pub has : Map.get s.tasks task ≡ some held
    pub moved : held.state ≡ (if b then TaskState.ready else TaskState.failed)
    pub agent : held.assigned_agent_id ≡ (if b then none else before.assigned_agent_id)

  -- An undecided approval of a task that waits for a human: the decision succeeds and is filed; if
  -- it grants, the task is ready and has no agent, if it refuses, the task has failed.
  pub submit_decision-Decided :
      (decided now : Instant) (id : ApprovalId) (b : Bool) (notes : Option String) (s : Desk J)
      (a : ApprovalRecord) (t : Task J)
      → IsKeyed s
      → Map.get s.approvals id ≡ some a
      → a.state ≡ Approval.pending
      → Map.get s.tasks a.task_id ≡ some t
      → t.state ≡ TaskState.needs_human
      → let (s', r) = submit_decision decided now id b notes s in
        ((x : ApprovalRecord) × (r ≡ ok x)) × Decided id b a.task_id t s'
  submit_decision-Decided decided now id b notes s a t keyed ha pending ht waits =
      let (x, r) = judged b decided notes a in
      let (valid, same_id, final) = judged_pending b decided notes a pending in
      let (same_task, moved, agent) = followed_waiting b now t waits in
      let named : a.id ≡ id = keyed.approvals_named id a ha in
      let task_named : t.id ≡ a.task_id = keyed.tasks_named a.task_id t ht in
      let done =
        settle-Settled x (followed b now t) (told b a notes) s a t (cc (ha, same_id, named))
          (cc (ht, same_task, task_named)) in
      rw
        (submit_decision_open decided now id b notes s a t ha pending ht
          ∙ ap (λ p. settle p (followed b now t) (told b a notes) s) valid)
        (
          (x, done.succeeds),
          record {
            approval = done.approval;
            filed = cc (done.filed, same_id, named);
            final = done.verdict_kept ∙ final;
            held = done.held;
            has = cc (done.has, same_task, task_named);
            moved = done.state_kept ∙ moved;
            agent = done.agent_kept ∙ agent;
          },
        )

  again_refused :
      (decided now : Instant) (id : ApprovalId) (b c : Bool) (notes : Option String) (task : TaskId)
      (t : Task J) (s : Desk J)
      → Decided id b task t s
      → submit_decision decided now id c notes s ≡ (s, err (already_decided id (verdict b)))
  unfolding submit_decision
  again_refused decided now id true c notes task t s d = ground (arith, d.filed, d.final)
  again_refused decided now id false c notes task t s d = ground (arith, d.filed, d.final)

  -- After a decision on an undecided approval of a task that waits for a human, a second one on the same approval, whichever it is, reports the
  -- first verdict as an error and changes nothing.
  pub submit_decision_once :
      (decided now decided' now' : Instant) (id : ApprovalId) (b c : Bool)
      (notes notes' : Option String) (s : Desk J) (a : ApprovalRecord) (t : Task J)
      → IsKeyed s
      → Map.get s.approvals id ≡ some a
      → a.state ≡ Approval.pending
      → Map.get s.tasks a.task_id ≡ some t
      → t.state ≡ TaskState.needs_human
      → let s' = (submit_decision decided now id b notes s).0 in
        submit_decision decided' now' id c notes' s' ≡ (s', err (already_decided id (verdict b)))
  submit_decision_once decided now decided' now' id b c notes notes' s a t keyed ha p ht w =
      again_refused decided' now' id b c notes' a.task_id t _
        (submit_decision-Decided decided now id b notes s a t keyed ha p ht w).1
