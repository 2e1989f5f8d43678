-- ===== src/Runtime/Governance.antt =====
-- crates/plexis-runtime/src/governance.rs: approval gates. The store behind the manager is
-- `SqliteStore` (crates/plexis-storage/src/sqlite/store.rs: `create_approval`, `get_approval`,
-- `update_approval`, `get_task`, `update_task`), as maps from identifiers to rows; an approval
-- refers to a row of `tasks` and one of `workflows` (migrations/0002_approvals_and_plans.sql).
-- `decided` and `now` are readings of the clock, and `id` is the fresh UUID. An event keeps what
-- its JSON payload is made of.
pub mod Rows
pub mod Decisions
pub mod Resumption
use axonel.Prelude.{
  String, Bool, true, false, not, ◌||◌, is_some, Option, none, some, List, [], ◌∷◌, ◌++◌, ite,
  if◌then◌else◌, Result, ok, err, and_then,
}
use axonel.Prelude.Map
use axonel.Prelude.Map.{Map}
use axonel.Prelude.Sets.{contains}
use axonel.Core.Ids.{TaskId, WorkflowId, AgentId, ApprovalId, Instant}
use axonel.Core.State.Transition.{StateTransitionError}
use axonel.Core.State.Task.{TaskState}
use axonel.Core.Task as Task
use axonel.Core.Task.{Task}
use axonel.Core.Approval as Approval
use axonel.Core.Approval.{ApprovalRecord, ApprovalState, ApprovalState-discrete, approve, reject}

pub data GovernanceEvent : Type 0 where
  approval_requested : ApprovalId → TaskId → WorkflowId → String → GovernanceEvent
  approval_granted approval_rejected : ApprovalId → TaskId → Option String → GovernanceEvent
  task_resumed : TaskId → WorkflowId → GovernanceEvent

pub data GovernanceError : Type 0 where
  storage : GovernanceError
  unknown_approval : ApprovalId → GovernanceError
  unknown_task : TaskId → GovernanceError
  already_decided : ApprovalId → ApprovalState → GovernanceError
  transition : StateTransitionError → GovernanceError

-- The rows that the manager reads and writes.
pub record Desk (J : Type 0) : Type 0 where
  pub workflows : List WorkflowId
  pub tasks : Map (Task J)
  pub approvals : Map ApprovalRecord
  pub events : List GovernanceEvent

abbrev pub Outcome : Type 0 → Type 0 → Type 0
Outcome J A = Desk J × Result GovernanceError A

abbrev requested : Option AgentId → Option String → ApprovalRecord → ApprovalRecord
requested none none a = a
requested none (some r) a = Approval.with_reason r a
requested (some agent) none a = Approval.with_requester agent a
requested (some agent) (some r) a = Approval.with_reason r (Approval.with_requester agent a)

module _ {J : Type 0} where
  unfoldable pub create_approval : ApprovalRecord → Desk J → Outcome J (Unit {0})
  create_approval a s =
      if is_some (Map.get s.approvals a.id)
        || (not (is_some (Map.get s.tasks a.task_id)) || not (contains s.workflows a.workflow_id))
      then (s, err storage)
      else (record s { approvals = Map.insert a.id a s.approvals }, ok tt)

  -- It writes the state, the reason and the time of the decision.
  unfoldable pub update_approval : ApprovalRecord → Desk J → Outcome J (Unit {0})
  update_approval a s = elim (Map.get s.approvals a.id) [
    | none ↦ (s, err storage)
    | some row ↦
        let written : ApprovalRecord = record row {
          state = a.state;
          reason = a.reason;
          decided_at = a.decided_at;
        } in
        (record s { approvals = Map.insert a.id written s.approvals }, ok tt)
  ]

  -- It writes all columns but the workflow and the time of creation.
  unfoldable pub update_task : Task J → Desk J → Outcome J (Unit {0})
  update_task t s = elim (Map.get s.tasks t.id) [
    | none ↦ (s, err storage)
    | some row ↦
        let written : Task J = record t {
          workflow_id = row.workflow_id;
          created_at = row.created_at;
        } in
        (record s { tasks = Map.insert t.id written s.tasks }, ok tt)
  ]

  unfoldable pub append_event : GovernanceEvent → Desk J → Desk J
  append_event e s = record s { events = s.events ++ e ∷ [] }

  -- The second step of `request_approval`.
  unfoldable pub hold_task : Instant → TaskId → Desk J → Outcome J (Unit {0})
  unfolding update_task Task.transition_to
  hold_task now task_id s = elim (Map.get s.tasks task_id) [
    | none ↦ (s, ok tt)
    | some task ↦ update_task (Task.transition_to now TaskState.needs_human task).0 s
  ]

  unfoldable pub request_approval :
      ApprovalId
      → Instant
      → Instant
      → TaskId
      → WorkflowId
      → Option AgentId
      → String
      → Option String
      → Desk J
      → Outcome J ApprovalRecord
  unfolding create_approval hold_task append_event Approval.new
  request_approval id created now task_id workflow_id requester description reason s =
      let approval =
        requested requester reason (Approval.new id created task_id workflow_id description) in
      and_then (create_approval approval s) λ s₁ _. and_then (hold_task now task_id s₁) λ s₂ _. (
        append_event (approval_requested approval.id task_id workflow_id description) s₂,
        ok approval,
      )

  -- Each branch of `submit_decision` past its checks: the approval as decided, the task as the
  -- branch leaves it, and the event.
  unfoldable pub settle :
      ApprovalRecord × Result StateTransitionError (Unit {0})
      → Task J
      → GovernanceEvent
      → Desk J
      → Outcome J ApprovalRecord
  unfolding update_approval update_task append_event
  settle (approval, err e) task event s = (s, err (transition e))
  settle (approval, ok _) task event s =
      and_then (update_approval approval s)
        λ s₁ _. and_then (update_task task s₁) λ s₂ _. (append_event event s₂, ok approval)

  unfoldable pub submit_decision :
      Instant → Instant → ApprovalId → Bool → Option String → Desk J → Outcome J ApprovalRecord
  unfolding settle approve reject Task.transition_to ApprovalState-discrete
  submit_decision decided now approval_id approved notes s =
      elim (Map.get s.approvals approval_id) [
        | none ↦ (s, err (unknown_approval approval_id))
        | some approval ↦
            ite (ApprovalState-discrete approval.state Approval.pending)
              (elim (Map.get s.tasks approval.task_id) [
                | none ↦ (s, err (unknown_task approval.task_id))
                | some task ↦
                    if approved
                    then settle (approve decided notes approval)
                        (Task.transition_to now TaskState.ready
                          (record task { assigned_agent_id = none })).0
                        (approval_granted approval.id approval.task_id notes) s
                    else settle (reject decided notes approval)
                        (Task.transition_to now TaskState.failed task).0
                        (approval_rejected approval.id approval.task_id notes) s
              ])
              (s, err (already_decided approval_id approval.state))
      ]

  unfoldable pub resume_task : Instant → TaskId → Desk J → Outcome J (Task J)
  unfolding update_task append_event Task.transition_to
  resume_task now task_id s = elim (Map.get s.tasks task_id) [
    | none ↦ (s, err (unknown_task task_id))
    | some task ↦
        let resumed = (Task.transition_to now TaskState.ready task).0 in
        and_then (update_task resumed s)
          λ s₁ _. (append_event (task_resumed task_id resumed.workflow_id) s₁, ok resumed)
  ]
