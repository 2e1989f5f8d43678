-- ===== src/Core/Approval.antt =====
-- crates/plexis-core/src/approval.rs: the human gate.
pub mod Decisions
use axonel.Prelude.{
  String, Bool, true, false, Option, none, some, ite, if◌then◌else◌, Result, ok, err, and_then,
}
use axonel.Core.Ids.{ApprovalId, TaskId, WorkflowId, AgentId, Instant}
use axonel.Core.State.Transition.{StateTransitionError}

pub data ApprovalState : Type 0 where
  pending approved rejected : ApprovalState

unfoldable pub ApprovalState-discrete : Discrete ApprovalState
ApprovalState-discrete = hlevel

unfoldable pub as_str : ApprovalState → String
as_str pending = "pending"
as_str approved = "approved"
as_str rejected = "rejected"

-- The `match self` of `can_transition_to`, past its test of `self == next`.
allows : ApprovalState → ApprovalState → Bool
allows pending approved = true
allows pending rejected = true
allows _ _ = false

unfoldable pub can_transition_to : ApprovalState → ApprovalState → Bool
unfolding allows ApprovalState-discrete
can_transition_to self next = ite (ApprovalState-discrete self next) true (allows self next)

unfoldable pub transition_to :
    ApprovalState → ApprovalState → ApprovalState × Result StateTransitionError (Unit {0})
unfolding can_transition_to as_str
transition_to self next = if can_transition_to self next then (next, ok tt) else (
  self,
  err (record {
    from = as_str self;
    to = as_str next;
    reason = "transition disallowed by approval lifecycle rules";
  }),
)

unfoldable pub is_terminal : ApprovalState → Bool
is_terminal approved = true
is_terminal rejected = true
is_terminal _ = false

pub record ApprovalRecord : Type 0 where
  pub id : ApprovalId
  pub task_id : TaskId
  pub workflow_id : WorkflowId
  pub requested_by : Option AgentId
  pub action_description : String
  pub state : ApprovalState
  pub reason : Option String
  pub created_at : Instant
  pub decided_at : Option Instant

unfoldable pub new : ApprovalId → Instant → TaskId → WorkflowId → String → ApprovalRecord
new id now task_id workflow_id action_description = record {
  id = id;
  task_id = task_id;
  workflow_id = workflow_id;
  requested_by = none;
  action_description = action_description;
  state = pending;
  reason = none;
  created_at = now;
  decided_at = none;
}

unfoldable pub with_requester : AgentId → ApprovalRecord → ApprovalRecord
with_requester agent_id a = record a { requested_by = some agent_id }

unfoldable pub with_reason : String → ApprovalRecord → ApprovalRecord
with_reason reason a = record a { reason = some reason }

abbrev pub Outcome : Type 0
Outcome = ApprovalRecord × Result StateTransitionError (Unit {0})

-- `if let Some(n) = notes { self.reason = Some(n); }`
abbrev noted : Option String → ApprovalRecord → ApprovalRecord
noted none a = a
noted (some n) a = record a { reason = some n }

-- What `approve` and `reject` share: they differ in the state that they ask for.
decide_as : ApprovalState → Instant → Option String → ApprovalRecord → Outcome
unfolding transition_to
decide_as next now notes a =
    and_then (let (s, r) = transition_to a.state next in (record a { state = s }, r))
      λ x _. (noted notes (record x { decided_at = some now }), ok tt)

unfoldable pub approve : Instant → Option String → ApprovalRecord → Outcome
unfolding decide_as
approve = decide_as approved

unfoldable pub reject : Instant → Option String → ApprovalRecord → Outcome
unfolding decide_as
reject = decide_as rejected
