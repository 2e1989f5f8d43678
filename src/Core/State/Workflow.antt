-- ===== src/Core/State/Workflow.antt =====
-- `WorkflowState` of crates/plexis-core/src/state.rs: the lifecycle of a workflow.
pub mod Names
use text.Mathlib.Text.{◌==◌ as str_eq}
use axonel.Prelude.{String, Bool, true, false, ite, if◌then◌else◌, Result, ok, err}
use axonel.Prelude.Text.{trim, trim_quotes}
use axonel.Core.State.Transition.{StateTransitionError}

pub data WorkflowState : Type 0 where
  draft active paused completed failed cancelled : WorkflowState

unfoldable pub WorkflowState-discrete : Discrete WorkflowState
WorkflowState-discrete = hlevel

unfoldable pub as_str : WorkflowState → String
as_str draft = "draft"
as_str active = "active"
as_str paused = "paused"
as_str completed = "completed"
as_str failed = "failed"
as_str cancelled = "cancelled"

-- The `match self` of `can_transition_to`, past its test of `self == next`.
allows : WorkflowState → WorkflowState → Bool
allows draft active = true
allows draft cancelled = true
allows active paused = true
allows active completed = true
allows active failed = true
allows active cancelled = true
allows paused active = true
allows paused cancelled = true
allows _ _ = false

unfoldable pub can_transition_to : WorkflowState → WorkflowState → Bool
unfolding allows WorkflowState-discrete
can_transition_to self next = ite (WorkflowState-discrete self next) true (allows self next)

unfoldable pub transition_to :
    WorkflowState → WorkflowState → WorkflowState × Result StateTransitionError (Unit {0})
unfolding can_transition_to as_str
transition_to self next = if can_transition_to self next then (next, ok tt) else (
  self,
  err (record {
    from = as_str self;
    to = as_str next;
    reason = "transition disallowed by workflow lifecycle rules";
  }),
)

-- The `match` of `from_str`, on the text without its margin.
parse : String → Result StateTransitionError WorkflowState
parse s =
    if str_eq s "draft"
    then ok draft
    else if str_eq s "active"
    then ok active
    else if str_eq s "paused"
    then ok paused
    else if str_eq s "completed"
    then ok completed
    else if str_eq s "failed"
    then ok failed
    else if str_eq s "cancelled"
    then ok cancelled
    else err (record { from = s; to = ""; reason = "unknown workflow state string" })

unfoldable pub from_str : String → Result StateTransitionError WorkflowState
unfolding parse trim trim_quotes
from_str s = parse (trim_quotes (trim s))
