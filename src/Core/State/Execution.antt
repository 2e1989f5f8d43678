-- ===== src/Core/State/Execution.antt =====
-- `ExecutionState` of crates/plexis-core/src/state.rs: the lifecycle of an execution.
pub mod Names
pub mod Routes
use text.Mathlib.Text.{◌==◌ as str_eq}
use axonel.Prelude.{String, Bool, true, false, ite, if◌then◌else◌, Result, ok, err}
use axonel.Prelude.Text.{trim, trim_quotes}
use axonel.Core.State.Transition.{StateTransitionError}

pub data ExecutionState : Type 0 where
  pending running completed failed timed_out cancelled : ExecutionState

unfoldable pub ExecutionState-discrete : Discrete ExecutionState
ExecutionState-discrete = hlevel

unfoldable pub as_str : ExecutionState → String
as_str pending = "pending"
as_str running = "running"
as_str completed = "completed"
as_str failed = "failed"
as_str timed_out = "timed_out"
as_str cancelled = "cancelled"

-- The `match self` of `can_transition_to`, past its test of `self == next`.
allows : ExecutionState → ExecutionState → Bool
allows pending running = true
allows pending cancelled = true
allows running completed = true
allows running failed = true
allows running timed_out = true
allows running cancelled = true
allows _ _ = false

unfoldable pub can_transition_to : ExecutionState → ExecutionState → Bool
unfolding allows ExecutionState-discrete
can_transition_to self next = ite (ExecutionState-discrete self next) true (allows self next)

unfoldable pub transition_to :
    ExecutionState → ExecutionState → ExecutionState × Result StateTransitionError (Unit {0})
unfolding can_transition_to as_str
transition_to self next = if can_transition_to self next then (next, ok tt) else (
  self,
  err (record {
    from = as_str self;
    to = as_str next;
    reason = "transition disallowed by execution lifecycle rules";
  }),
)

-- The `match` of `from_str`, on the text without its margin.
parse : String → Result StateTransitionError ExecutionState
parse s =
    if str_eq s "pending"
    then ok pending
    else if str_eq s "running"
    then ok running
    else if str_eq s "completed"
    then ok completed
    else if str_eq s "failed"
    then ok failed
    else if str_eq s "timed_out"
    then ok timed_out
    else if str_eq s "cancelled"
    then ok cancelled
    else err (record { from = s; to = ""; reason = "unknown execution state string" })

unfoldable pub from_str : String → Result StateTransitionError ExecutionState
unfolding parse trim trim_quotes
from_str s = parse (trim_quotes (trim s))
