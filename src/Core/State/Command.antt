-- ===== src/Core/State/Command.antt =====
-- `CommandState` of crates/plexis-core/src/state.rs: the lifecycle of a command.
pub mod Names
pub mod Routes
use text.Mathlib.Text.{◌==◌ as str_eq}
use axonel.Prelude.{String, Bool, true, false, ite, if◌then◌else◌, Result, ok, err}
use axonel.Prelude.Text.{trim, trim_quotes}
use axonel.Core.State.Transition.{StateTransitionError}

pub data CommandState : Type 0 where
  queued dispatched delivered confirmed failed retrying dead_lettered cancelled : CommandState

unfoldable pub CommandState-discrete : Discrete CommandState
CommandState-discrete = hlevel

unfoldable pub as_str : CommandState → String
as_str queued = "queued"
as_str dispatched = "dispatched"
as_str delivered = "delivered"
as_str confirmed = "confirmed"
as_str failed = "failed"
as_str retrying = "retrying"
as_str dead_lettered = "dead_lettered"
as_str cancelled = "cancelled"

-- The `match self` of `can_transition_to`, past its test of `self == next`.
allows : CommandState → CommandState → Bool
allows queued dispatched = true
allows queued cancelled = true
allows dispatched delivered = true
allows dispatched confirmed = true
allows dispatched failed = true
allows dispatched retrying = true
allows dispatched cancelled = true
allows delivered confirmed = true
allows delivered failed = true
allows delivered retrying = true
allows delivered cancelled = true
allows retrying queued = true
allows retrying dispatched = true
allows retrying dead_lettered = true
allows retrying cancelled = true
allows failed retrying = true
allows failed dead_lettered = true
allows failed cancelled = true
allows _ _ = false

unfoldable pub can_transition_to : CommandState → CommandState → Bool
unfolding allows CommandState-discrete
can_transition_to self next = ite (CommandState-discrete self next) true (allows self next)

unfoldable pub transition_to :
    CommandState → CommandState → CommandState × Result StateTransitionError (Unit {0})
unfolding can_transition_to as_str
transition_to self next = if can_transition_to self next then (next, ok tt) else (
  self,
  err (record {
    from = as_str self;
    to = as_str next;
    reason = "transition disallowed by command lifecycle rules";
  }),
)

-- The `match` of `from_str`, on the text without its margin.
parse : String → Result StateTransitionError CommandState
parse s =
    if str_eq s "queued"
    then ok queued
    else if str_eq s "dispatched"
    then ok dispatched
    else if str_eq s "delivered"
    then ok delivered
    else if str_eq s "confirmed"
    then ok confirmed
    else if str_eq s "failed"
    then ok failed
    else if str_eq s "retrying"
    then ok retrying
    else if str_eq s "dead_lettered"
    then ok dead_lettered
    else if str_eq s "cancelled"
    then ok cancelled
    else err (record { from = s; to = ""; reason = "unknown command state string" })

unfoldable pub from_str : String → Result StateTransitionError CommandState
unfolding parse trim trim_quotes
from_str s = parse (trim_quotes (trim s))
