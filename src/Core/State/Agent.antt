-- ===== src/Core/State/Agent.antt =====
-- `AgentState` of crates/plexis-core/src/state.rs: the lifecycle of an agent.
pub mod Names
use text.Mathlib.Text.{◌==◌ as str_eq}
use axonel.Prelude.{String, Bool, true, false, ite, if◌then◌else◌, Result, ok, err}
use axonel.Prelude.Text.{trim, trim_quotes}
use axonel.Core.State.Transition.{StateTransitionError}

pub data AgentState : Type 0 where
  idle busy waiting_for_input paused terminated failed : AgentState

unfoldable pub AgentState-discrete : Discrete AgentState
AgentState-discrete = hlevel

unfoldable pub as_str : AgentState → String
as_str idle = "idle"
as_str busy = "busy"
as_str waiting_for_input = "waiting_for_input"
as_str paused = "paused"
as_str terminated = "terminated"
as_str failed = "failed"

-- The `match self` of `can_transition_to`, past its test of `self == next`.
allows : AgentState → AgentState → Bool
allows idle busy = true
allows idle paused = true
allows idle terminated = true
allows idle failed = true
allows busy idle = true
allows busy waiting_for_input = true
allows busy paused = true
allows busy failed = true
allows busy terminated = true
allows waiting_for_input busy = true
allows waiting_for_input idle = true
allows waiting_for_input paused = true
allows waiting_for_input failed = true
allows waiting_for_input terminated = true
allows paused idle = true
allows paused busy = true
allows paused waiting_for_input = true
allows paused terminated = true
allows failed idle = true
allows failed terminated = true
allows _ _ = false

unfoldable pub can_transition_to : AgentState → AgentState → Bool
unfolding allows AgentState-discrete
can_transition_to self next = ite (AgentState-discrete self next) true (allows self next)

unfoldable pub transition_to :
    AgentState → AgentState → AgentState × Result StateTransitionError (Unit {0})
unfolding can_transition_to as_str
transition_to self next = if can_transition_to self next then (next, ok tt) else (
  self,
  err (record {
    from = as_str self;
    to = as_str next;
    reason = "transition disallowed by agent lifecycle rules";
  }),
)

unfoldable pub can_accept_work : AgentState → Bool
can_accept_work idle = true
can_accept_work _ = false

-- The `match` of `from_str`, on the text without its margin.
parse : String → Result StateTransitionError AgentState
parse s =
    if str_eq s "idle"
    then ok idle
    else if str_eq s "busy"
    then ok busy
    else if str_eq s "waiting_for_input"
    then ok waiting_for_input
    else if str_eq s "paused"
    then ok paused
    else if str_eq s "terminated"
    then ok terminated
    else if str_eq s "failed"
    then ok failed
    else err (record { from = s; to = ""; reason = "unknown agent state string" })

unfoldable pub from_str : String → Result StateTransitionError AgentState
unfolding parse trim trim_quotes
from_str s = parse (trim_quotes (trim s))
