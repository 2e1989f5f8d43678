-- ===== src/Core/State/Task.antt =====
-- `TaskState` of crates/plexis-core/src/state.rs: the lifecycle of a task.
pub mod Names
pub mod Routes
use text.Mathlib.Text.{◌==◌ as str_eq}
use axonel.Prelude.{String, Bool, true, false, ite, if◌then◌else◌, Result, ok, err}
use axonel.Prelude.Text.{trim, trim_quotes}
use axonel.Core.State.Transition.{StateTransitionError}

pub data TaskState : Type 0 where
  backlog ready assigned running awaiting_verification verified blocked : TaskState
  needs_human paused failed retrying quarantined cancelled discarded : TaskState

unfoldable pub TaskState-discrete : Discrete TaskState
TaskState-discrete = hlevel

unfoldable pub as_str : TaskState → String
as_str backlog = "backlog"
as_str ready = "ready"
as_str assigned = "assigned"
as_str running = "running"
as_str awaiting_verification = "awaiting_verification"
as_str verified = "verified"
as_str blocked = "blocked"
as_str needs_human = "needs_human"
as_str paused = "paused"
as_str failed = "failed"
as_str retrying = "retrying"
as_str quarantined = "quarantined"
as_str cancelled = "cancelled"
as_str discarded = "discarded"

-- The `match self` of `can_transition_to`, past its test of `self == next`.
allows : TaskState → TaskState → Bool
allows backlog ready = true
allows backlog blocked = true
allows backlog paused = true
allows backlog cancelled = true
allows backlog discarded = true
allows ready assigned = true
allows ready blocked = true
allows ready paused = true
allows ready needs_human = true
allows ready cancelled = true
allows ready discarded = true
allows assigned running = true
allows assigned ready = true
allows assigned needs_human = true
allows assigned failed = true
allows assigned paused = true
allows assigned cancelled = true
allows running ready = true
allows running awaiting_verification = true
allows running paused = true
allows running needs_human = true
allows running failed = true
allows running retrying = true
allows running blocked = true
allows running cancelled = true
allows awaiting_verification verified = true
allows awaiting_verification failed = true
allows awaiting_verification retrying = true
allows awaiting_verification needs_human = true
allows awaiting_verification running = true
allows awaiting_verification cancelled = true
allows verified retrying = true
allows verified discarded = true
allows blocked ready = true
allows blocked backlog = true
allows blocked cancelled = true
allows blocked discarded = true
allows needs_human ready = true
allows needs_human running = true
allows needs_human awaiting_verification = true
allows needs_human failed = true
allows needs_human quarantined = true
allows needs_human cancelled = true
allows needs_human discarded = true
allows paused backlog = true
allows paused ready = true
allows paused running = true
allows paused cancelled = true
allows paused discarded = true
allows failed retrying = true
allows failed ready = true
allows failed needs_human = true
allows failed quarantined = true
allows failed cancelled = true
allows failed discarded = true
allows retrying ready = true
allows retrying running = true
allows retrying failed = true
allows retrying quarantined = true
allows retrying cancelled = true
allows quarantined backlog = true
allows quarantined ready = true
allows quarantined needs_human = true
allows quarantined cancelled = true
allows quarantined discarded = true
allows _ _ = false

unfoldable pub can_transition_to : TaskState → TaskState → Bool
unfolding allows TaskState-discrete
can_transition_to self next = ite (TaskState-discrete self next) true (allows self next)

unfoldable pub transition_to :
    TaskState → TaskState → TaskState × Result StateTransitionError (Unit {0})
unfolding can_transition_to as_str
transition_to self next = if can_transition_to self next then (next, ok tt) else (
  self,
  err (record {
    from = as_str self;
    to = as_str next;
    reason = "transition disallowed by task lifecycle rules";
  }),
)

unfoldable pub is_terminal : TaskState → Bool
is_terminal verified = true
is_terminal cancelled = true
is_terminal discarded = true
is_terminal _ = false

unfoldable pub is_active : TaskState → Bool
is_active assigned = true
is_active running = true
is_active awaiting_verification = true
is_active _ = false

unfoldable pub is_runnable_candidate : TaskState → Bool
is_runnable_candidate ready = true
is_runnable_candidate backlog = true
is_runnable_candidate _ = false

-- The `match` of `from_str`, on the text without its margin.
parse : String → Result StateTransitionError TaskState
parse s =
    if str_eq s "backlog"
    then ok backlog
    else if str_eq s "ready"
    then ok ready
    else if str_eq s "assigned"
    then ok assigned
    else if str_eq s "running"
    then ok running
    else if str_eq s "awaiting_verification"
    then ok awaiting_verification
    else if str_eq s "verified"
    then ok verified
    else if str_eq s "blocked"
    then ok blocked
    else if str_eq s "needs_human"
    then ok needs_human
    else if str_eq s "paused"
    then ok paused
    else if str_eq s "failed"
    then ok failed
    else if str_eq s "retrying"
    then ok retrying
    else if str_eq s "quarantined"
    then ok quarantined
    else if str_eq s "cancelled"
    then ok cancelled
    else if str_eq s "discarded"
    then ok discarded
    else err (record { from = s; to = ""; reason = "unknown task state string" })

unfoldable pub from_str : String → Result StateTransitionError TaskState
unfolding parse trim trim_quotes
from_str s = parse (trim_quotes (trim s))
