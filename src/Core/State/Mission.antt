-- ===== src/Core/State/Mission.antt =====
-- `MissionState` of crates/plexis-core/src/state.rs: the lifecycle of a mission.
pub mod Names
pub mod Routes
use text.Mathlib.Text.{◌==◌ as str_eq}
use axonel.Prelude.{String, Bool, true, false, ◌||◌, ite, if◌then◌else◌, Result, ok, err}
use axonel.Prelude.Text.{trim, trim_quotes}
use axonel.Core.State.Transition.{StateTransitionError}

pub data MissionState : Type 0 where
  created planning running waiting replanning needs_human verifying awaiting_acceptance accepted
        integrating integrated rejected completed failed cancelled budget_exhausted :
      MissionState

unfoldable pub MissionState-discrete : Discrete MissionState
MissionState-discrete = hlevel

unfoldable pub as_str : MissionState → String
as_str created = "created"
as_str planning = "planning"
as_str running = "running"
as_str waiting = "waiting"
as_str replanning = "replanning"
as_str needs_human = "needs_human"
as_str verifying = "verifying"
as_str awaiting_acceptance = "awaiting_acceptance"
as_str accepted = "accepted"
as_str integrating = "integrating"
as_str integrated = "integrated"
as_str rejected = "rejected"
as_str completed = "completed"
as_str failed = "failed"
as_str cancelled = "cancelled"
as_str budget_exhausted = "budget_exhausted"

-- The `match self` of `can_transition_to`, past its test of `self == next`.
allows : MissionState → MissionState → Bool
allows created planning = true
allows created cancelled = true
allows planning running = true
allows planning waiting = true
allows planning needs_human = true
allows planning verifying = true
allows planning awaiting_acceptance = true
allows planning completed = true
allows planning failed = true
allows planning cancelled = true
allows planning budget_exhausted = true
allows running waiting = true
allows running replanning = true
allows running needs_human = true
allows running verifying = true
allows running awaiting_acceptance = true
allows running completed = true
allows running failed = true
allows running cancelled = true
allows running budget_exhausted = true
allows waiting running = true
allows waiting planning = true
allows waiting replanning = true
allows waiting needs_human = true
allows waiting cancelled = true
allows waiting budget_exhausted = true
allows replanning running = true
allows replanning planning = true
allows replanning waiting = true
allows replanning needs_human = true
allows replanning failed = true
allows replanning cancelled = true
allows replanning budget_exhausted = true
allows needs_human planning = true
allows needs_human running = true
allows needs_human replanning = true
allows needs_human waiting = true
allows needs_human cancelled = true
allows needs_human failed = true
allows verifying awaiting_acceptance = true
allows verifying completed = true
allows verifying replanning = true
allows verifying needs_human = true
allows verifying running = true
allows verifying failed = true
allows verifying cancelled = true
allows verifying budget_exhausted = true
allows awaiting_acceptance accepted = true
allows awaiting_acceptance integrated = true
allows awaiting_acceptance rejected = true
allows awaiting_acceptance replanning = true
allows awaiting_acceptance cancelled = true
allows accepted integrating = true
allows accepted integrated = true
allows accepted rejected = true
allows accepted cancelled = true
allows integrating integrated = true
allows integrating accepted = true
allows integrating cancelled = true
allows rejected replanning = true
allows rejected cancelled = true
allows completed awaiting_acceptance = true
allows completed accepted = true
allows completed integrating = true
allows completed integrated = true
allows _ _ = false

unfoldable pub can_transition_to : MissionState → MissionState → Bool
unfolding allows MissionState-discrete
can_transition_to self next = ite (MissionState-discrete self next) true (allows self next)

unfoldable pub transition_to :
    MissionState → MissionState → MissionState × Result StateTransitionError (Unit {0})
unfolding can_transition_to as_str
transition_to self next = if can_transition_to self next then (next, ok tt) else (
  self,
  err (record {
    from = as_str self;
    to = as_str next;
    reason = "transition disallowed by mission lifecycle rules";
  }),
)

unfoldable pub is_terminal : MissionState → Bool
is_terminal integrated = true
is_terminal completed = true
is_terminal failed = true
is_terminal cancelled = true
is_terminal budget_exhausted = true
is_terminal rejected = true
is_terminal _ = false

unfoldable pub is_active : MissionState → Bool
is_active planning = true
is_active running = true
is_active waiting = true
is_active replanning = true
is_active needs_human = true
is_active verifying = true
is_active integrating = true
is_active _ = false

-- The `match` of `from_str`, on the text without its margin.
parse : String → Result StateTransitionError MissionState
parse s =
    if str_eq s "created"
    then ok created
    else if str_eq s "planning"
    then ok planning
    else if str_eq s "running"
    then ok running
    else if str_eq s "waiting"
    then ok waiting
    else if str_eq s "replanning"
    then ok replanning
    else if str_eq s "needs_human"
    then ok needs_human
    else if str_eq s "verifying"
    then ok verifying
    else if (str_eq s "awaiting_acceptance" || str_eq s "ready_for_review" || str_eq s "verified")
    then ok awaiting_acceptance
    else if str_eq s "accepted"
    then ok accepted
    else if str_eq s "integrating"
    then ok integrating
    else if str_eq s "integrated"
    then ok integrated
    else if str_eq s "rejected"
    then ok rejected
    else if str_eq s "completed"
    then ok completed
    else if str_eq s "failed"
    then ok failed
    else if str_eq s "cancelled"
    then ok cancelled
    else if str_eq s "budget_exhausted"
    then ok budget_exhausted
    else err (record { from = s; to = ""; reason = "unknown mission state string" })

unfoldable pub from_str : String → Result StateTransitionError MissionState
unfolding parse trim trim_quotes
from_str s = parse (trim_quotes (trim s))
