-- ===== src/Tests/Lifecycles.antt =====
-- The lifecycles of crates/plexis-core/src/state.rs at concrete runs.
use axonel.Prelude.{◌≡◌, refl, List, [], ◌∷◌}
use axonel.Core.State.Requests.{requests}
use axonel.Core.State.Task as Task
use axonel.Core.State.Task.{TaskState}
use axonel.Core.State.Task.Routes as TaskRoutes
use axonel.Core.State.Mission as Mission
use axonel.Core.State.Mission.{MissionState}
use axonel.Core.State.Mission.Routes as MissionRoutes
use axonel.Core.State.Command as Command
use axonel.Core.State.Command.{CommandState}
use axonel.Core.State.Command.Routes as CommandRoutes

-- A run that skips a step on the way: `running` is refused while the task is ready.
abbrev task_run : List TaskState
task_run =
    TaskState.ready ∷ TaskState.running ∷ TaskState.assigned ∷ TaskState.running
    ∷ TaskState.awaiting_verification ∷ TaskState.verified ∷ []

task_run_verifies : requests TaskRoutes.step TaskState.backlog task_run ≡ TaskState.verified
unfolding requests Task.transition_to
task_run_verifies = refl

abbrev mission_run : List MissionState
mission_run =
    MissionState.planning ∷ MissionState.running ∷ MissionState.awaiting_acceptance
    ∷ MissionState.accepted ∷ MissionState.integrating ∷ MissionState.integrated ∷ []

mission_run_integrates :
    requests MissionRoutes.step MissionState.created mission_run ≡ MissionState.integrated
unfolding requests Mission.transition_to
mission_run_integrates = refl

abbrev confirming_run : List CommandState
confirming_run = CommandState.confirmed ∷ CommandState.dispatched ∷ CommandState.confirmed ∷ []

confirming_run_confirms :
    requests CommandRoutes.step CommandState.queued confirming_run ≡ CommandState.confirmed
unfolding requests Command.transition_to
confirming_run_confirms = refl
