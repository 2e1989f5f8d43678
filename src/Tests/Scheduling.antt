-- ===== src/Tests/Scheduling.antt =====
-- A pass of the scheduler and of the reconciler (crates/plexis-runtime) at concrete values: two tasks of
-- an active workflow, two agents.
use axonel.Prelude.{
  ◌+◌, ◌==◌, if◌then◌else◌, true, false, ◌≡◌, refl, none, some, List, [], ◌∷◌, ok, err, map, not,
  Option,
}
use axonel.Prelude.Int.{pos}
use axonel.Prelude.Map
use axonel.Prelude.Rows.{all_in}
use axonel.Core.Ids.{TaskId, LeaseId, AgentId, Instant}
use axonel.Core.State.Agent.{AgentState}
use axonel.Core.State.Task.{TaskState, is_runnable_candidate}
use axonel.Core.State.Command.{CommandState}
use axonel.Core.State.Workflow.{WorkflowState}
use axonel.Core.State.Mission.{MissionState}
use axonel.Core.Agent.{Agent}
use axonel.Core.Task.{Task}
use axonel.Core.Lease.{Lease}
use axonel.Core.Workflow.{Workflow}
use axonel.Core.Command as Command
use axonel.Core.Command.{Command}
use axonel.Core.Mission as Mission
use axonel.Core.Mission.{Mission}
use axonel.Storage.Work.{Work, Outcome, get_task}
use axonel.Runtime.Selector.{Metadata}
use axonel.Runtime.Engine.Store.{Json}
use axonel.Storage.Leases.{Tables}
use axonel.Runtime.LeaseManager.{acquire}
use axonel.Runtime.Scheduler.{Context, Job, retain, launch, assign_tasks, five_minutes}
use axonel.Runtime.Scheduler.Stranded.{Stranded, launch-Stranded}
use axonel.Runtime.Scheduler.Rounds.{Round, assign_tasks-Round}
use axonel.Runtime.Reconciler.{Reconciler, Pass, default_report, reconcile, reconcile_commands}
use axonel.Runtime.Reconciler.Startup.{Repository, reconcile_startup, restart_missions}
use axonel.Runtime.Reconciler.Expiry.{Reconciled, reconcile-Reconciled}
use axonel.Runtime.Reconciler.InFlight.{attended, reconcile_commands-attended}
use axonel.Runtime.Reconciler.Restart.{Restarted, reconcile_startup-Restarted}
use axonel.Runtime.Reconciler.Missions.{is_integrating, restart_missions_resolves}

abbrev J : Type 0
J = Unit {0}

abbrev nothing : Metadata J
nothing = record {
  get = λ key v. none;
  as_str = λ v. none;
  as_bool = λ v. none;
  as_u64 = λ v. none;
  as_strings = λ v. none;
}

abbrev no_json : Json J
no_json = record {
  empty = tt;
  get = λ key v. none;
  as_str = λ v. none;
  set = λ key x v. tt;
  number = λ n. tt;
  flag = λ b. tt;
  text = λ s. tt;
  reason = λ r. tt;
  diagnostics = λ ds. tt;
}

abbrev a_task : TaskId → TaskState → Option AgentId → Task J
a_task id state agent = record {
  id = id;
  workflow_id = 0;
  workspace_id = none;
  objective = "a task";
  description = none;
  parent_id = none;
  state = state;
  priority = pos 0;
  criteria = [];
  assigned_agent_id = agent;
  attempts = 0;
  max_attempts = 3;
  metadata = tt;
  created_at = 7;
  updated_at = 7;
}

abbrev an_agent : AgentId → Agent J
an_agent id = record {
  id = id;
  display_name = "an agent";
  role = "developer";
  provider_profile = record { provider = "ollama"; model = "llama3"; parameters = tt };
  capabilities = [];
  permissions = [];
  state = AgentState.idle;
  current_execution_id = none;
  configuration = tt;
  created_at = 0;
  updated_at = 0;
}

abbrev a_workflow : Workflow J
a_workflow = record {
  id = 0;
  workspace_id = none;
  title = "a workflow";
  objective = "an objective";
  state = WorkflowState.active;
  metadata = tt;
  created_at = 0;
  updated_at = 0;
}

abbrev a_lease : TaskId → Instant → Lease
a_lease id expires_at = record {
  id = id + 40;
  task_id = id;
  agent_id = 5;
  generation = 1;
  acquired_at = 0;
  expires_at = expires_at;
}

abbrev a_command : TaskId → CommandState → Command J
a_command id state = record {
  id = id + 60;
  target = Command.task id;
  command_type = Command.execute_task;
  payload = tt;
  state = state;
  idempotency_key = "a key";
  attempts = 1;
  max_attempts = 3;
  created_at = 0;
  dispatched_at = some 3;
  completed_at = none;
}

abbrev a_mission : MissionState → Mission J
a_mission state = record (Mission.new tt 9 0 "a mission" "an objective") { state = state }

-- Both tasks wait, both agents are idle.
abbrev waiting : Work J
waiting = record {
  workflows = a_workflow ∷ [];
  tasks = a_task 1 TaskState.ready none ∷ a_task 2 TaskState.backlog none ∷ [];
  dependencies = [];
  agents = an_agent 5 ∷ an_agent 6 ∷ [];
  leases = record { generations = (1, 0) ∷ (2, 4) ∷ []; agents = 5 ∷ 6 ∷ []; leases = [] };
  commands = [];
  executions = [];
  missions = [];
  workspaces = [];
  events = [];
}

-- The lease of task 1 has expired at time 10, task 2 has none, that of task 3 is live; both first are
-- on their way to an agent, and mission 9 was being integrated.
abbrev crashed : Work J
crashed = record waiting {
  tasks =
      a_task 1 TaskState.running (some 5)
      ∷ a_task 2 TaskState.assigned (some 6)
      ∷ a_task 3 TaskState.running (some 5)
      ∷ [];
  leases = record {
    generations = (1, 1) ∷ (2, 4) ∷ (3, 1) ∷ [];
    agents = 5 ∷ 6 ∷ [];
    leases = a_lease 1 10 ∷ a_lease 3 20 ∷ [];
  };
  commands = a_command 1 CommandState.dispatched ∷ a_command 3 CommandState.delivered ∷ [];
  missions = a_mission MissionState.integrating ∷ [];
}

abbrev context : Context J
context = record {
  json = nothing;
  to_lowercase = λ s. s;
  matrix = [];
  payload = λ task agent workflow lease generation. tt;
  idempotency_key = λ task attempt. if task == 1 then "first" else "second";
  lease_id = λ task. task + 40;
  command_id = λ task. task + 60;
  granted_at = λ task. 8;
  acquired_at = λ task. 8;
  readied_at = λ task. 8;
  assigned_at = λ task. 9;
  created_at = λ task. 9;
  claimed_at = λ task. 9;
}

abbrev leases_of : Outcome J (List (Job J)) → List LeaseId
leases_of (s, ok jobs) = map (λ (job : Job J). job.lease_id) jobs
leases_of (s, err e) = []

-- Each task gets an agent, under a lease.
both_assigned :
    leases_of (assign_tasks context 0 (1 ∷ 2 ∷ []) waiting.agents waiting) ≡ 41 ∷ 42 ∷ []
unfolding assign_tasks Map.get retain Map.insert
both_assigned = refl

assign_tasks-Round_example :
    Round
      (1 ∷ 2 ∷ [])
      waiting.agents
      waiting
      (assign_tasks context 0 (1 ∷ 2 ∷ []) waiting.agents waiting)
assign_tasks-Round_example =
    assign_tasks-Round context 0 (1 ∷ 2 ∷ []) waiting.agents waiting refl refl

abbrev all_stores : Reconciler
all_stores = record {
  workflow_store = true;
  command_store = true;
  execution_store = true;
  mission_store = true;
  workspace_store = true;
}

abbrev never_merged : Repository
never_merged = record { is_ancestor = λ path commit branch. false; rfc3339 = λ now. "12:00" }

abbrev states_of : Work J → List TaskState
states_of w = map (λ (t : Task J). t.state) w.tasks

-- The tasks without a live lease are ready again, the third runs on.
restarted :
    states_of
      (reconcile_startup no_json never_merged nothing (λ s. none) all_stores 10 crashed).0.work
    ≡ TaskState.ready ∷ TaskState.ready ∷ TaskState.running ∷ []
unfolding reconcile_startup is_runnable_candidate
restarted = refl

reconcile-Reconciled_example :
    Reconciled 10 crashed (reconcile nothing (λ s. none) all_stores 10 crashed)
reconcile-Reconciled_example = reconcile-Reconciled nothing (λ s. none) all_stores 10 crashed

abbrev at_start : Pass J
at_start = record { work = crashed; report = default_report }

reconcile_commands-attended_example :
    let s = (reconcile_commands nothing (λ s. none) all_stores 10 at_start).work in
    all_in (attended nothing (λ s. none) s) s.commands ≡ true
reconcile_commands-attended_example =
    reconcile_commands-attended nothing (λ s. none) all_stores 10 at_start refl

reconcile_startup-Restarted_example :
    Restarted crashed
      (reconcile_startup no_json never_merged nothing (λ s. none) all_stores 10 crashed)
reconcile_startup-Restarted_example =
    reconcile_startup-Restarted no_json never_merged nothing (λ s. none) all_stores 10 crashed refl

restart_missions_resolves_example :
    all_in
      (λ m. not (is_integrating m))
      (restart_missions no_json never_merged all_stores 10 at_start).work.missions
    ≡ true
restart_missions_resolves_example =
    restart_missions_resolves no_json never_merged all_stores 10 at_start refl

-- Task 1 was sent off before, and came back with the same attempts.
abbrev returned : Work J
returned = record waiting {
  commands = (record (a_command 1 CommandState.confirmed) { idempotency_key = "first" }) ∷ [];
}

abbrev new_lease : Lease
new_lease = record {
  id = 41;
  task_id = 1;
  agent_id = 5;
  generation = 1;
  acquired_at = 8;
  expires_at = 8 + five_minutes;
}

abbrev granted : Tables
granted = record {
  generations = (1, 1) ∷ (2, 4) ∷ [];
  agents = 5 ∷ 6 ∷ [];
  leases = new_lease ∷ [];
}

launch-Stranded_example :
    Stranded context
      (a_task 1 TaskState.ready none)
      5
      granted
      (launch context 0 (a_task 1 TaskState.ready none) 5 returned)
unfolding acquire Map.get Map.insert get_task
launch-Stranded_example =
    launch-Stranded context 0 (a_task 1 TaskState.ready none) 5 returned granted new_lease refl refl
      refl refl
