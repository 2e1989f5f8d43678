-- ===== src/Runtime/Scheduler.antt =====
-- crates/plexis-runtime/src/scheduler.rs: `tick` gives the tasks that may run to idle agents, under
-- a lease and with a command each. The store is `SqliteStore` (`Storage.Work`, `Runtime.LeaseManager`).
-- `Context` has what the tick takes from elsewhere: the reads of `serde_json::Value` and the matrix of
-- capabilities that the selector uses, the JSON and the text that the command carries, the fresh
-- UUIDs and what the clock shows, by task: a tick looks at each task once.
pub mod Launches
pub mod Rounds
pub mod Stranded
use axonel.Prelude.{
  ℕ, ◌+◌, ◌*◌, ◌%◌, ◌^◌, String, Bool, true, false, not, ◌&&◌, Option, none, some, is_some, List,
  [], ◌∷◌, ◌==◌, if◌then◌else◌, ite, Result, ok, err, and_then,
}
use axonel.Core.Ids.{TaskId, AgentId, WorkflowId, LeaseId, CommandId, Instant, Duration}
use axonel.Core.State.Transition.{StateTransitionError}
use axonel.Core.State.Task.{TaskState}
use axonel.Core.State.Agent.{AgentState, AgentState-discrete}
use axonel.Core.State.Workflow.{WorkflowState, WorkflowState-discrete}
use axonel.Core.Task.{Task, transition_to}
use axonel.Core.Agent.{Agent}
use axonel.Core.Lease.{Lease}
use axonel.Core.Workflow.{Workflow}
use axonel.Core.Command as Command
use axonel.Core.Command.{Command}
use axonel.Core.Graph.Base.{TaskGraph}
use axonel.Core.Graph.Runnable.{find_runnable_tasks}
use axonel.Storage.Leases.{Tables}
use axonel.Storage.Work.{
  Work, Outcome, WorkError, get_task, update_task, enqueue_command, claim_command_by_id,
  load_task_graph,
}
use axonel.Runtime.LeaseManager.{RuntimeError, acquire, release}
use axonel.Runtime.Selector.{
  Metadata, ProviderCapabilities, select_best_agent_with_matrix, unwrap_or,
}

pub record Context (J : Type 0) : Type 0 where
  pub json : Metadata J
  pub to_lowercase : String → String
  pub matrix : List ProviderCapabilities
  pub payload : TaskId → AgentId → WorkflowId → LeaseId → (generation : ℕ) → J
  pub idempotency_key : TaskId → (attempt : ℕ) → String
  pub lease_id : TaskId → LeaseId
  pub command_id : TaskId → CommandId
  pub granted_at : TaskId → Instant  -- `Lease::new`
  pub acquired_at : TaskId → Instant  -- the look of the lease store at the clock
  pub readied_at : TaskId → Instant
  pub assigned_at : TaskId → Instant
  pub created_at : TaskId → Instant  -- `Command::new`
  pub claimed_at : TaskId → Instant

-- A claimed command, and the lease to give back after it.
pub record Job (J : Type 0) : Type 0 where
  pub command : Command J
  pub lease_id : LeaseId

-- What the loop makes of a task before it takes a lease.
pub data Choice (J : Type 0) : Type 0 where
  skip stop : Choice J
  give : Task J → Agent J → Choice J

-- What came of the lease: another holds it, the task could not be assigned, or there is a job.
pub data Launch (J : Type 0) : Type 0 where
  taken dropped : Launch J
  launched : Job J → Launch J

-- `Duration::minutes(5)`
abbrev pub five_minutes : Duration
five_minutes = 5 * 60 * 1000000000

abbrev pub is_schedulable : TaskState → Bool
is_schedulable TaskState.ready = true
is_schedulable TaskState.backlog = true
is_schedulable _ = false

module _ {J : Type 0} where
  unfoldable pub is_free : Agent J → Bool
  unfolding AgentState-discrete
  is_free a =
      ite (AgentState-discrete a.state AgentState.idle) true false
      && not (is_some a.current_execution_id)

  unfoldable pub free_agents : List (Agent J) → List (Agent J)
  unfolding is_free
  free_agents [] = []
  free_agents (a ∷ rest) = let others = free_agents rest in if is_free a then a ∷ others else others

  -- `available_agents.retain(|a| a.id != selected_agent.id)`
  unfoldable pub retain : AgentId → List (Agent J) → List (Agent J)
  retain id [] = []
  retain id (a ∷ rest) = let others = retain id rest in if a.id == id then others else a ∷ others

  abbrev pub remaining : Launch J → AgentId → List (Agent J) → List (Agent J)
  remaining taken id available = available
  remaining _ id available = retain id available

  abbrev pub push_job : Launch J → List (Job J) → List (Job J)
  push_job (launched job) jobs = job ∷ jobs
  push_job _ jobs = jobs

  abbrev pub select : Task J → Option (Agent J) → Choice J
  select t none = skip
  select t (some a) = give t a

module _ {J : Type 0} (context : Context J) where
  -- From `get_task` to the selection of an agent; `stop` is the loop's `break`.
  unfoldable pub choose : Option (Task J) → List (Agent J) → Choice J
  unfolding select_best_agent_with_matrix
  choose none available = skip
  choose (some t) [] = if is_schedulable t.state then stop else skip
  choose (some t) (a ∷ rest) =
      if is_schedulable t.state
      then select t (
          select_best_agent_with_matrix context.json context.to_lowercase context.matrix t
            (a ∷ rest))
      else skip

  unfoldable pub execute_task : WorkflowId → Task J → AgentId → Lease → Command J
  unfolding Command.new
  execute_task workflow_id t agent_id lease =
      Command.new (context.command_id t.id) (context.created_at t.id) (Command.agent agent_id)
        Command.execute_task (context.payload t.id agent_id workflow_id lease.id lease.generation)
        (context.idempotency_key t.id ((t.attempts + 1) % 2 ^ 32))

  -- Steps 3 and 4: the command is queued and claimed.
  unfoldable pub claim : TaskId → LeaseId → Command J → Work J → Outcome J (Launch J)
  unfolding enqueue_command claim_command_by_id
  claim id lease_id command s = and_then (enqueue_command command s) λ t _.
      let (u, row) = claim_command_by_id (context.claimed_at id) command.id t in
      (u, ok (launched (record { command = unwrap_or command row; lease_id = lease_id })))

  -- The task is assigned, and the command sent off; or the lease goes back.
  unfoldable pub assigned :
      WorkflowId
      → AgentId
      → Lease
      → Task J × Result StateTransitionError (Unit {0})
      → Work J
      → Outcome J (Launch J)
  unfolding release update_task execute_task claim
  assigned workflow_id agent_id lease (t, err e) s =
      (record s { leases = (release lease.id s.leases).0 }, ok dropped)
  assigned workflow_id agent_id lease (t, ok _) s =
      let task : Task J = record t { assigned_agent_id = some agent_id } in
      and_then (update_task task s)
        λ u _. claim task.id lease.id (execute_task workflow_id task agent_id lease) u

  -- Both transitions of step 2, the result of the first dropped.
  unfoldable pub assign : Task J → Task J × Result StateTransitionError (Unit {0})
  unfolding transition_to
  assign t =
      transition_to (context.assigned_at t.id) TaskState.assigned
        (transition_to (context.readied_at t.id) TaskState.ready t).0

  unfoldable pub leased :
      WorkflowId
      → Task J
      → AgentId
      → Tables × Result RuntimeError Lease
      → Work J
      → Outcome J (Launch J)
  unfolding assigned assign
  leased workflow_id t agent_id (tables, err e) s = (record s { leases = tables }, ok taken)
  leased workflow_id t agent_id (tables, ok lease) s =
      assigned workflow_id agent_id lease (assign t) (record s { leases = tables })

  -- Steps 1 to 4 for a task and the agent selected for it.
  unfoldable pub launch : WorkflowId → Task J → AgentId → Work J → Outcome J (Launch J)
  unfolding leased acquire
  launch workflow_id t agent_id s =
      leased workflow_id t agent_id
        (acquire (context.lease_id t.id) (context.granted_at t.id) (context.acquired_at t.id) t.id
          agent_id five_minutes s.leases)
        s

  -- One round of `for task_id in runnable`, with the rounds that follow.
  unfoldable pub proceed :
      (List (Agent J) → Work J → Outcome J (List (Job J)))
      → WorkflowId
      → List (Agent J)
      → Choice J
      → Work J
      → Outcome J (List (Job J))
  unfolding launch
  proceed others workflow_id available skip s = others available s
  proceed others workflow_id available stop s = (s, ok [])
  proceed others workflow_id available (give t a) s =
      and_then (launch workflow_id t a.id s)
        λ u l. and_then (others (remaining l a.id available) u) λ v jobs. (v, ok (push_job l jobs))

  -- The loop, with the agents that are left.
  unfoldable pub assign_tasks :
      WorkflowId → List TaskId → List (Agent J) → Work J → Outcome J (List (Job J))
  unfolding choose proceed get_task
  assign_tasks workflow_id [] available s = (s, ok [])
  assign_tasks workflow_id (id ∷ ids) available s =
      proceed (λ left u. assign_tasks workflow_id ids left u) workflow_id available
        (choose (get_task id s) available) s

-- `CommandDispatcher::dispatch`, whose result is dropped, and `AgentRunner::execute_command`, which
-- says whether the execution succeeded.
pub record Runner (J : Type 0) : Type 0 where
  pub dispatch : Command J → Work J → Work J
  pub execute_command : Command J → Work J → Work J × Bool

module _ {J : Type 0} (context : Context J) (runner : Runner J) where
  abbrev one_if : Bool → ℕ
  one_if true = 1
  one_if false = 0

  unfoldable pub run_job : Job J → Work J → Work J × Bool
  unfolding release
  run_job job s =
      let (t, is_ok) = runner.execute_command job.command (runner.dispatch job.command s) in
      (record t { leases = (release job.lease_id t.leases).0 }, is_ok)

  -- `join_all`, in the schedule that ends each job before the next.
  unfoldable pub run_jobs : List (Job J) → Work J → Work J × ℕ
  unfolding run_job
  run_jobs [] s = (s, 0)
  run_jobs (job ∷ jobs) s =
      let (t, is_ok) = run_job job s in
      let (u, count) = run_jobs jobs t in (u, one_if is_ok + count)

  -- From the runnable tasks of a workflow on.
  unfoldable pub dispatch_runnable : WorkflowId → List TaskId → Work J → Outcome J ℕ
  unfolding assign_tasks free_agents run_jobs
  dispatch_runnable workflow_id [] s = (s, ok 0)
  dispatch_runnable workflow_id (id ∷ ids) s =
      and_then (assign_tasks context workflow_id (id ∷ ids) (free_agents s.agents) s)
        λ t jobs. let (u, count) = run_jobs jobs t in (u, ok count)

  unfoldable pub dispatch_graph : WorkflowId → Result WorkError (TaskGraph J) → Work J → Outcome J ℕ
  unfolding dispatch_runnable find_runnable_tasks
  dispatch_graph workflow_id (err e) s = (s, err e)
  dispatch_graph workflow_id (ok g) s = dispatch_runnable workflow_id (find_runnable_tasks g) s

  -- One round of `for wf in workflows`.
  unfoldable pub dispatch_workflow : Workflow J → Work J → Outcome J ℕ
  unfolding dispatch_graph load_task_graph WorkflowState-discrete
  dispatch_workflow wf s =
      ite (WorkflowState-discrete wf.state WorkflowState.active)
        (dispatch_graph wf.id (load_task_graph wf.id s) s) (s, ok 0)

  unfoldable pub dispatch_workflows : List (Workflow J) → Work J → Outcome J ℕ
  unfolding dispatch_workflow
  dispatch_workflows [] s = (s, ok 0)
  dispatch_workflows (wf ∷ wfs) s =
      and_then (dispatch_workflow wf s)
        λ t here. and_then (dispatch_workflows wfs t) λ u further. (u, ok (here + further))

  unfoldable pub tick : Work J → Outcome J ℕ
  unfolding dispatch_workflows
  tick s = dispatch_workflows s.workflows s
