-- ===== src/Lib.antt =====
-- Axonel coordinates coding agents: workflows of tasks that depend on each other, agents that hold
-- leases on tasks and execute them, human approvals, and missions over it all, which an engine steps
-- until they are verified, stuck or out of budget. This library models the domain core,
-- crates/plexis-core, the parts of crates/plexis-storage and crates/plexis-runtime that guard it
-- (leases, approvals, limits and budgets), the scheduler, the reconciler, the recovery of failed
-- tasks, the mission engine, and how crates/plexis-providers
-- spreads requests over providers of language models.
--
-- The parts, and the file of each:
-- - Core.State and the modules below it: the six lifecycles of crates/plexis-core/src/state.rs
--   (`TaskState`, `AgentState`, `WorkflowState`, `ExecutionState`, `CommandState`,
--   `MissionState`), each with `as_str`, `can_transition_to` (whose `match` is `allows`),
--   `transition_to`, its predicates and `from_str`. Core.State.Requests has the runs of a
--   lifecycle: one request after another, the refused ones among them.
-- - Core.Task: crates/plexis-core/src/task.rs. `assign_to` and `unassign` go through the task
--   lifecycle.
-- - Core.Lease: crates/plexis-core/src/lease.rs, the right to execute a task. The `generation` is
--   its fencing token.
-- - Core.Execution: crates/plexis-core/src/execution.rs, one attempt at a task.
-- - Core.Approval: crates/plexis-core/src/approval.rs, the human gate.
-- - Core.Command: crates/plexis-core/src/command.rs, an order to an agent, task or workflow.
-- - Core.Graph: crates/plexis-core/src/graph.rs, the dependency graph that says which task may
--   run. Base has the state and the queries, Kahn the two runs of Kahn's algorithm, Edit the
--   operations that change the graph, Runnable the choice of what may run; the other modules prove
--   what these keep.
-- - Core.Budget: the budget of crates/plexis-core/src/mission.rs. Core.Mission: the other records
--   of that file. Core.Workflow: crates/plexis-core/src/workflow.rs. Core.Agent:
--   crates/plexis-core/src/agent.rs.
-- - Storage.Leases: the lease methods of crates/plexis-storage/src/sqlite/store.rs, on the columns
--   that they use. Fencing and Runs follow the generations through any calls.
-- - Runtime.LeaseManager: crates/plexis-runtime/src/lease_manager.rs, over Storage.Leases and
--   Core.Lease.
-- - Runtime.Governance: crates/plexis-runtime/src/governance.rs, over Core.Task and Core.Approval
--   and the rows of both.
-- - Runtime.Resources: crates/plexis-runtime/src/resources.rs. The concurrency limiter, which many
--   threads share, is a relation of atomic steps.
-- - Runtime.Mission: crates/plexis-runtime/src/mission/budget.rs and liveness.rs, over Core.Budget.
-- - Runtime.Engine: crates/plexis-runtime/src/mission/engine.rs, checkpoint.rs and executor.rs, over
--   Core.Mission and Runtime.Mission. Store has the rows that the engine reads and writes (the
--   mission store of crates/plexis-storage/src/sqlite/store.rs) and its set of running missions,
--   Control the commands, Stopping the stopping condition, Cycle, Review and Step the parts of
--   `step_mission` in their order, and Loop the task of crates/plexis-server/src/routes.rs that
--   steps a mission. The other modules prove what a step and the loop leave.
-- - Storage.Work: the rows of crates/plexis-storage/src/sqlite/store.rs that the scheduler and the
--   reconciler share, over the records of the core, with the leases of Storage.Leases.
-- - Runtime.Selector: crates/plexis-runtime/src/selector.rs, which chooses the agent of a task.
--   Candidates says who may have it, Best who gets it.
-- - Runtime.Scheduler: crates/plexis-runtime/src/scheduler.rs. `tick` loads the task graph
--   (Core.Graph), asks the selector for agents and the lease manager for leases, and writes tasks
--   and commands (Storage.Work). Launches is about one task, Rounds about the loop over them,
--   Stranded about a task that comes back.
-- - Runtime.Reconciler: crates/plexis-runtime/src/reconciler.rs; Startup has what a start of the
--   server adds. Frames and Returned are about single rounds, Expiry, InFlight, Orphans, Missions
--   and Restart about the passes.
-- - Core.Recovery: crates/plexis-core/src/recovery.rs. Runtime.Recovery:
--   crates/plexis-runtime/src/recovery.rs and the recovery records of the store.
-- - Planner: crates/plexis-planner/src/proposal.rs and validator.rs (Validator, Shape), and applier.rs
--   (Applier, Kept), which makes the tasks of a proposal.
-- - Providers: crates/plexis-providers/src/error.rs (Errors), reliability.rs (Reliability), health.rs
--   (Health) and failover.rs (Failover).
-- - Prelude: tests on numbers, `Result` and `?`, sets and maps as lists, and text.
-- - Tests: the model run on concrete values.
--
-- How the code is modelled. A method that takes `&mut self` is a function that returns the receiver
-- as it leaves it beside the `Result`, on the error paths too. UUIDs, instants and durations are
-- natural numbers; a fresh UUID and what the clock shows are arguments. A counter of w bits wraps
-- at 2^w, as a release build makes it. `serde_json::Value` is a type parameter. A `HashMap` or
-- `HashSet` is a list whose order stands for the order of iteration, which Rust leaves open: the
-- theorems hold for every order. `sort_by` is stable, as insertion sort is. The text of an error
-- message is left out where a constructor says the same. SQLite is read as its documentation says: a
-- statement that breaks a constraint of the schema fails, and a failed transaction changes nothing;
-- errors of the disk are left out, and the generation counter of a task is taken to be unbounded.
--
-- Bounds. The loop of Kahn's algorithm runs on fuel, one round more than there are tasks: a task
-- enters the queue once at most, so the queue is empty when the fuel ends (Core.Graph.Order), and
-- the theorems about the two callers depend on no bound. The loop that steps a mission runs on fuel
-- too: the stagnant cycles that the mission has left and two rounds more are enough, since a step
-- after which it goes on counts one of them. The attempts at one provider run on fuel, one more than
-- the retries of the policy.
--
-- What lies outside. The workflow executor that the engine calls is a function of the store, which
-- the theorems take to leave the mission's row and the set of running missions alone, as
-- crates/plexis-server/src/workflow_executor.rs does. What git, cargo and a custom verifier report,
-- what an agent's execution of a command does to the store,
-- the answers of providers, the clock, the backoff in floating point, Unicode's lower case and the
-- matrix of the models' capabilities are parameters. A step of a
-- mission runs to its end before the next call on that mission.
--
-- Not modelled: the other tables of the store; the processes and files of the runtime, its
-- runner, agent host and dispatcher; the search for cycles in a proposal, what the planner
-- stores, and its language model; the clients of language models; the rest of the HTTP server;
-- the tools; vector memory, which computes in floating point; and the records of the core that
-- have no behaviour.
pub mod Prelude
pub mod Core
pub mod Storage
pub mod Runtime
pub mod Planner
pub mod Providers
pub mod Tests
