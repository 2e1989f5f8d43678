-- ===== src/Core.antt =====
-- crates/plexis-core: the domain model.
pub mod Ids
pub mod State
pub mod Task
pub mod Lease
pub mod Execution
pub mod Approval
pub mod Command
pub mod Budget
pub mod Agent
pub mod Workflow
pub mod Mission
pub mod Graph
pub mod Recovery
