-- ===== src/Core/State.antt =====
-- crates/plexis-core/src/state.rs: one child for each lifecycle, over what they share.
pub mod Transition
pub mod Names
pub mod Requests
pub mod Task
pub mod Agent
pub mod Workflow
pub mod Execution
pub mod Command
pub mod Mission
