-- ===== src/Runtime.antt =====
-- crates/plexis-runtime: the coordination of agents.
pub mod LeaseManager
pub mod Governance
pub mod Resources
pub mod Mission
pub mod Engine
pub mod Selector
pub mod Reconciler
pub mod Scheduler
pub mod Recovery
