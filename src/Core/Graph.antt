-- ===== src/Core/Graph.antt =====
-- crates/plexis-core/src/graph.rs: the dependency graph of a workflow's tasks.
pub mod Base
pub mod Kahn
pub mod Left
pub mod Drain
pub mod Order
pub mod Sorted
pub mod Edit
pub mod Links
pub mod Safety
pub mod Removal
pub mod Compound
pub mod Runnable
pub mod Histories
