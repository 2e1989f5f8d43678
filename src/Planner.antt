-- ===== src/Planner.antt =====
-- crates/plexis-planner: the plans that a planner proposes.
pub mod Validator
pub mod Applier
