-- ===== src/Runtime/Engine.antt =====
-- crates/plexis-runtime/src/mission/engine.rs: what drives a mission, and with it checkpoint.rs,
-- executor.rs and the loop of crates/plexis-server/src/routes.rs that steps a started mission.
pub mod Store
pub mod Stopping
pub mod Control
pub mod Cycle
pub mod Review
pub mod Step
pub mod Rows
pub mod Frames
pub mod Cases
pub mod Endings
pub mod Progress
pub mod Verdicts
pub mod Outcomes
pub mod Loop
pub mod Rounds
pub mod Settling
pub mod Commands
pub mod Starting
pub mod Uncounted
