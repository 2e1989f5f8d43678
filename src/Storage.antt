-- ===== src/Storage.antt =====
-- crates/plexis-storage: the tables that the runtime works on.
pub mod Leases
pub mod Work
