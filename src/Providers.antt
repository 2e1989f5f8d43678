-- ===== src/Providers.antt =====
-- crates/plexis-providers: how requests are spread over the providers of language models. A provider's
-- identifier, which is only compared, is a number, as in Core.Ids; a `Duration` and an `Instant` are
-- nanoseconds.
pub mod Errors
pub mod Reliability
pub mod Health
pub mod Failover
