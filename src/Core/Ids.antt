-- ===== src/Core/Ids.antt =====
-- crates/plexis-core/src/ids.rs: the identifiers are UUIDs, of which the sources use equality and
-- order alone, so an identifier is the number that its 128 bits spell. An instant
-- (`DateTime<Utc>`) is a number of nanoseconds, and a duration the number it adds.
use axonel.Prelude.{ℕ}

abbrev pub TaskId : Type 0
TaskId = ℕ

abbrev pub AgentId : Type 0
AgentId = ℕ

abbrev pub WorkflowId : Type 0
WorkflowId = ℕ

abbrev pub WorkspaceId : Type 0
WorkspaceId = ℕ

abbrev pub ExecutionId : Type 0
ExecutionId = ℕ

abbrev pub SessionId : Type 0
SessionId = ℕ

abbrev pub LeaseId : Type 0
LeaseId = ℕ

abbrev pub ApprovalId : Type 0
ApprovalId = ℕ

abbrev pub CommandId : Type 0
CommandId = ℕ

abbrev pub MissionId : Type 0
MissionId = ℕ

abbrev pub RecoveryId : Type 0
RecoveryId = ℕ

abbrev pub Instant : Type 0
Instant = ℕ

abbrev pub Duration : Type 0
Duration = ℕ

abbrev pub CheckpointId : Type 0
CheckpointId = ℕ

-- The name of a provider of language models, a text of which equality alone is used.
abbrev pub ProviderId : Type 0
ProviderId = ℕ
