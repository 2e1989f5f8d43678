-- ===== src/Runtime/LeaseManager.antt =====
-- crates/plexis-runtime/src/lease_manager.rs: leases as the executor and the scheduler use them.
-- The lease store behind it is `SqliteStore` (`Storage.Leases`).
pub mod Grants
pub mod Renewals
use axonel.Prelude.{ℕ, ◌+◌, Option, none, some, Result, ok, err, and_then}
use axonel.Core.Ids.{TaskId, AgentId, LeaseId, Instant, Duration}
use axonel.Core.Lease as Lease
use axonel.Core.Lease.{Lease, LeaseError}
use axonel.Storage.Leases.{
  Tables, StorageError, acquire_lease, get_lease_by_task, renew_lease, release_lease,
}

-- The errors that the manager returns.
pub data RuntimeError : Type 0 where
  storage : StorageError → RuntimeError
  no_lease : TaskId → RuntimeError
  lease : LeaseError → RuntimeError

-- `?` on a result of the store
abbrev pub stored : {A : Type 0} → Tables × Result StorageError A → Tables × Result RuntimeError A
stored (s, ok a) = (s, ok a)
stored (s, err e) = (s, err (storage e))

-- `id` is the fresh UUID; `granted_at` and `now` are the times at which `Lease::new` and the store
-- look at the clock.
unfoldable pub acquire :
    LeaseId
    → Instant
    → Instant
    → TaskId
    → AgentId
    → Duration
    → Tables
    → Tables × Result RuntimeError Lease
unfolding acquire_lease Lease.new
acquire id granted_at now task_id agent_id ttl s =
    stored (acquire_lease now (Lease.new id granted_at task_id agent_id ttl) s)

unfoldable pub validate_token : TaskId → ℕ → Instant → Tables → Result RuntimeError Lease
unfolding get_lease_by_task Lease.validate_token
validate_token task_id generation now s = elim (get_lease_by_task task_id s) [
  | none ↦ err (no_lease task_id)
  | some found ↦ elim (Lease.validate_token found generation now) [
    | ok _ ↦ ok found
    | err e ↦ err (lease e)
  ]
]

unfoldable pub renew :
    LeaseId → Duration → Instant → Tables → Tables × Result RuntimeError (Unit {0})
unfolding renew_lease
renew lease_id extension now s = stored (renew_lease lease_id (now + extension) s)

unfoldable pub release : LeaseId → Tables → Tables × Result RuntimeError (Unit {0})
unfolding release_lease
release lease_id s = stored (release_lease lease_id s)
