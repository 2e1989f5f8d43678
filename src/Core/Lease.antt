-- ===== src/Core/Lease.antt =====
-- crates/plexis-core/src/lease.rs: the right to execute a task, with its fencing token.
pub mod Tokens
use axonel.Prelude.{ℕ, ◌+◌, ◌%◌, ◌^◌, Bool, not, leb, ◌==◌, if◌then◌else◌, Result, ok, err}
use axonel.Core.Ids.{TaskId, AgentId, LeaseId, Instant, Duration}

pub data LeaseError : Type 0 where
  expired : Instant → Instant → LeaseError
  generation_mismatch : ℕ → ℕ → LeaseError
  agent_mismatch : AgentId → AgentId → LeaseError

pub record Lease : Type 0 where
  pub id : LeaseId
  pub task_id : TaskId
  pub agent_id : AgentId
  pub generation : ℕ  -- u64
  pub acquired_at : Instant
  pub expires_at : Instant

-- `id` is the fresh UUID, `now` what the clock shows.
unfoldable pub new : LeaseId → Instant → TaskId → AgentId → Duration → Lease
new id now task_id agent_id ttl = record {
  id = id;
  task_id = task_id;
  agent_id = agent_id;
  generation = 1;
  acquired_at = now;
  expires_at = now + ttl;
}

unfoldable pub is_expired : Lease → Instant → Bool
is_expired lease now = leb lease.expires_at now

unfoldable pub renew : Duration → Instant → Lease → Lease × Result LeaseError (Unit {0})
unfolding is_expired
renew extension now lease =
    if is_expired lease now
    then (lease, err (expired lease.expires_at now))
    else (record lease { expires_at = now + extension }, ok tt)

-- `self.generation += 1` on a `u64`, as a release build wraps it.
unfoldable pub reassign : AgentId → Duration → Instant → Lease → Lease
reassign new_agent_id ttl now lease = record lease {
  agent_id = new_agent_id;
  generation = (lease.generation + 1) % 2 ^ 64;
  acquired_at = now;
  expires_at = now + ttl;
}

unfoldable pub validate_token : Lease → ℕ → Instant → Result LeaseError (Unit {0})
unfolding is_expired
validate_token lease generation now =
    if not (lease.generation == generation)
    then err (generation_mismatch lease.generation generation)
    else if is_expired lease now
    then err (expired lease.expires_at now)
    else ok tt
