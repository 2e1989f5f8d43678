-- ===== src/Runtime/LeaseManager/Grants.antt =====
-- The fencing tokens that `LeaseManager` (crates/plexis-runtime/src/lease_manager.rs) hands out,
-- whatever happens to the leases in between.
use axonel.Prelude.{ℕ, ◌<◌, ◌≡◌, ◌≢◌, inl, inr, refl, List, ok, arith, Option-cases}
use axonel.Core.Ids.{TaskId, AgentId, LeaseId, Instant, Duration}
use axonel.Core.Lease as Lease
use axonel.Core.Lease.{Lease}
use axonel.Storage.Leases.{Tables, find_lease, get_lease_by_task}
use axonel.Storage.Leases.Fencing.{Granted, found_above}
use axonel.Storage.Leases.Runs.{
  LeaseCall, perform_all, acquire_lease-Acquired, refused, failed, granted, IsFenced,
  perform_all-IsFenced, perform_all-grows,
}
use axonel.Runtime.LeaseManager.{acquire, validate_token}

Granted-of_acquire :
    (id : LeaseId) (at now : Instant) (task : TaskId) (agent : AgentId) (ttl : Duration)
    (s : Tables) (g : Lease)
    → (acquire id at now task agent ttl s).1 ≡ ok g
    → Granted (Lease.new id at task agent ttl) s (acquire id at now task agent ttl s).0 g
unfolding acquire
Granted-of_acquire id at now task agent ttl s g h =
    elim (acquire_lease-Acquired now (Lease.new id at task agent ttl) s) [
      | refused _ e ↦ absurd (ground arith)
      | failed _ e ↦ absurd (ground arith)
      | granted _ t g' e r ↦ let same : g' ≡ g = ground arith in rw (e, ← same) r
    ]

refused_below :
    (t : TaskId) (n : ℕ) (s : Tables) (later : Instant) (a : Lease)
    → IsFenced t n s
    → validate_token t n later s ≢ ok a
unfolding validate_token get_lease_by_task Lease.validate_token
refused_below t n s later a f h = elim (Option-cases (find_lease t s.leases)) [
  | inl e ↦ ground arith
  | inr (l, e) ↦ ground (arith, found_above t n s.leases l f.leased e)
]

task-new :
    (id : LeaseId) (at : Instant) (task : TaskId) (agent : AgentId) (ttl : Duration)
    → (Lease.new id at task agent ttl).task_id ≡ task
unfolding Lease.new
task-new id at task agent ttl = refl

-- Two grants of one task with any calls of the store between them: the later grant has the larger
-- generation, and from then on, after any further calls and at any time, `validate_token` refuses
-- the token of the earlier one.
pub grants_fence :
    (task : TaskId) (id₁ id₂ : LeaseId) (at₁ now₁ at₂ now₂ : Instant) (agent₁ agent₂ : AgentId)
    (ttl₁ ttl₂ : Duration) (s : Tables) (g₁ g₂ : Lease) (between after : List LeaseCall)
    → let (s₁, r₁) = acquire id₁ at₁ now₁ task agent₁ ttl₁ s in
      let (s₂, r₂) = acquire id₂ at₂ now₂ task agent₂ ttl₂ (perform_all between s₁) in
      r₁ ≡ ok g₁
      → r₂ ≡ ok g₂
      → (g₁.generation < g₂.generation)
        × ((later : Instant) (a : Lease)
            → validate_token task g₁.generation later (perform_all after s₂) ≢ ok a)
grants_fence task id₁ id₂ at₁ now₁ at₂ now₂ agent₁ agent₂ ttl₁ ttl₂ s g₁ g₂ between after e₁ e₂ =
    let first = Granted-of_acquire id₁ at₁ now₁ task agent₁ ttl₁ s g₁ e₁ in
    let s₁ = (acquire id₁ at₁ now₁ task agent₁ ttl₁ s).0 in
    let second = Granted-of_acquire id₂ at₂ now₂ task agent₂ ttl₂ (perform_all between s₁) g₂ e₂ in
    let s₂ = (acquire id₂ at₂ now₂ task agent₂ ttl₂ (perform_all between s₁)).0 in
    let above : g₁.generation < g₂.generation = ground (
      arith,
      first.current,
      second.renumbered,
      perform_all-grows task between s₁,
      task-new id₁ at₁ task agent₁ ttl₁,
      task-new id₂ at₂ task agent₂ ttl₂,
    ) in
    (
      above,
      λ later a. refused_below task g₁.generation (perform_all after s₂) later a (
          perform_all-IsFenced task g₁.generation after s₂ (record {
            counted = ground (arith, second.current, task-new id₂ at₂ task agent₂ ttl₂);
            leased =
                ground
                  (arith, second.fenced g₁.generation above, task-new id₂ at₂ task agent₂ ttl₂);
          })),
    )
