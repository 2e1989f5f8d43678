-- ===== src/Tests/Leases.antt =====
-- The lease store and the lease manager (crates/plexis-storage, crates/plexis-runtime) on one task.
use axonel.Prelude.{ℕ, ◌+◌, ◌<◌, ◌≡◌, ◌≢◌, refl, some, List, [], ◌∷◌, ltb, if◌then◌else◌, ok, err}
use axonel.Prelude.Map
use axonel.Core.Ids.{Instant}
use axonel.Core.Lease as Lease
use axonel.Core.Lease.{Lease, expired}
use axonel.Storage.Leases
use axonel.Storage.Leases.{Tables, acquire_lease, get_lease_by_task}
use axonel.Storage.Leases.Runs.{
  LeaseCall, reclaims, perform, perform_all, Acquired, acquire_lease-Acquired,
}
use axonel.Runtime.LeaseManager as Manager
use axonel.Runtime.LeaseManager.Grants.{grants_fence}
use axonel.Runtime.LeaseManager.Renewals.{renew_revives}

-- Task 1 has never been leased; 5 and 6 are agents.
abbrev unleased : Tables
unleased = record { generations = (1, 0) ∷ []; agents = 5 ∷ 6 ∷ []; leases = [] }

abbrev lease_of : ℕ → ℕ → ℕ → Instant → Lease
lease_of id agent generation at = record {
  id = id;
  task_id = 1;
  agent_id = agent;
  generation = generation;
  acquired_at = at;
  expires_at = at + 10;
}

abbrev leased : Tables
leased = record {
  generations = (1, 1) ∷ [];
  agents = 5 ∷ 6 ∷ [];
  leases = lease_of 30 5 1 100 ∷ [];
}

-- The lease of agent 5 runs out and is reclaimed.
abbrev between : List LeaseCall
between = reclaims 120 ∷ []

first_grant : Manager.acquire 30 100 101 1 5 10 unleased ≡ (leased, ok (lease_of 30 5 1 100))
unfolding Manager.acquire Leases.acquire_lease Leases.find_lease Leases.grant Leases.commit
    Leases.insert_lease Leases.has_lease Map.get Map.insert Lease.new
first_grant = refl

second_grant :
    (Manager.acquire 31 130 131 1 6 10 (perform_all between leased)).1 ≡ ok (lease_of 31 6 2 130)
unfolding Manager.acquire Leases.acquire_lease Leases.find_lease Leases.grant Leases.commit
    Leases.insert_lease Leases.has_lease Map.get Map.insert Lease.new perform_all perform
    Leases.reclaim_expired_leases Leases.delete_expired
second_grant = refl

grants_fence_example :
    (1 < 2)
    × ((later : Instant) (a : Lease)
        → Manager.validate_token 1 1 later (
            perform_all []
              (Manager.acquire 31 130 131 1 6 10
                (perform_all between (Manager.acquire 30 100 101 1 5 10 unleased).0)).0)
          ≢ ok a)
grants_fence_example =
    grants_fence 1 30 31 100 101 130 131 5 6 10 10 unleased (lease_of 30 5 1 100)
      (lease_of 31 6 2 130) between [] (rw first_grant refl) (rw first_grant second_grant)

acquire_lease-Acquired_example : Acquired 105 (lease_of 31 6 1 105) leased
acquire_lease-Acquired_example = acquire_lease-Acquired 105 (lease_of 31 6 1 105) leased

leased_found : get_lease_by_task 1 leased ≡ some (lease_of 30 5 1 100)
unfolding get_lease_by_task Leases.find_lease
leased_found = refl

-- At time 200 the lease has run out long since.
renew_revives_example :
    let (s', r) = Manager.renew 30 10 200 leased in
    (r ≡ ok tt)
    × (Manager.validate_token 1 1 200 s' ≡ (
        if ltb 0 10
        then ok (record (lease_of 30 5 1 100) { expires_at = 200 + 10 })
        else err (Manager.lease (expired (200 + 10) 200))))
renew_revives_example = renew_revives 1 (lease_of 30 5 1 100) 10 200 leased leased_found
