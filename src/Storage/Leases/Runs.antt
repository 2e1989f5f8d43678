-- ===== src/Storage/Leases/Runs.antt =====
-- Runs of the lease store (crates/plexis-storage/src/sqlite/store.rs): what a call of
-- `acquire_lease` does, and what no later call undoes.
use axonel.Prelude.{
  ℕ, ◌+◌, ◌≤◌, ◌≡◌, inl, inr, Bool, true, false, Option, none, some, List, [], ◌∷◌, ltb, ok, err,
  arith, Bool-cases, Option-cases,
}
use axonel.Prelude.Map
use axonel.Prelude.Map.{get-insert}
use axonel.Core.Ids.{TaskId, LeaseId, Instant}
use axonel.Core.Lease.{Lease}
use axonel.Storage.Leases.{
  Tables, sqlite, lease_conflict, find_lease, delete_lease, grant, commit, acquire_lease,
  renew_lease, release_lease, reclaim_expired_leases, get_current_lease_generation,
  increment_lease_generation,
}
use axonel.Storage.Leases.Fencing.{
  Granted, grant-Granted, all_above, all_above-delete_lease, all_above-update_expiry,
  all_above-delete_expired,
}

-- One call of the store that changes its tables.
pub data LeaseCall : Type 0 where
  acquires : Instant → Lease → LeaseCall
  renews : LeaseId → Instant → LeaseCall
  releases : LeaseId → LeaseCall
  reclaims : Instant → LeaseCall
  increments : TaskId → LeaseCall

unfoldable pub perform : LeaseCall → Tables → Tables
perform (acquires now lease) s = (acquire_lease now lease s).0
perform (renews id expiry) s = (renew_lease id expiry s).0
perform (releases id) s = (release_lease id s).0
perform (reclaims now) s = (reclaim_expired_leases now s).0
perform (increments task_id) s = (increment_lease_generation task_id s).0

unfoldable pub perform_all : List LeaseCall → Tables → Tables
unfolding perform
perform_all [] s = s
perform_all (call ∷ calls) s = perform_all calls (perform call s)

abbrev pub is_live : Option Lease → Instant → Bool
is_live none now = false
is_live (some lease) now = ltb now lease.expires_at

-- The tables that the transaction of `acquire_lease` works on, past the deletion of a stale lease.
abbrev pub cleared : Option Lease → Tables → Tables
cleared none s = s
cleared (some old) s = record s { leases = delete_lease old.id s.leases }

pub acquire_lease_live :
    (now : Instant) (lease : Lease) (s : Tables)
    → is_live (find_lease lease.task_id s.leases) now ≡ true
    → acquire_lease now lease s ≡ (s, err (lease_conflict lease.task_id))
unfolding acquire_lease
acquire_lease_live now lease s h = ground arith

pub acquire_lease_free :
    (now : Instant) (lease : Lease) (s : Tables)
    → is_live (find_lease lease.task_id s.leases) now ≡ false
    → acquire_lease now lease s
      ≡ commit s (grant lease (cleared (find_lease lease.task_id s.leases) s))
unfolding acquire_lease
acquire_lease_free now lease s h = ground arith

Granted-cleared :
    (lease : Lease) (o : Option Lease) (s t : Tables) (g : Lease)
    → Granted lease (cleared o s) t g
    → Granted lease s t g
unfolding get_current_lease_generation
Granted-cleared lease none s t g r = r
Granted-cleared lease (some old) s t g r = record {
  renumbered = r.renumbered;
  current = r.current;
  others = r.others;
  held = r.held;
  kept = λ u n a le. r.kept u n (all_above-delete_lease u n old.id s.leases a) le;
  fenced = r.fenced;
}

-- What a call of `acquire_lease` may do.
pub data Acquired (now : Instant) (lease : Lease) (s : Tables) : Type 0 where
  refused :
      is_live (find_lease lease.task_id s.leases) now ≡ true
      → acquire_lease now lease s ≡ (s, err (lease_conflict lease.task_id))
      → Acquired now lease s
  failed :
      is_live (find_lease lease.task_id s.leases) now ≡ false
      → acquire_lease now lease s ≡ (s, err sqlite)
      → Acquired now lease s
  granted :
      is_live (find_lease lease.task_id s.leases) now ≡ false
      → (t : Tables) (g : Lease) → acquire_lease now lease s ≡ (t, ok g)
      → Granted lease s t g
      → Acquired now lease s

-- Whatever the tables hold: `acquire_lease` reports a conflict exactly while a lease of the
-- task is live; else SQLite refuses, and then too nothing changes, or the lease is granted, with
-- the generation one above the task's current one, which becomes the current one; the lease is
-- then the one found for its task, and no other task's generation falls.
pub acquire_lease-Acquired : (now : Instant) (lease : Lease) (s : Tables) → Acquired now lease s
unfolding commit
acquire_lease-Acquired now lease s =
    let o = find_lease lease.task_id s.leases in
    elim (Bool-cases (is_live o now)) [
      | inl live ↦ refused live (acquire_lease_live now lease s live)
      | inr free ↦ elim (Option-cases (grant lease (cleared o s))) [
        | inl e ↦ failed free (ground (arith, acquire_lease_free now lease s free))
        | inr ((t, g), e) ↦
            granted free t g (ground (arith, acquire_lease_free now lease s free))
              (Granted-cleared lease o s t g (grant-Granted lease (cleared o s) t g e))
      ]
    ]

-- Tokens up to `n` of task `t` are spent.
pub record IsFenced (t : TaskId) (n : ℕ) (s : Tables) : Type 0 where
  pub counted : n ≤ get_current_lease_generation t s
  pub leased : all_above t n s.leases ≡ true

increment-grows :
    (u t : TaskId) (s : Tables)
    → get_current_lease_generation t s
      ≤ get_current_lease_generation t (increment_lease_generation u s).0
unfolding get_current_lease_generation increment_lease_generation
increment-grows u t s = elim (Option-cases (Map.get s.generations u)) [
  | inl e ↦ ground (arith, e)
  | inr (n, e) ↦ ground (arith, e, get-insert u (n + 1) s.generations t)
]

leases-increment : (u : TaskId) (s : Tables) → (increment_lease_generation u s).0.leases ≡ s.leases
unfolding increment_lease_generation
leases-increment u s = ground arith

acquire-grows :
    (t : TaskId) (now : Instant) (lease : Lease) (s : Tables)
    → get_current_lease_generation t s
      ≤ get_current_lease_generation t (acquire_lease now lease s).0
acquire-grows t now lease s = elim (acquire_lease-Acquired now lease s) [
  | refused _ e ↦ rw e (omega arith)
  | failed _ e ↦ rw e (omega arith)
  | granted _ u g e r ↦ rw e (r.others t)
]

acquire-kept :
    (t : TaskId) (n : ℕ) (now : Instant) (lease : Lease) (s : Tables)
    → IsFenced t n s
    → all_above t n (acquire_lease now lease s).0.leases ≡ true
acquire-kept t n now lease s f = elim (acquire_lease-Acquired now lease s) [
  | refused _ e ↦ rw e f.leased
  | failed _ e ↦ rw e f.leased
  | granted _ u g e r ↦ rw e (r.kept t n f.leased f.counted)
]

perform-grows :
    (t : TaskId) (call : LeaseCall) (s : Tables)
    → get_current_lease_generation t s ≤ get_current_lease_generation t (perform call s)
unfolding perform renew_lease release_lease reclaim_expired_leases get_current_lease_generation
perform-grows t (acquires now lease) s = acquire-grows t now lease s
perform-grows t (increments u) s = increment-grows u t s
perform-grows t (renews id e) s = ground arith
perform-grows t _ s = omega arith

leased-perform :
    (t : TaskId) (n : ℕ) (call : LeaseCall) (s : Tables)
    → IsFenced t n s
    → all_above t n (perform call s).leases ≡ true
unfolding perform renew_lease release_lease reclaim_expired_leases
leased-perform t n (acquires now lease) s f = acquire-kept t n now lease s f
leased-perform t n (increments u) s f = rw leases-increment f.leased
leased-perform t n (renews id e) s f =
    ground (arith, all_above-update_expiry t n e id s.leases f.leased, f.leased)
leased-perform t n (releases id) s f = all_above-delete_lease t n id s.leases f.leased
leased-perform t n (reclaims now) s f = all_above-delete_expired t n now s.leases f.leased

pub perform_all-IsFenced :
    (t : TaskId) (n : ℕ) (calls : List LeaseCall) (s : Tables)
    → IsFenced t n s
    → IsFenced t n (perform_all calls s)
unfolding perform_all
perform_all-IsFenced t n [] s f = f
perform_all-IsFenced t n (call ∷ calls) s f =
    perform_all-IsFenced t n calls (perform call s) (record {
      counted = omega (arith, perform-grows t call s, f.counted);
      leased = leased-perform t n call s f;
    })

pub perform_all-grows :
    (t : TaskId) (calls : List LeaseCall) (s : Tables)
    → get_current_lease_generation t s ≤ get_current_lease_generation t (perform_all calls s)
unfolding perform_all
perform_all-grows t [] s = omega arith
perform_all-grows t (call ∷ calls) s =
    omega (arith, perform-grows t call s, perform_all-grows t calls (perform call s))
