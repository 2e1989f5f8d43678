-- ===== src/Storage/Leases/Fencing.antt =====
-- The generations that the lease store (crates/plexis-storage/src/sqlite/store.rs) grants, through
-- any sequence of its operations.
use axonel.Prelude.{
  ℕ, ◌+◌, ◌≤◌, ◌<◌, ◌≡◌, ◌⊎◌, inl, inr, refl, Bool, true, not, ◌&&◌, ◌||◌, none, some, List, [],
  ◌∷◌, ◌++◌, ltb, ◌==◌, arith, Option-cases,
}
use axonel.Prelude.Map
use axonel.Prelude.Map.{get-insert}
use axonel.Core.Ids.{TaskId, LeaseId, Instant}
use axonel.Core.Lease.{Lease}
use axonel.Storage.Leases.{
  Tables, find_lease, delete_lease, update_expiry, delete_expired, insert_lease, grant,
  get_current_lease_generation,
}

-- Every lease of task `t` has a generation above `n`.
unfoldable pub all_above : TaskId → ℕ → List Lease → Bool
all_above t n [] = true
all_above t n (lease ∷ rest) =
    (not (lease.task_id == t) || ltb n lease.generation) && all_above t n rest

pub all_above-delete_lease :
    (t : TaskId) (n : ℕ) (id : LeaseId) (ls : List Lease)
    → all_above t n ls ≡ true
    → all_above t n (delete_lease id ls) ≡ true
unfolding all_above delete_lease
all_above-delete_lease t n id [] h = refl
all_above-delete_lease t n id (l ∷ ls) h = ground (arith, all_above-delete_lease t n id ls)

pub all_above-update_expiry :
    (t : TaskId) (n : ℕ) (e : Instant) (id : LeaseId) (ls : List Lease)
    → all_above t n ls ≡ true
    → all_above t n (update_expiry e id ls) ≡ true
unfolding all_above update_expiry
all_above-update_expiry t n e id [] h = refl
all_above-update_expiry t n e id (l ∷ ls) h = ground (arith, all_above-update_expiry t n e id ls)

pub all_above-delete_expired :
    (t : TaskId) (n : ℕ) (now : Instant) (ls : List Lease)
    → all_above t n ls ≡ true
    → all_above t n (delete_expired now ls) ≡ true
unfolding all_above delete_expired
all_above-delete_expired t n now [] h = refl
all_above-delete_expired t n now (l ∷ ls) h = ground (arith, all_above-delete_expired t n now ls)

all_above-append :
    (t : TaskId) (n : ℕ) (ls : List Lease) (l : Lease)
    → all_above t n (ls ++ l ∷ [])
      ≡ (all_above t n ls && (not (l.task_id == t) || ltb n l.generation))
unfolding all_above
all_above-append t n [] l = ground arith
all_above-append t n (k ∷ ls) l = ground (arith, all_above-append t n ls l)

all_above-none :
    (t : TaskId) (n : ℕ) (ls : List Lease) → find_lease t ls ≡ none → all_above t n ls ≡ true
unfolding all_above find_lease
all_above-none t n [] h = refl
all_above-none t n (l ∷ ls) h = ground (arith, all_above-none t n ls)

pub found_above :
    (t : TaskId) (n : ℕ) (ls : List Lease) (l : Lease)
    → all_above t n ls ≡ true
    → find_lease t ls ≡ some l
    → n < l.generation
unfolding all_above find_lease
found_above t n [] l h f = cc
found_above t n (k ∷ ls) l h f = ground (arith, found_above t n ls l)

find_lease-append :
    (t : TaskId) (ls : List Lease) (l : Lease)
    → find_lease t ls ≡ none
    → l.task_id ≡ t
    → find_lease t (ls ++ l ∷ []) ≡ some l
unfolding find_lease
find_lease-append t [] l h e = ground arith
find_lease-append t (k ∷ ls) l h e = ground (arith, find_lease-append t ls l)

-- What a granted lease is, against the tables before and after.
pub record Granted (lease : Lease) (before after : Tables) (granted : Lease) : Type 0 where
  pub renumbered :
      granted ≡ record lease { generation = get_current_lease_generation lease.task_id before + 1 }
  pub current : get_current_lease_generation lease.task_id after ≡ granted.generation
  pub others :
      (t : TaskId) → get_current_lease_generation t before ≤ get_current_lease_generation t after
  pub held : find_lease lease.task_id after.leases ≡ some granted
  pub kept :
      (t : TaskId) (n : ℕ)
      → all_above t n before.leases ≡ true
      → n ≤ get_current_lease_generation t before
      → all_above t n after.leases ≡ true
  pub fenced : (n : ℕ) → n < granted.generation → all_above lease.task_id n after.leases ≡ true

insert_lease_cases :
    (lease : Lease) (s : Tables)
    → (insert_lease lease s ≡ none)
      ⊎ ((find_lease lease.task_id s.leases ≡ none)
          × (insert_lease lease s ≡ some (record s { leases = s.leases ++ lease ∷ [] })))
unfolding insert_lease
insert_lease_cases lease s = ground arith

pub grant-Granted :
    (lease : Lease) (s t : Tables) (g : Lease) → grant lease s ≡ some (t, g) → Granted lease s t g
unfolding grant get_current_lease_generation
grant-Granted lease s t g h = elim (Option-cases (Map.get s.generations lease.task_id)) [
  | inl e ↦ absurd (ground arith)
  | inr (n, e) ↦
      let granted : Lease = record lease { generation = n + 1 } in
      let raised : Tables = record s {
        generations = Map.insert lease.task_id (n + 1) s.generations;
      } in
      elim (insert_lease_cases granted raised) [
        | inl f ↦ absurd (ground arith)
        | inr (free, i) ↦
            let same_lease : g ≡ granted = ground arith in
            let same : t ≡ record raised { leases = s.leases ++ granted ∷ [] } = ground arith in
            rw (same, same_lease)
              (record {
                renumbered = ground arith;
                current =
                    ground (arith, get-insert lease.task_id (n + 1) s.generations lease.task_id);
                others = λ u. ground (arith, get-insert lease.task_id (n + 1) s.generations u);
                held = find_lease-append lease.task_id s.leases granted free refl;
                kept = λ u m a le. ground (arith, all_above-append u m s.leases granted);
                fenced = λ m lt. ground (
                  arith,
                  all_above-append lease.task_id m s.leases granted,
                  all_above-none lease.task_id m s.leases free,
                );
              })
      ]
]
