-- ===== src/Storage/Leases.antt =====
-- The leases of `SqliteStore` (crates/plexis-storage/src/sqlite/store.rs, `impl LeaseStore` and the
-- two lease methods of `impl TaskStore`), on the columns that they read and write. The schema is
-- migrations/0001_initial_schema.sql: `leases.id` and `leases.task_id` are unique, and a lease
-- refers to a row of `tasks` and one of `agents`. A statement that breaks a constraint fails, and
-- a failed transaction changes nothing. Times are stored as RFC 3339 text in UTC, whose order is
-- that of the instants. `now` is what `Utc::now()` returns at the call. The counter of a task
-- is taken to be unbounded.
pub mod Fencing
pub mod Runs
pub mod Others
use axonel.Prelude.{
  ℕ, ◌+◌, Bool, true, false, not, ◌&&◌, ◌||◌, Option, none, some, List, [], ◌∷◌, ◌++◌, leb, ltb,
  ◌==◌, if◌then◌else◌, Result, ok, err,
}
use axonel.Prelude.Map
use axonel.Prelude.Map.{Map}
use axonel.Prelude.Sets.{contains}
use axonel.Core.Ids.{TaskId, AgentId, LeaseId, Instant}
use axonel.Core.Lease.{Lease}

pub data StorageError : Type 0 where
  sqlite : StorageError
  not_found : LeaseId → StorageError
  lease_conflict : TaskId → StorageError

pub record Tables : Type 0 where
  pub generations : Map ℕ  -- `tasks.current_lease_generation`, by `tasks.id`
  pub agents : List AgentId
  pub leases : List Lease

abbrev pub Outcome : Type 0 → Type 0
Outcome A = Tables × Result StorageError A

-- `SELECT … FROM leases WHERE task_id = ?1`
unfoldable pub find_lease : TaskId → List Lease → Option Lease
find_lease task_id [] = none
find_lease task_id (lease ∷ rest) =
    if lease.task_id == task_id then some lease else find_lease task_id rest

-- `SELECT … FROM leases WHERE id = ?1`, as a test
unfoldable pub has_lease : LeaseId → List Lease → Bool
has_lease lease_id [] = false
has_lease lease_id (lease ∷ rest) = lease.id == lease_id || has_lease lease_id rest

-- `DELETE FROM leases WHERE id = ?1`
unfoldable pub delete_lease : LeaseId → List Lease → List Lease
delete_lease lease_id [] = []
delete_lease lease_id (lease ∷ rest) =
    let others = delete_lease lease_id rest in
    if lease.id == lease_id then others else lease ∷ others

-- `UPDATE leases SET expires_at = ?1 WHERE id = ?2`
unfoldable pub update_expiry : Instant → LeaseId → List Lease → List Lease
update_expiry expires_at lease_id [] = []
update_expiry expires_at lease_id (lease ∷ rest) =
    let others = update_expiry expires_at lease_id rest in
    if lease.id == lease_id
    then (record lease { expires_at = expires_at }) ∷ others
    else lease ∷ others

-- `SELECT task_id FROM leases WHERE expires_at <= ?1`, and the deletion of those rows
unfoldable pub expired_tasks : Instant → List Lease → List TaskId
expired_tasks now [] = []
expired_tasks now (lease ∷ rest) =
    let others = expired_tasks now rest in
    if leb lease.expires_at now then lease.task_id ∷ others else others

unfoldable pub delete_expired : Instant → List Lease → List Lease
delete_expired now [] = []
delete_expired now (lease ∷ rest) =
    let others = delete_expired now rest in
    if leb lease.expires_at now then others else lease ∷ others

-- `INSERT INTO leases`, where the constraints allow it; none is an error of SQLite.
unfoldable pub insert_lease : Lease → Tables → Option Tables
unfolding has_lease find_lease
insert_lease lease s =
    if has_lease lease.id s.leases || not (contains s.agents lease.agent_id)
    then none
    else elim (find_lease lease.task_id s.leases) [
      | some _ ↦ none
      | none ↦ some (record s { leases = s.leases ++ lease ∷ [] })
    ]

-- The transaction of `acquire_lease` past its look at the existing lease.
unfoldable pub grant : Lease → Tables → Option (Tables × Lease)
unfolding insert_lease
grant lease s = elim (Map.get s.generations lease.task_id) [
  | none ↦ none
  | some generation ↦
      let granted = record lease { generation = generation + 1 } in
      elim (insert_lease granted
        (record s { generations = Map.insert lease.task_id (generation + 1) s.generations })) [
          | none ↦ none
          | some t ↦ some (t, granted)
        ]
]

-- A grant that fails rolls back to the tables of the start.
unfoldable pub commit : Tables → Option (Tables × Lease) → Outcome Lease
commit start none = (start, err sqlite)
commit start (some (t, granted)) = (t, ok granted)

unfoldable pub acquire_lease : Instant → Lease → Tables → Outcome Lease
unfolding find_lease delete_lease grant commit
acquire_lease now lease s = elim (find_lease lease.task_id s.leases) [
  | none ↦ commit s (grant lease s)
  | some old ↦
      if ltb now old.expires_at
      then (s, err (lease_conflict lease.task_id))
      else commit s (grant lease (record s { leases = delete_lease old.id s.leases }))
]

unfoldable pub get_lease_by_task : TaskId → Tables → Option Lease
unfolding find_lease
get_lease_by_task task_id s = find_lease task_id s.leases

unfoldable pub renew_lease : LeaseId → Instant → Tables → Outcome (Unit {0})
unfolding has_lease update_expiry
renew_lease lease_id new_expiry s =
    if has_lease lease_id s.leases
    then (record s { leases = update_expiry new_expiry lease_id s.leases }, ok tt)
    else (s, err (not_found lease_id))

unfoldable pub release_lease : LeaseId → Tables → Outcome (Unit {0})
unfolding delete_lease
release_lease lease_id s = (record s { leases = delete_lease lease_id s.leases }, ok tt)

unfoldable pub reclaim_expired_leases : Instant → Tables → Outcome (List TaskId)
unfolding delete_expired expired_tasks
reclaim_expired_leases now s =
    (record s { leases = delete_expired now s.leases }, ok (expired_tasks now s.leases))

-- `.optional()?.unwrap_or(0)`
unfoldable pub get_current_lease_generation : TaskId → Tables → ℕ
get_current_lease_generation task_id s = elim (Map.get s.generations task_id) [
  | none ↦ 0
  | some generation ↦ generation
]

unfoldable pub increment_lease_generation : TaskId → Tables → Outcome ℕ
increment_lease_generation task_id s = elim (Map.get s.generations task_id) [
  | none ↦ (s, err sqlite)
  | some generation ↦ (
    record s { generations = Map.insert task_id (generation + 1) s.generations },
    ok (generation + 1),
  )
]
