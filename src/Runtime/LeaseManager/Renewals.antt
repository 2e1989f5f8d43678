-- ===== src/Runtime/LeaseManager/Renewals.antt =====
-- `LeaseManager::renew` (crates/plexis-runtime/src/lease_manager.rs) does not look at the expiry.
use axonel.Prelude.{◌+◌, ◌≡◌, true, some, List, [], ◌∷◌, ltb, if◌then◌else◌, ok, err, arith}
use axonel.Core.Ids.{TaskId, Instant, Duration}
use axonel.Core.Lease as Lease
use axonel.Core.Lease.{Lease, expired, is_expired}
use axonel.Storage.Leases.{
  Tables, find_lease, has_lease, update_expiry, renew_lease, get_lease_by_task,
}
use axonel.Runtime.LeaseManager.{lease, renew, validate_token}

abbrev extended : Instant → Lease → Lease
extended e l = record l { expires_at = e }

find_lease-update_expiry :
    (t : TaskId) (e : Instant) (ls : List Lease) (l : Lease)
    → find_lease t ls ≡ some l
    → find_lease t (update_expiry e l.id ls) ≡ some (extended e l)
unfolding find_lease update_expiry
find_lease-update_expiry t e [] l h = cc
find_lease-update_expiry t e (k ∷ ls) l h = ground (arith, find_lease-update_expiry t e ls l)

has_lease_found :
    (t : TaskId) (ls : List Lease) (l : Lease) → find_lease t ls ≡ some l → has_lease l.id ls ≡ true
unfolding find_lease has_lease
has_lease_found t [] l h = cc
has_lease_found t (k ∷ ls) l h = ground (arith, has_lease_found t ls l)

-- Renewing the lease of a task succeeds at any time, after the lease has run out too, and the
-- lease's own token then passes again at the time of the call, unless the extension is empty.
pub renew_revives :
    (t : TaskId) (l : Lease) (extension : Duration) (now : Instant) (s : Tables)
    → get_lease_by_task t s ≡ some l
    → let (s', r) = renew l.id extension now s in
      (r ≡ ok tt)
      × (validate_token t l.generation now s' ≡ (
          if ltb 0 extension
          then ok (record l { expires_at = now + extension })
          else err (lease (expired (now + extension) now))))
unfolding get_lease_by_task renew renew_lease validate_token Lease.validate_token is_expired
renew_revives t l extension now s h = ground (
  arith,
  has_lease_found t s.leases l h,
  find_lease-update_expiry t (now + extension) s.leases l h,
)
