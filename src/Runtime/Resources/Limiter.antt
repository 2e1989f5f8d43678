-- ===== src/Runtime/Resources/Limiter.antt =====
-- How far callers of `ConcurrencyLimiter::try_acquire` (crates/plexis-runtime/src/resources.rs) can
-- pass its limit: the load and the addition are two atomic steps, with others between them.
use axonel.Prelude.{ℕ, zero, suc, ◌+◌, ◌≤◌, ◌<◌, ◌≡◌, arith}
use axonel.Runtime.Resources.{ConcurrencyLimiter, idle, Step, load_passes, fetch_add, drop_permit}

-- Any number of steps.
pub data Steps (m k : ℕ) (l : ConcurrencyLimiter) : ConcurrencyLimiter → Type 0 where
  none : Steps m k l l
  more : {x y : ConcurrencyLimiter} → Steps m k l x → Step m k x y → Steps m k l y

abbrev total : ConcurrencyLimiter → ℕ
total l = l.active_count + l.entering

total-Step : (m k : ℕ) (x y : ConcurrencyLimiter) → Step m k x y → total x < m + k → total y < m + k
total-Step m k x y (load_passes lt le) h = omega (arith, lt, le)
total-Step m k x y fetch_add h = omega (arith, h)
total-Step m k x y drop_permit h = omega (arith, h)

total-Steps : (m k : ℕ) (y : ConcurrencyLimiter) → 0 < m + k → Steps m k idle y → total y < m + k
total-Steps m k y pos none = pos
total-Steps m k y pos (more {x = x} s t) = total-Step m k x y t (total-Steps m k x pos s)

-- With at most `k` callers in `try_acquire` at once, `k` at least 1, fewer than `m + k` agents are
-- active, whatever the order of the steps: at most `m` where the calls are not interleaved.
pub overshoot_bounded :
    (m k : ℕ) (l : ConcurrencyLimiter) → 0 < k → Steps m k idle l → l.active_count < m + k
overshoot_bounded m k l pos s = omega (arith, total-Steps m k l (omega (arith, pos)) s)

at : ℕ → ℕ → ConcurrencyLimiter
at a e = record { active_count = a; entering = e }

alone : (m k a : ℕ) → 0 < k → a ≤ m → Steps m k idle (at a 0)
unfolding at
alone m k zero pos le = none
alone m k (suc a) pos le =
    more (more (alone m k a pos (omega (arith, le))) (load_passes (omega (arith, le)) pos))
      fetch_add

crowd : (m k a e : ℕ) → a < m → e ≤ k → Steps m k idle (at a 0) → Steps m k idle (at a e)
unfolding at
crowd m k a zero lt le s = s
crowd m k a (suc e) lt le s =
    more (crowd m k a e lt (omega (arith, le)) s) (load_passes lt (omega (arith, le)))

rush : (m k a e : ℕ) → Steps m k idle (at a e) → Steps m k idle (at (a + e) 0)
unfolding at
rush m k a zero s = let e : a + 0 ≡ a = omega arith in rw e s
rush m k a (suc e) s =
    let same : a + suc e ≡ suc a + e = omega arith in
    rw same (rush m k (suc a) e (more s fetch_add))

-- The bound is reached: with a limit `m` of at least 1 and `k` callers at once, at least 1, some
-- order of the steps leads to `m + k - 1` active agents, with nobody in `try_acquire`.
pub overshoot_reached :
    (m k : ℕ) → Steps (suc m) (suc k) idle (record { active_count = m + suc k; entering = 0 })
unfolding at
overshoot_reached m k = rush (suc m) (suc k) m (suc k) (
    crowd (suc m) (suc k) m (suc k) (omega arith) (omega arith)
      (alone (suc m) (suc k) m (omega arith) (omega arith)))
