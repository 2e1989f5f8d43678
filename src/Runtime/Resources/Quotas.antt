-- ===== src/Runtime/Resources/Quotas.antt =====
-- What a `TaskResourceTracker` (crates/plexis-runtime/src/resources.rs) lets pass.
use axonel.Prelude.{
  ℕ, ◌+◌, ◌-◌, ◌≤◌, ◌<◌, ◌^◌, ◌≡◌, List, [], ◌∷◌, length, Result, ok, err, ltb, if◌then◌else◌,
  arith,
}
use axonel.Core.Ids.{Instant}
use axonel.Runtime.Resources.{TaskResourceTracker, LimitError, record_step, check_time_limit}

abbrev pub passed : Result LimitError (Unit {0}) → ℕ
passed (ok _) = 1
passed (err _) = 0

-- How many of the steps at these times pass.
unfoldable pub steps_passed : TaskResourceTracker → List Instant → ℕ
unfolding record_step
steps_passed t [] = 0
steps_passed t (now ∷ rest) =
    let (u, r) = record_step now t in let others = steps_passed u rest in passed r + others

one_step :
    (t : TaskResourceTracker) (now : Instant)
    → t.step_count + 1 < 2 ^ 32
    → let (u, r) = record_step now t in
      (u.step_count ≡ t.step_count + 1)
      × (u.config ≡ t.config)
      × (passed r ≤ (if ltb t.config.max_steps_per_task (t.step_count + 1) then 0 else 1))
unfolding record_step check_time_limit
one_step t now h = ground arith

-- However often a task asks for a step, and whatever the clock shows, no more steps pass than its
-- limit leaves, as long as the 32-bit counter does not wrap.
pub steps_passed_bounded :
    (t : TaskResourceTracker) (times : List Instant)
    → t.step_count + length times < 2 ^ 32
    → steps_passed t times ≤ t.config.max_steps_per_task - t.step_count
unfolding steps_passed
steps_passed_bounded t [] h = omega arith
steps_passed_bounded t (now ∷ rest) h =
    let rest_bounded = steps_passed_bounded (record_step now t).0 rest in
    ground (arith, one_step t now, rest_bounded)
