-- ===== src/Runtime/Mission/Stagnation.antt =====
-- When the evaluator of crates/plexis-runtime/src/mission/liveness.rs calls a mission stagnant.
use axonel.Prelude.{
  suc, ◌+◌, ◌<◌, ◌^◌, ◌≡◌, Bool, true, false, not, ◌&&◌, leb, if◌then◌else◌, List, [], ◌∷◌, length,
  arith,
}
use axonel.Core.Budget.{stagnant, degraded}
use axonel.Runtime.Mission.{ProgressSnapshot, LivenessEvaluator, has_progressed_from, evaluate}

-- None of the snapshots shows progress over `last`.
abbrev pub none_progress : ProgressSnapshot → List ProgressSnapshot → Bool
none_progress last [] = true
none_progress last (x ∷ xs) = not (has_progressed_from x last) && none_progress last xs

pub evaluate_all : LivenessEvaluator → List ProgressSnapshot → LivenessEvaluator
evaluate_all v [] = v
evaluate_all v (x ∷ xs) = evaluate_all (evaluate x v).0 xs

one_evaluation :
    (x : ProgressSnapshot) (v : LivenessEvaluator)
    → has_progressed_from x v.last_progress ≡ false
    → v.consecutive_stagnant_cycles + 1 < 2 ^ 32
    → let (u, (h, b)) = evaluate x v in
      (u.consecutive_stagnant_cycles ≡ v.consecutive_stagnant_cycles + 1)
      × (u.last_progress ≡ v.last_progress)
      × (u.max_stagnant_cycles ≡ v.max_stagnant_cycles)
      × (h ≡ (
          if leb v.max_stagnant_cycles (v.consecutive_stagnant_cycles + 1)
          then stagnant
          else degraded))
unfolding evaluate
one_evaluation x v p w = ground arith

last_evaluation :
    (x : ProgressSnapshot) (v : LivenessEvaluator)
    → has_progressed_from x v.last_progress ≡ false
    → v.consecutive_stagnant_cycles + 1 < 2 ^ 32
    → (evaluate x v).1 ≡ (
      if leb v.max_stagnant_cycles (v.consecutive_stagnant_cycles + 1) then stagnant else degraded,
      false,
    )
unfolding evaluate
last_evaluation x v p w = ground arith

-- After snapshots without progress, one more of that kind finds the mission stagnant exactly if all
-- of them together reach the limit, and degraded below it, whatever count the evaluator started
-- from and as long as its 32-bit counter does not wrap.
pub stagnant_at_limit :
    (v : LivenessEvaluator) (xs : List ProgressSnapshot) (x : ProgressSnapshot)
    → none_progress v.last_progress xs ≡ true
    → has_progressed_from x v.last_progress ≡ false
    → v.consecutive_stagnant_cycles + suc (length xs) < 2 ^ 32
    → (evaluate x (evaluate_all v xs)).1 ≡ (
      if leb v.max_stagnant_cycles (v.consecutive_stagnant_cycles + suc (length xs))
          then stagnant
          else degraded,
      false,
    )
unfolding evaluate_all
stagnant_at_limit v [] x n p w = last_evaluation x v p (omega (arith, w))
stagnant_at_limit v (y ∷ ys) x n p w =
    let (counted, kept, limit, _) = one_evaluation y v (ground arith) (omega (arith, w)) in
    let u = (evaluate y v).0 in
    let rest =
      stagnant_at_limit u ys x (rw kept (ground arith)) (rw kept p) (omega (arith, counted, w)) in
    ground (arith, rest, counted, limit)
