-- ===== src/Runtime/Recovery/Versions.antt =====
-- The versions of the strategies that crates/plexis-runtime/src/recovery.rs changes.
use text.Mathlib.Text.{◌==◌ as str_eq}
use axonel.Prelude.{
  ℕ, ◌+◌, ◌%◌, ◌^◌, ◌≤◌, ◌≡◌, refl, String, Bool, true, false, not, ◌||◌, List, [], ◌∷◌, leb, ltb,
  arith, if◌then◌else◌,
}
use axonel.Prelude.Rows.{all_in}
use axonel.Core.Recovery.{RecoveryRecord}
use axonel.Runtime.Recovery.{
  RecoveryAction, mutate_strategy, Failure, Decision, Texts, consecutive_identical, max_version,
  is_transient, is_security, is_timeout, is_tool, mutate, classify, decide_by_text, exhausted,
  looping, decide,
}

abbrev pub is_mutation : RecoveryAction → Bool
is_mutation (mutate_strategy s a v) = true
is_mutation _ = false

if_either : {A : Type 0} (P : A → Type 0) (b : Bool) {x y : A} → P x → P y → P (if b then x else y)
if_either P true h k = h
if_either P false h k = k

-- If the decision is to mutate a strategy, its version is above that of every record with it.
abbrev pub raises : {J : Type 0} → Decision J → List (RecoveryRecord J) → Bool
raises d past =
    not (is_mutation d.action)
    || all_in (λ x. not (str_eq x.strategy d.strategy) || ltb x.strategy_version d.version) past

wraps_not : (n : ℕ) → ltb (n + 1) (2 ^ 32) ≡ true → (n + 1) % 2 ^ 32 ≡ n + 1
wraps_not n h = ground arith

module _ {J : Type 0} where
  -- The version of a mutation is above those of the records with its strategy.
  below_max :
      (strategy : String) (past : List (RecoveryRecord J)) (v : ℕ)
      → max_version strategy past ≤ v
      → all_in (λ x. not (str_eq x.strategy strategy) || ltb x.strategy_version (v + 1)) past ≡ true
  unfolding max_version
  below_max strategy [] v h = refl
  below_max strategy (x ∷ past) v h = ground (arith, below_max strategy past v)

  -- Versions that a further one fits above in 32 bits.
  abbrev pub all_fit : List (RecoveryRecord J) → Bool
  all_fit past = all_in (λ x. ltb (x.strategy_version + 1) (2 ^ 32)) past

  max_version_fits :
      (strategy : String) (past : List (RecoveryRecord J))
      → all_fit past ≡ true
      → ltb (max_version strategy past + 1) (2 ^ 32) ≡ true
  unfolding max_version
  max_version_fits strategy [] h = refl
  max_version_fits strategy (x ∷ past) h = ground (arith, max_version_fits strategy past)

module _ {J : Type 0} (texts : Texts J) (max_attempts : ℕ) where
  mutate-raises :
      (f : Failure) (strategy adjustment : String) (past : List (RecoveryRecord J))
      → all_fit past ≡ true
      → raises (decide_by_text texts f (mutate strategy adjustment past)) past ≡ true
  unfolding mutate decide_by_text
  mutate-raises f strategy adjustment past fits =
      rw (wraps_not (max_version strategy past) (max_version_fits strategy past fits))
        (below_max strategy past (max_version strategy past) (omega arith))

  -- Where versions fit 32 bits, a mutated strategy gets a version above that of every record with this
  -- strategy.
  pub decide-raises_version :
      (f : Failure) (past : List (RecoveryRecord J))
      → all_fit past ≡ true
      → raises (decide texts max_attempts f past) past ≡ true
  unfolding decide classify exhausted looping decide_by_text
  decide-raises_version f past fits =
      let P =
        λ (c : RecoveryAction × (String × ℕ)). raises (decide_by_text texts f c) past ≡ true in
      if_either (λ d. raises d past ≡ true) (leb max_attempts f.attempt) refl
        (if_either (λ d. raises d past ≡ true) (leb 2 (consecutive_identical f.failure_reason past))
          refl
          (if_either P (is_transient f.failure_reason) refl (
            if_either P (is_security f.failure_reason) refl (
              if_either P (is_timeout f.failure_reason)
                (mutate-raises f "timeout_adaptation"
                  "Double execution timeout and refine review instructions" past fits)
                (if_either P (is_tool f.failure_reason)
                  (mutate-raises f "tool_adaptation"
                    "Inspect command error output, use diagnostic tools, and revise parameters" past
                    fits)
                  (mutate-raises f "prompt_refinement"
                    "Deconstruct acceptance criteria step-by-step and verify state incrementally"
                    past fits))))))
