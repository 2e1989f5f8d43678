-- ===== src/Runtime/Recovery/Attempts.antt =====
-- What the records of earlier failures make of the next decision of
-- crates/plexis-runtime/src/recovery.rs.
use text.Mathlib.Text.{◌==◌ as str_eq}
use text.Mathlib.TextEquality.{eq_iff}
use axonel.Prelude.{
  ℕ, ◌+◌, ◌≡◌, refl, sym, ap, ◌∙◌, String, Bool, true, false, not, ◌&&◌, ◌||◌, ◌==◌, List, [], ◌∷◌,
  ◌++◌, length, ok, err, leb, ltb, arith, Bool-cases, inl, inr, Result,
}
use axonel.Prelude.Text.{lower_contains}
use axonel.Prelude.Rows.{all_in}
use axonel.Core.Ids.{RecoveryId, TaskId, Instant}
use axonel.Core.Recovery.{RecoveryRecord}
use axonel.Runtime.Recovery.{
  RecoveryAction, replan_workflow, escalate_fatal, Records, Failure, Decision, Texts,
  save_recovery_record, after, insert_sorted, records_of, list_recovery_records_by_task, all_same,
  consecutive_identical, is_transient, is_security, mutate, classify, decide_by_text, exhausted,
  looping, decide, recorded, record_decision, carry_out, diagnose_and_recover,
}

abbrev pub is_escalation : RecoveryAction → Bool
is_escalation (replan_workflow reason) = true
is_escalation (escalate_fatal reason) = true
is_escalation _ = false

module _ {J : Type 0} where
  -- The records of the task do not come after `r` in the listing.
  abbrev pub none_after : TaskId → RecoveryRecord J → List (RecoveryRecord J) → Bool
  none_after id r rows = all_in (λ x. not (x.task_id == id) || not (after x r)) rows

  insert_sorted-snoc :
      (x r : RecoveryRecord J) (ys : List (RecoveryRecord J))
      → after x r ≡ false
      → insert_sorted x (ys ++ r ∷ []) ≡ insert_sorted x ys ++ r ∷ []
  unfolding insert_sorted
  insert_sorted-snoc x r [] h = ground arith
  insert_sorted-snoc x r (y ∷ ys) h = elim (Bool-cases (after x y)) [
    | inl e ↦ rw (e, insert_sorted-snoc x r ys h) refl
    | inr e ↦ rw e refl
  ]

  records_of-snoc :
      (id : TaskId) (r : RecoveryRecord J) (rows : List (RecoveryRecord J))
      → r.task_id ≡ id
      → none_after id r rows ≡ true
      → records_of id (rows ++ r ∷ []) ≡ records_of id rows ++ r ∷ []
  unfolding records_of
  records_of-snoc id r [] e h = ground (arith, e)
  records_of-snoc id r (x ∷ rows) e h = elim (Bool-cases (x.task_id == id)) [
    | inl here ↦
        rw (here, records_of-snoc id r rows e (ground arith))
          (insert_sorted-snoc x r (records_of id rows) (ground (arith, here)))
    | inr other ↦ rw other (records_of-snoc id r rows e (ground arith))
  ]

  all_same-snoc :
      (reason : String) (ys : List (RecoveryRecord J)) (r : RecoveryRecord J)
      → all_same reason (ys ++ r ∷ []) ≡ (all_same reason ys && str_eq r.failure_reason reason)
  all_same-snoc reason [] r = ground arith
  all_same-snoc reason (y ∷ ys) r = ground (arith, all_same-snoc reason ys r)

  consecutive-snoc :
      (reason : String) (ys : List (RecoveryRecord J)) (r : RecoveryRecord J)
      → str_eq r.failure_reason reason ≡ true
      → consecutive_identical reason (ys ++ r ∷ []) ≡ 1 + consecutive_identical reason ys
  unfolding consecutive_identical
  consecutive-snoc reason [] r e = ground arith
  consecutive-snoc reason (y ∷ ys) r e =
      ground (arith, consecutive-snoc reason ys r e, all_same-snoc reason ys r)

  -- The last two records have the reason.
  abbrev pub ends_twice : String → List (RecoveryRecord J) → Bool
  ends_twice reason [] = false
  ends_twice reason (x ∷ []) = false
  ends_twice reason (x ∷ y ∷ []) = str_eq x.failure_reason reason && str_eq y.failure_reason reason
  ends_twice reason (x ∷ y ∷ z ∷ rest) = ends_twice reason (y ∷ z ∷ rest)

  consecutive_all :
      (reason : String) (ys : List (RecoveryRecord J))
      → all_same reason ys ≡ true
      → consecutive_identical reason ys ≡ length ys
  unfolding consecutive_identical
  consecutive_all reason [] h = refl
  consecutive_all reason (y ∷ ys) h = ground (arith, consecutive_all reason ys)

  consecutive-ends_twice :
      (reason : String) (ys : List (RecoveryRecord J))
      → leb 2 (consecutive_identical reason ys) ≡ ends_twice reason ys
  unfolding consecutive_identical
  consecutive-ends_twice reason [] = refl
  consecutive-ends_twice reason (x ∷ []) = ground arith
  consecutive-ends_twice reason (x ∷ y ∷ []) = ground arith
  consecutive-ends_twice reason (x ∷ y ∷ z ∷ rest) =
      ground
        (arith, consecutive-ends_twice reason (y ∷ z ∷ rest), consecutive_all reason (y ∷ z ∷ rest))

abbrev pub passing_faults : List String
passing_faults = "rate limited" ∷ "connection reset" ∷ "gateway timeout" ∷ []

abbrev pub security_words : List String
security_words = "permission denied" ∷ "sandbox" ∷ []

-- One of the phrases stands in the text, in any case of letters.
abbrev pub mentions : String → List String → Bool
mentions text [] = false
mentions text (phrase ∷ phrases) = lower_contains text phrase || mentions text phrases

abbrev pub is_ok : {A E : Type 0} → Result E A → Bool
is_ok (ok a) = true
is_ok (err e) = false

-- A failure of the same task, for the same reason.
abbrev pub same_failure : Failure → Failure → Bool
same_failure f g = f.task_id == g.task_id && str_eq f.failure_reason g.failure_reason

carry_out_saves :
    {J : Type 0} (id : RecoveryId) (now : Instant) (f : Failure) (d : Decision J) (s : Records J)
    → is_ok (carry_out id now f d s).1 ≡ true
    → (carry_out id now f d s).0.rows ≡ s.rows ++ recorded id now f d ∷ []
unfolding carry_out record_decision save_recovery_record
carry_out_saves id now f d s h = ground arith

two_enough : (a b : Bool) (n m : ℕ) → n ≡ 1 + (1 + m) → (a || (leb 2 n || b)) ≡ true
two_enough a b n m e = ground arith

module _ {J : Type 0} (texts : Texts J) (max_attempts : ℕ) where
  decide_escalates_at :
      (f : Failure) (past : List (RecoveryRecord J))
      → is_escalation (decide texts max_attempts f past).action ≡ (
          leb max_attempts f.attempt
          || (leb 2 (consecutive_identical f.failure_reason past)
              || (not (is_transient f.failure_reason) && is_security f.failure_reason)))
  unfolding decide classify mutate decide_by_text exhausted looping
  decide_escalates_at f past = ground arith

  -- The controller gives the task up to a human or to the planner exactly when the attempts are used
  -- up, when the last two of the records that are listed have this very reason, or when the reason,
  -- in any case of letters, names no passing fault of the network and speaks of a denied permission
  -- or the sandbox.
  pub decide_escalates :
      (f : Failure) (past : List (RecoveryRecord J))
      → is_escalation (decide texts max_attempts f past).action ≡ (
          leb max_attempts f.attempt
          || (ends_twice f.failure_reason past
              || (not (mentions f.failure_reason passing_faults)
                  && mentions f.failure_reason security_words)))
  decide_escalates f past =
      ground (arith, decide_escalates_at f past, consecutive-ends_twice f.failure_reason past)

  abbrev pub decision : Failure → Records J → Decision J
  decision f s = decide texts max_attempts f (list_recovery_records_by_task f.task_id s)

  -- A call that goes through adds its record.
  diagnose_saves :
      (id : RecoveryId) (now : Instant) (f : Failure) (s : Records J)
      → is_ok (diagnose_and_recover texts max_attempts id now f s).1 ≡ true
      → (diagnose_and_recover texts max_attempts id now f s).0.rows
        ≡ s.rows ++ recorded id now f (decision f s) ∷ []
  unfolding diagnose_and_recover
  diagnose_saves id now f s h = carry_out_saves id now f (decision f s) s h

  -- The failure comes last in the listing of its task.
  abbrev pub is_latest : Instant → Failure → Records J → Bool
  is_latest now f s =
      all_in
        (λ x.
          not (x.task_id == f.task_id)
          || (not (ltb f.attempt x.attempt)
              && (not (x.attempt == f.attempt) || not (ltb now x.created_at))))
        s.rows

  is_latest-none_after :
      (id : RecoveryId) (now : Instant) (f : Failure) (d : Decision J)
      (rows : List (RecoveryRecord J))
      → all_in
          (λ x.
            not (x.task_id == f.task_id)
            || (not (ltb f.attempt x.attempt)
                && (not (x.attempt == f.attempt) || not (ltb now x.created_at))))
          rows
        ≡ true
      → none_after f.task_id (recorded id now f d) rows ≡ true
  unfolding recorded
  is_latest-none_after id now f d [] h = refl
  is_latest-none_after id now f d (x ∷ rows) h =
      ground (arith, is_latest-none_after id now f d rows)

  -- One more record with this reason.
  diagnose_counts :
      (id : RecoveryId) (now : Instant) (f : Failure) (s : Records J)
      → is_latest now f s ≡ true
      → is_ok (diagnose_and_recover texts max_attempts id now f s).1 ≡ true
      → let t = (diagnose_and_recover texts max_attempts id now f s).0 in
        consecutive_identical f.failure_reason (list_recovery_records_by_task f.task_id t)
        ≡ 1 + consecutive_identical f.failure_reason (list_recovery_records_by_task f.task_id s)
  unfolding list_recovery_records_by_task recorded
  diagnose_counts id now f s last went =
      let r = recorded id now f (decision f s) in
      ap (λ rows. consecutive_identical f.failure_reason (records_of f.task_id rows))
        (diagnose_saves id now f s went)
      ∙ ap (consecutive_identical f.failure_reason) (
          records_of-snoc f.task_id r s.rows refl
            (is_latest-none_after id now f (decision f s) s.rows last))
      ∙ consecutive-snoc f.failure_reason (records_of f.task_id s.rows) r
          ((eq_iff f.failure_reason f.failure_reason).1 refl)

  abbrev count : String → TaskId → Records J → ℕ
  count reason id s = consecutive_identical reason (list_recovery_records_by_task id s)

  -- Two failures of a task for one reason that are recorded, each as the latest of the task: whatever
  -- was recorded before, at a third failure for that reason the task is given up.
  pub third_failure_escalates :
      (id₁ id₂ : RecoveryId) (now₁ now₂ : Instant) (f₁ f₂ f₃ : Failure) (s : Records J)
      → same_failure f₁ f₂ ≡ true
      → same_failure f₂ f₃ ≡ true
      → is_latest now₁ f₁ s ≡ true
      → is_ok (diagnose_and_recover texts max_attempts id₁ now₁ f₁ s).1 ≡ true
      → let s₁ = (diagnose_and_recover texts max_attempts id₁ now₁ f₁ s).0 in
        is_latest now₂ f₂ s₁ ≡ true
        → is_ok (diagnose_and_recover texts max_attempts id₂ now₂ f₂ s₁).1 ≡ true
        → let s₂ = (diagnose_and_recover texts max_attempts id₂ now₂ f₂ s₁).0 in
          is_escalation (decision f₃ s₂).action ≡ true
  third_failure_escalates id₁ id₂ now₁ now₂ f₁ f₂ f₃ s e₁ e₂ l₁ g₁ l₂ g₂ =
      let s₁ = (diagnose_and_recover texts max_attempts id₁ now₁ f₁ s).0 in
      let s₂ = (diagnose_and_recover texts max_attempts id₂ now₂ f₂ s₁).0 in
      let first = diagnose_counts id₁ now₁ f₁ s l₁ g₁ in
      let second = diagnose_counts id₂ now₂ f₂ s₁ l₂ g₂ in
      let task₁₂ : f₁.task_id ≡ f₂.task_id = ground arith in
      let task₂₃ : f₂.task_id ≡ f₃.task_id = ground arith in
      let reason₁₂ = (eq_iff f₁.failure_reason f₂.failure_reason).0 (ground arith) in
      let reason₂₃ = (eq_iff f₂.failure_reason f₃.failure_reason).0 (ground arith) in
      decide_escalates_at f₃ (list_recovery_records_by_task f₃.task_id s₂)
      ∙ two_enough _ _ _ _ (
          sym (λ i. count (reason₂₃ i) (task₂₃ i) s₂)
          ∙ second
          ∙ ap (λ n. 1 + n) (sym (λ i. count (reason₁₂ i) (task₁₂ i) s₁) ∙ first))
