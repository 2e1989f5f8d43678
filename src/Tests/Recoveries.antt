-- ===== src/Tests/Recoveries.antt =====
-- The recovery of a failed task (crates/plexis-runtime/src/recovery.rs) at concrete values.
use axonel.Prelude.{true, ◌≡◌, refl, none, [], ◌∷◌, leb, not, ◌&&◌, ◌||◌, List, ℕ}
use axonel.Core.Recovery as Recovery
use axonel.Core.Recovery.{RecoveryRecord}
use axonel.Runtime.Recovery.{Records, Failure, Texts, decide, diagnose_and_recover, mutate_strategy}
use axonel.Runtime.Recovery.Attempts.{
  is_escalation, ends_twice, mentions, passing_faults, security_words, decision, decide_escalates,
  third_failure_escalates,
}
use axonel.Runtime.Recovery.Versions.{raises, decide-raises_version}

abbrev plain : Texts (Unit {0})
plain = record {
  exceeded = λ task attempt max. "exceeded";
  repeated = λ times reason. "repeated";
  debug = λ action. "an action";
  exceeded_json = tt;
  loop_json = λ n. tt;
  failure_json = λ reason. tt;
}

abbrev a_failure : (attempt : ℕ) → Failure
a_failure attempt = record {
  task_id = 1;
  workflow_id = 0;
  execution_id = none;
  attempt = attempt;
  failure_reason = "Tool failed";
}

abbrev no_records : Records (Unit {0})
no_records = record { tasks = 1 ∷ []; workflows = 0 ∷ []; rows = [] }

abbrev past : List (RecoveryRecord (Unit {0}))
past = Recovery.new tt 4 3 1 0 0 "tool_adaptation" "Another" "an action" ∷ []

second_version :
    (decide plain 5 (a_failure 1) past).action
    ≡ mutate_strategy "tool_adaptation"
        "Inspect command error output, use diagnostic tools, and revise parameters" 2
unfolding decide Recovery.new
second_version = refl

decide_escalates_example : is_escalation (decide plain 5 (a_failure 1) past).action ≡ (
    leb 5 1
    || (ends_twice "Tool failed" past
        || (not (mentions "Tool failed" passing_faults) && mentions "Tool failed" security_words)))
decide_escalates_example = decide_escalates plain 5 (a_failure 1) past

third_failure_escalates_example :
    let s₁ = (diagnose_and_recover plain 5 20 3 (a_failure 0) no_records).0 in
    let s₂ = (diagnose_and_recover plain 5 21 4 (a_failure 1) s₁).0 in
    is_escalation (decision plain 5 (a_failure 2) s₂).action ≡ true
unfolding diagnose_and_recover
third_failure_escalates_example =
    third_failure_escalates plain 5 20 21 3 4 (a_failure 0) (a_failure 1) (a_failure 2) no_records
      refl refl refl refl refl refl

decide-raises_version_example : raises (decide plain 5 (a_failure 1) past) past ≡ true
unfolding Recovery.new
decide-raises_version_example = decide-raises_version plain 5 (a_failure 1) past refl
