-- ===== src/Runtime/Engine/Verdicts.antt =====
-- How the review of a cycle in crates/plexis-runtime/src/mission/engine.rs ends: with the stopping
-- condition met, with a human called, or with a step to come.
use axonel.Prelude.{
  ℕ, ◌+◌, ◌%◌, ◌^◌, ◌<◌, ◌≤◌, ◌⊎◌, Bool, ◌≡◌, refl, true, false, ◌||◌, Option, none, some, inl, inr,
  arith, ap, sym, subst, Option-cases, Bool-cases, ◌∙◌, String, length,
}
use axonel.Core.Ids.{MissionId, WorkflowId}
use axonel.Core.Budget.{MissionBudgetConsumed}
use axonel.Core.Mission.{Mission, Reason, StoppingCondition, stagnation}
use axonel.Runtime.Engine.Stopping.{evaluate_stopping_condition}
use axonel.Runtime.Mission.{
  BudgetTracker, record_stagnant_cycle, ProgressSnapshot, check_exhaustion,
}
use axonel.Runtime.Engine.Store.{Store, Outcome, list_tasks_by_workflow}
use axonel.Runtime.Engine.Control.{escalated}
use axonel.Runtime.Engine.Cycle.{WorkflowExecutionSummary, Env, begin_cycle, tracker_of, failed_in}
use axonel.Runtime.Engine.Review.{accepted, or_else, evaluation_target, human_needed}
use axonel.Runtime.Engine.Step.{
  Assessment, stagnate, stalls, settle, assess, completed_count, any_failed_or_blocked, next_cycle,
  commit_at, satisfied, review,
}
use axonel.Runtime.Engine.Rows.{row, row-Unmoved}
use axonel.Runtime.Engine.Frames.{Frame, Frame-trans, is_driven, begin_cycle-is_driven}
use axonel.Runtime.Engine.Endings.{
  Stopped, Continues, escalate_and_reload-Stopped, worn, never_progresses,
}
use axonel.Runtime.Engine.Progress.{
  accept-Stopped, stagnate-Stopped, keep-stores, next_cycle-Carried,
}

-- What the review works on: of the stored mission `r`, the mission `m` with its budget counted.
pub record Working {J : Type 0} (r m : Mission J) (t : BudgetTracker) : Type 0 where
  pub frame : Frame r m
  pub same_stagnation : m.budget_consumed.stagnant_cycles ≡ r.budget_consumed.stagnant_cycles
  pub within : check_exhaustion (tracker_of r) ≡ none
  pub tracked : t.consumed ≡ m.budget_consumed
  pub state : m.state ≡ (begin_cycle r).state

-- The stopping condition has the verdict `b` at the path that is evaluated; without a path it is not met.
abbrev pub Verdict : {J : Type 0} → Env J → StoppingCondition → Bool → Option String → Type 0
Verdict env condition b none = b ≡ false
Verdict env condition b (some path) = (evaluate_stopping_condition env.world path condition).0 ≡ b

abbrev pub commit_of : {J : Type 0} → Env J → StoppingCondition → Option String → Option String
commit_of env condition none = none
commit_of env condition (some path) = (evaluate_stopping_condition env.world path condition).1

module _ {J : Type 0} where
  -- Where the tasks of the workflow are evaluated, with the commit of the candidate.
  abbrev pub target_of :
      Env J → Option String → WorkflowId → Store J → Option String × Option String
  target_of env path w u = evaluation_target env path (list_tasks_by_workflow w u)

  abbrev pub asks : Env J → WorkflowId → Store J → Option Reason
  asks env w u = human_needed env u (list_tasks_by_workflow w u)

  abbrev pub next_count : Mission J → ℕ
  next_count r = (r.budget_consumed.stagnant_cycles + 1) % 2 ^ 32

-- Why a human is called: a task or a provider asks for one, or this stagnant cycle is one too many.
pub data Calling {J : Type 0} (env : Env J) (w : WorkflowId) (r : Mission J) (u : Store J)
    (reason : Reason) : Type 0 where
  asked : asks env w u ≡ some reason → Calling env w r u reason
  worn_out :
      (error : Option String)
      → asks env w u ≡ none
      → r.budget.max_stagnant_cycles ≤ next_count r
      → reason ≡ stagnation (next_count r) error
      → Calling env w r u reason

-- The ends of the review of the mission `m`, which is stored as `r`, on the store `u` that the cycle of the
-- workflow `w` left.
pub data ReviewCase {J : Type 0} (env : Env J) (id : MissionId) (path : Option String)
    (w : WorkflowId) (r m : Mission J) (u : Store J) (o : Outcome J (Mission J)) : Type 0 where
  verifies :
      (commit : Option String)
      → Verdict env r.stopping_condition true (target_of env path w u).0
      → commit
        ≡ or_else
            (commit_of env r.stopping_condition (target_of env path w u).0)
            (target_of env path w u).1
      → Stopped id r (accepted commit m) o
      → ReviewCase env id path w r m u o
  calls :
      (reason : Reason)
      → Verdict env r.stopping_condition false (target_of env path w u).0
      → Calling env w r u reason
      → Stopped id r (escalated env.json reason r) o
      → ReviewCase env id path w r m u o
  continues :
      (n : Mission J)
      → Verdict env r.stopping_condition false (target_of env path w u).0
      → asks env w u ≡ none
      → Continues id r n u o
      → ReviewCase env id path w r m u o

abbrev with_stagnation : ℕ → MissionBudgetConsumed → MissionBudgetConsumed
with_stagnation n c = record c { stagnant_cycles = n }

module _ {J : Type 0} where
  not_stalled :
      (a : Assessment J)
      → a.progressed ≡ false
      → stalls a ≡ false
      → a.mission.budget_consumed.stagnant_cycles < a.mission.budget.max_stagnant_cycles
  unfolding stalls
  not_stalled a p h = ground arith

  stalled_out :
      (a : Assessment J)
      → stalls a ≡ true
      → a.mission.budget.max_stagnant_cycles ≤ a.mission.budget_consumed.stagnant_cycles
  unfolding stalls
  stalled_out a h = ground arith

  -- Each verdict, with what the model computes there.
  satisfied_cases :
      (env : Env J) (o : Option String) (m r : Mission J)
      → m.stopping_condition ≡ r.stopping_condition
      → (((satisfied env o m).0 ≡ true)
          × Verdict env r.stopping_condition true o
          × ((satisfied env o m).1 ≡ commit_of env r.stopping_condition o))
        ⊎ (((satisfied env o m).0 ≡ false) × Verdict env r.stopping_condition false o)
  satisfied_cases env none m r e = inr (refl, refl)
  satisfied_cases env (some path) m r e =
      let found = λ (c : StoppingCondition). evaluate_stopping_condition env.world path c in
      elim (Bool-cases (found r.stopping_condition).0) [
        | inl h ↦ inl (ap (λ c. (found c).0) e ∙ h, h, ap (λ c. (found c).1) e)
        | inr h ↦ inr (ap (λ c. (found c).0) e ∙ h, h)
      ]

  -- `settle`, on a mission that made no progress.
  settle-ReviewCase :
      (env : Env J) (id : MissionId) (w : WorkflowId) (path : Option String)
      (summary : Option WorkflowExecutionSummary) (commit : Option String) (a : Assessment J)
      (r m : Mission J) (s : Store J)
      → r.id ≡ id
      → row id s ≡ some r
      → let ts = list_tasks_by_workflow w s in
        Verdict env r.stopping_condition false (evaluation_target env path ts).0
        → human_needed env s ts ≡ none
        → a.progressed ≡ false
        → Frame r a.mission
        → a.mission.budget_consumed.stagnant_cycles
          ≡ (r.budget_consumed.stagnant_cycles + 1) % 2 ^ 32
        → a.tracker.consumed ≡ a.mission.budget_consumed
        → (is_driven r.state ≡ true → is_driven a.mission.state ≡ true)
        → ReviewCase env id path w r m s (settle env id w summary ts commit a s)
  unfolding settle
  settle-ReviewCase env id w path summary commit a r m s i h unmet unasked p f n e d =
      let ts = list_tasks_by_workflow w s in
      elim (Bool-cases (stalls a)) [
        | inl stalled ↦
            let count = (r.budget_consumed.stagnant_cycles + 1) % 2 ^ 32 in
            let (error, c) =
              stagnate-Stopped env id a.mission.budget_consumed.stagnant_cycles ts r s i h in
            let limit = ap (λ b. b.max_stagnant_cycles) f.same_budget in
            rw stalled (
              calls (stagnation count error) unmet
                (worn_out error unasked (omega (arith, limit, n, stalled_out a stalled)) refl)
                (subst
                  (λ k.
                    Stopped id r (escalated env.json (stagnation k error) r)
                      (stagnate env id a.mission.budget_consumed.stagnant_cycles ts s))
                  n c))
        | inr goes ↦
            let failed = any_failed_or_blocked ts || failed_in summary in
            let next = next_cycle env id w summary failed ts a.tracker a.mission s in
            let c = next_cycle-Carried env id w summary failed ts a.tracker a.mission s e in
            let g = Frame-trans f c.carried in
            let kept =
              keep-stores env id w summary failed ts commit r next.1 next.0 (g.same_id ∙ i)
                (row-Unmoved id c.unmoved h) g.same_creation in
            rw goes (
              continues next.1 unmet unasked (record {
                returned = refl;
                stored = kept.0;
                still_running = kept.1 ∙ c.unmoved.running;
                frame = g;
                counted = c.stagnation_kept ∙ n;
                below = rw (c.stagnation_kept, c.carried.same_budget) (not_stalled a p goes);
                stays_driven = ground (arith, d, c.driven);
              }))
      ]

  -- `assess`.
  assess-ReviewCase :
      (env : Env J) (id : MissionId) (w : WorkflowId) (path : Option String)
      (summary : Option WorkflowExecutionSummary) (target candidate : Option String)
      (t : BudgetTracker) (r m : Mission J) (s : Store J)
      → r.id ≡ id
      → row id s ≡ some r
      → let ts = list_tasks_by_workflow w s in
        Verdict env r.stopping_condition false (evaluation_target env path ts).0
        → human_needed env s ts ≡ none
        → Working r m t
        → ReviewCase env id path w r m s (assess env id w summary ts target candidate t m s)
  unfolding assess worn record_stagnant_cycle is_driven
  assess-ReviewCase env id w path summary target candidate t r m s i h unmet unasked k =
      let ts = list_tasks_by_workflow w s in
      let commit = or_else candidate (commit_at env target) in
      let snapshot : ProgressSnapshot = record {
        completed_tasks_count = completed_count ts;
        task_graph_node_count = length ts;
        latest_git_commit = commit;
        timestamp = env.now;
      } in
      let a : Assessment J = record {
        mission = worn m t;
        tracker = record_stagnant_cycle t;
        progressed = false;
      } in
      subst (λ b. ReviewCase env id path w r m s (settle env id w summary ts commit b s))
        (sym (never_progresses snapshot m t))
        (settle-ReviewCase env id w path summary commit a r m s i h unmet unasked refl
          (Frame-trans k.frame (record {
            same_id = refl;
            same_creation = refl;
            same_budget = refl;
            same_duration = refl;
            same_recoveries = refl;
            same_condition = refl;
          }))
          (ap (λ c. (c.stagnant_cycles + 1) % 2 ^ 32) k.tracked
            ∙ ap (λ c. (c + 1) % 2 ^ 32) k.same_stagnation)
          (ap (with_stagnation ((t.consumed.stagnant_cycles + 1) % 2 ^ 32)) k.tracked)
          (λ d. cc (k.state, ap is_driven (begin_cycle-is_driven r d))))

  pub review-ReviewCase :
      (env : Env J) (id : MissionId) (w : WorkflowId) (path : Option String)
      (summary : Option WorkflowExecutionSummary) (t : BudgetTracker) (r m : Mission J)
      (s : Store J)
      → r.id ≡ id
      → row id s ≡ some r
      → Working r m t
      → ReviewCase env id path w r m s (review env id w path summary t m s)
  unfolding review
  review-ReviewCase env id w path summary t r m s i h k =
      let ts = list_tasks_by_workflow w s in
      let target = evaluation_target env path ts in
      elim (satisfied_cases env target.0 m r k.frame.same_condition) [
        | inl (there, met, commit) ↦
            rw (there, commit)
              (verifies (or_else (commit_of env r.stopping_condition target.0) target.1) met refl (
                accept-Stopped env id w summary
                  (or_else (commit_of env r.stopping_condition target.0) target.1) r m s i h
                  k.frame))
        | inr (there, unmet) ↦ elim (Option-cases (human_needed env s ts)) [
          | inr (reason, e) ↦
              rw (there, e)
                (calls reason unmet (asked e) (escalate_and_reload-Stopped env id reason r s i h))
          | inl e ↦
              rw (there, e)
                (assess-ReviewCase env id w path summary path target.1 t r m s i h unmet e k)
        ]
      ]
