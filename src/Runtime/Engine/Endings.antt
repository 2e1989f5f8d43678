-- ===== src/Runtime/Engine/Endings.antt =====
-- What the ends of a step of crates/plexis-runtime/src/mission/engine.rs leave in the store: the
-- mission halted, verified or handed to a human, or another step to come.
use text.Mathlib.TextEquality.{eq_iff}
use axonel.Prelude.{
  if◌then◌else◌, ◌+◌, ◌%◌, ◌^◌, ◌<◌, ◌≡◌, refl, true, false, not, ◌||◌, some, ok, err, and_then,
  inl, inr, arith, Option-cases, ◌∙◌, leb,
}
use axonel.Prelude.Sets
use axonel.Core.Ids.{MissionId}
use axonel.Core.Budget.{stagnant, degraded, Limit}
use axonel.Core.State.Mission.{budget_exhausted}
use axonel.Core.Mission.{Mission, Reason, halted_by}
use axonel.Runtime.Mission.{
  BudgetTracker, record_stagnant_cycle, ProgressSnapshot, has_progressed_from, evaluate,
  new_evaluator,
}
use axonel.Runtime.Engine.Store.{Store, Outcome, get_mission, update_mission, emit, unmark_running}
use axonel.Runtime.Engine.Control.{try_move, escalated, escalate_human}
use axonel.Runtime.Engine.Cycle.{Env, halt}
use axonel.Runtime.Engine.Review.{escalate_and_reload}
use axonel.Runtime.Engine.Step.{measure}
use axonel.Runtime.Engine.Rows.{row, get_mission-row, row-update_mission, unmarked}
use axonel.Runtime.Engine.Frames.{Frame, is_driven}

-- A mission that is out of the engine's hands: `n` is what is stored, and it is not running.
pub record Stopped {J : Type 0} (id : MissionId) (m n : Mission J) (o : Outcome J (Mission J))
    : Type 0 where
  pub returned : o.1 ≡ ok n
  pub stored : row id o.0 ≡ some n
  pub not_running : Sets.contains o.0.running id ≡ false
  pub frame : Frame m n

-- A mission with a step to come.
pub record Continues {J : Type 0} (id : MissionId) (m n : Mission J) (s : Store J)
    (o : Outcome J (Mission J)) : Type 0 where
  pub returned : o.1 ≡ ok n
  pub stored : row id o.0 ≡ some n
  pub frame : Frame m n
  pub counted : n.budget_consumed.stagnant_cycles ≡ (m.budget_consumed.stagnant_cycles + 1) % 2 ^ 32
  pub still_running : o.0.running ≡ s.running
  pub below : n.budget_consumed.stagnant_cycles < n.budget.max_stagnant_cycles
  pub stays_driven : (not (is_driven m.state) || is_driven n.state) ≡ true

no_progress : (now : ProgressSnapshot) → has_progressed_from now now ≡ false
unfolding has_progressed_from
no_progress now = elim (Option-cases now.latest_git_commit) [
  | inl e ↦ ground arith
  | inr (c, e) ↦ ground (arith, (eq_iff c c).1 refl)
]

module _ {J : Type 0} where
  reloads :
      {n : Mission J} (id : MissionId) (o : Outcome J (Mission J))
      → o.1 ≡ ok n
      → and_then o (λ s _. get_mission id s) ≡ get_mission id o.0
  reloads id (s, ok a) h = refl
  reloads id (s, err e) h = cc

  unfoldable pub halted : Limit → Mission J → Mission J
  unfolding try_move
  halted limit m = record (try_move budget_exhausted m) {
    final_outcome = some (record {
      success = false;
      summary = halted_by limit;
      verified_commit_sha = m.latest_verified_commit;
      cycles_count = m.cycle_index;
      completion_reason = halted_by limit;
    });
  }

  pub halt-Stopped :
      (id : MissionId) (limit : Limit) (m : Mission J) (s : Store J)
      → m.id ≡ id
      → row id s ≡ some m
      → Stopped id m (halted limit m) (halt id limit m s)
  unfolding halt emit halted try_move unmark_running
  halt-Stopped id limit m s i h =
      let n = halted limit m in
      record {
        returned = refl;
        stored = row-update_mission id n m s i h refl;
        not_running = unmarked id (update_mission n s);
        frame = record {
          same_id = refl;
          same_creation = refl;
          same_budget = refl;
          same_duration = refl;
          same_recoveries = refl;
          same_condition = refl;
        };
      }

  escalated-Frame :
      (env : Env J) (reason : Reason) (m : Mission J) → Frame m (escalated env.json reason m)
  unfolding escalated try_move
  escalated-Frame env reason m = record {
    same_id = refl;
    same_creation = refl;
    same_budget = refl;
    same_duration = refl;
    same_recoveries = refl;
    same_condition = refl;
  }

  pub escalate_human-Stopped :
      (env : Env J) (id : MissionId) (reason : Reason) (m : Mission J) (s : Store J)
      → m.id ≡ id
      → row id s ≡ some m
      → Stopped id m (escalated env.json reason m) (escalate_human env.json id reason s)
  unfolding escalate_human emit unmark_running
  escalate_human-Stopped env id reason m s i h =
      let n = escalated env.json reason m in
      let f = escalated-Frame env reason m in
      rw (get_mission-row id m s h) (record {
        returned = refl;
        stored = row-update_mission id n m s (f.same_id ∙ i) h f.same_creation;
        not_running = unmarked id (update_mission n s);
        frame = f;
      })

  pub Stopped-reload :
      {id : MissionId} {m n : Mission J} {o : Outcome J (Mission J)}
      → Stopped id m n o
      → Stopped id m n (get_mission id o.0)
  Stopped-reload {id = id} {n = n} {o = o} h =
      rw (get_mission-row id n o.0 h.stored) (record {
        returned = refl;
        stored = h.stored;
        not_running = h.not_running;
        frame = h.frame;
      })

  pub escalate_and_reload-Stopped :
      (env : Env J) (id : MissionId) (reason : Reason) (m : Mission J) (s : Store J)
      → m.id ≡ id
      → row id s ≡ some m
      → Stopped id m (escalated env.json reason m) (escalate_and_reload env id reason s)
  unfolding escalate_and_reload
  escalate_and_reload-Stopped env id reason m s i h =
      let h' = escalate_human-Stopped env id reason m s i h in
      rw (reloads id (escalate_human env.json id reason s) h'.returned) (Stopped-reload h')

  -- The mission that made no progress.
  unfoldable pub worn : Mission J → BudgetTracker → Mission J
  unfolding record_stagnant_cycle
  worn m t = record m {
    health_status =
        if leb m.budget.max_stagnant_cycles ((m.budget_consumed.stagnant_cycles + 1) % 2 ^ 32)
        then stagnant
        else degraded;
    budget_consumed = record m.budget_consumed {
      stagnant_cycles = (record_stagnant_cycle t).consumed.stagnant_cycles;
    };
  }

  -- The evaluator compares a snapshot with itself, so whatever the cycle brought is no progress.
  pub never_progresses :
      (now : ProgressSnapshot) (m : Mission J) (t : BudgetTracker)
      → measure now m t
        ≡ record { mission = worn m t; tracker = record_stagnant_cycle t; progressed = false }
  unfolding measure evaluate new_evaluator worn
  never_progresses now m t = rw (no_progress now) refl
