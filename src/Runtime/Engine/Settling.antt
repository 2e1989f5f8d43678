-- ===== src/Runtime/Engine/Settling.antt =====
-- The loop that steps a mission (crates/plexis-server/src/routes.rs) ends, and how.
use axonel.Prelude.{
  ℕ, zero, suc, ◌+◌, ◌^◌, ◌<◌, ◌≡◌, refl, true, Option, none, some, is_some, ◌⊎◌, inl, inr, arith,
  Bool-cases, ◌∙◌, ap,
}
use axonel.Prelude.Sets
use axonel.Core.Ids.{MissionId}
use axonel.Core.Mission.{Mission}
use axonel.Runtime.Engine.Store.{Store, EngineError}
use axonel.Runtime.Engine.Cycle.{Env}
use axonel.Runtime.Engine.Step.{step_mission}
use axonel.Runtime.Engine.Rows.{row}
use axonel.Runtime.Engine.Frames.{Frame, Frame-refl, Frame-trans, is_driven}
use axonel.Runtime.Engine.Cases.{LeavesMissions}
use axonel.Runtime.Engine.Endings.{Continues}
use axonel.Runtime.Engine.Loop.{auto_step, pauses}
use axonel.Runtime.Engine.Rounds.{
  is_settled, Round, breaks, is_over, goes_on, step_mission-Round, still_driven, driven_not_pauses,
}

-- What the loop leaves of the mission `m`.
pub record Ended {J : Type 0} (id : MissionId) (m : Mission J) (s : Store J)
    (result : Option (Store J × Option EngineError)) : Type 0 where
  pub store : Store J
  pub failure : Option EngineError
  pub last : Mission J
  pub ended : result ≡ some (store, failure)
  pub stored : row id store ≡ some last
  pub frame : Frame m last
  pub settled :
      is_driven m.state ≡ true
      → Sets.contains s.running id ≡ true
      → is_some failure ≡ true ⊎ (is_settled last.state ≡ true)

module _ {J : Type 0} where
  -- Past its first round, the loop ends as it would from the store that the round leaves.
  Round-Ended :
      (fuel : ℕ) (envs : ℕ → Env J) (id : MissionId) (m : Mission J) (s : Store J)
      → row id s ≡ some m
      → Round id m s (step_mission (envs 0) id s)
      → ((n : Mission J)
          → Continues id m n s (step_mission (envs 0) id s)
          → n.budget_consumed.stagnant_cycles ≡ m.budget_consumed.stagnant_cycles + 1
          → let t = (step_mission (envs 0) id s).0 in
            Ended id n t (auto_step (suc fuel) (λ k. envs (suc k)) id t))
      → Ended id m s (auto_step (suc (suc fuel)) envs id s)
  unfolding auto_step
  Round-Ended fuel envs id m s h round later =
      let t = (step_mission (envs 0) id s).0 in
      elim (Bool-cases (Sets.contains s.running id)) [
        | inr stopped ↦ record {
          store = s;
          failure = none;
          last = m;
          ended = rw stopped refl;
          stored = h;
          frame = Frame-refl m;
          settled = λ d r. absurd (cc (stopped, r));
        }
        | inl runs ↦ elim round [
          | breaks e x k ↦ record {
            store = t;
            failure = some e;
            last = m;
            ended = rw (runs, x) refl;
            stored = k;
            frame = Frame-refl m;
            settled = λ d r. inl refl;
          }
          | is_over n x k f over settles ↦ record {
            store = t;
            failure = none;
            last = n;
            ended = elim over [
              | inl p ↦ rw (runs, x, p) refl
              | inr q ↦ elim (Bool-cases (pauses n.state)) [
                | inl p ↦ rw (runs, x, p) refl
                | inr p ↦ rw (runs, x, p, q) refl
              ]
            ];
            stored = k;
            frame = f;
            settled = λ d r. inr (settles d);
          }
          | goes_on n k more ↦ elim (Bool-cases (pauses n.state)) [
            | inl paused ↦ record {
              store = t;
              failure = none;
              last = n;
              ended = rw (runs, k.returned, paused) refl;
              stored = k.stored;
              frame = k.frame;
              settled = λ d r.
                  absurd
                    (cc (paused, driven_not_pauses n.state (still_driven m n k.stays_driven d)));
            }
            | inr on ↦
                let rest = later n k more in
                record {
                  store = rest.store;
                  failure = rest.failure;
                  last = rest.last;
                  ended = rw (runs, k.returned, on) rest.ended;
                  stored = rest.stored;
                  frame = Frame-trans k.frame rest.frame;
                  settled = λ d r.
                      rest.settled (still_driven m n k.stays_driven d)
                        (cc (ap (λ l. Sets.contains l id) k.still_running, r));
                }
          ]
        ]
      ]

  pub auto_step-Ended :
      (fuel : ℕ) (envs : ℕ → Env J) (id : MissionId) (m : Mission J) (s : Store J)
      → ((k : ℕ) → LeavesMissions id (envs k))
      → m.id ≡ id
      → row id s ≡ some m
      → m.budget.max_stagnant_cycles < 2 ^ 32
      → m.budget.max_stagnant_cycles < fuel + 1 + m.budget_consumed.stagnant_cycles
      → Ended id m s (auto_step (suc (suc fuel)) envs id s)
  auto_step-Ended zero envs id m s leaves i h w enough =
      Round-Ended zero envs id m s h (step_mission-Round (envs 0) id m s (leaves 0) i h w)
        (λ n k more. absurd (
          omega
            (arith, k.below, more, enough, ap (λ b. b.max_stagnant_cycles) k.frame.same_budget)))
  auto_step-Ended (suc fuel) envs id m s leaves i h w enough =
      Round-Ended (suc fuel) envs id m s h (step_mission-Round (envs 0) id m s (leaves 0) i h w)
        (λ n k more.
          let same = ap (λ b. b.max_stagnant_cycles) k.frame.same_budget in
          auto_step-Ended fuel (λ j. envs (suc j)) id n (step_mission (envs 0) id s).0
            (λ j. leaves (suc j)) (k.frame.same_id ∙ i) k.stored (omega (arith, same, w))
            (omega (arith, same, more, enough)))

  -- The loop on a stored mission ends, in whatever state the mission is: one round and the stagnant
  -- cycles that it has left are enough, and a round to see that it no longer runs, where the executor
  -- leaves missions alone, the mission is stored under its identifier and the limit fits 32 bits.
  pub auto_step-ends :
      (fuel : ℕ) (envs : ℕ → Env J) (id : MissionId) (m : Mission J) (s : Store J)
      → ((k : ℕ) → LeavesMissions id (envs k))
      → m.id ≡ id
      → row id s ≡ some m
      → m.budget.max_stagnant_cycles < 2 ^ 32
      → m.budget.max_stagnant_cycles < fuel + 1 + m.budget_consumed.stagnant_cycles
      → is_some (auto_step (suc (suc fuel)) envs id s) ≡ true
  auto_step-ends fuel envs id m s leaves i h w enough =
      rw (auto_step-Ended fuel envs id m s leaves i h w enough).ended refl

  -- Where it ends, a running mission that was planning, running or replanning awaits acceptance, has
  -- called a human or has used up its budget, unless a step failed; and neither its seconds nor its
  -- recovery attempts have been counted.
  pub auto_step_settles :
      (fuel : ℕ) (envs : ℕ → Env J) (id : MissionId) (m : Mission J) (s : Store J)
      → ((k : ℕ) → LeavesMissions id (envs k))
      → m.id ≡ id
      → row id s ≡ some m
      → m.budget.max_stagnant_cycles < 2 ^ 32
      → m.budget.max_stagnant_cycles < fuel + 1 + m.budget_consumed.stagnant_cycles
      → is_driven m.state ≡ true
      → Sets.contains s.running id ≡ true
      → (t : Store J) × (failure : Option EngineError) × (n : Mission J) × (auto_step
            (suc (suc fuel))
            envs
            id
            s
          ≡ some (t, failure))
        × (row id t ≡ some n)
        × (is_some failure ≡ true ⊎ (is_settled n.state ≡ true))
        × (n.budget_consumed.duration_secs ≡ m.budget_consumed.duration_secs)
        × (n.budget_consumed.recovery_attempts ≡ m.budget_consumed.recovery_attempts)
  auto_step_settles fuel envs id m s leaves i h w enough d r =
      let e = auto_step-Ended fuel envs id m s leaves i h w enough in
      (
        e.store,
        e.failure,
        e.last,
        e.ended,
        e.stored,
        e.settled d r,
        e.frame.same_duration,
        e.frame.same_recoveries,
      )
