-- ===== src/Runtime/Engine/Commands.antt =====
-- What the commands on a mission of crates/plexis-runtime/src/mission/engine.rs leave, and how the loop
-- that steps it (crates/plexis-server/src/routes.rs) meets it then.
use axonel.Prelude.{
  ℕ, suc, ◌≡◌, refl, Bool, true, false, none, some, Option, ok, err, inl, inr, arith, Result,
  and_then, if◌then◌else◌, Bool-cases, ◌∙◌, ap, sym, String, Option-cases, Outcome-cases,
}
use axonel.Prelude.Sets
use axonel.Core.Ids.{MissionId, WorkspaceId, Instant}
use axonel.Core.Budget.{MissionBudget}
use axonel.Core.Mission.{StoppingCondition, Reason}
use axonel.Core.State.Mission.{MissionState, needs_human, is_terminal, transition_to}
use axonel.Core.Mission.{Mission}
use axonel.Runtime.Engine.Store.{Json, insert_mission, mission_created, Store, Outcome, EngineError}
use axonel.Runtime.Engine.Control.{is_state}
use axonel.Runtime.Engine.Cycle.{Env}
use axonel.Runtime.Engine.Rows.{row}
use axonel.Runtime.Engine.Loop.{auto_step}
use axonel.Core.State.Mission.{waiting, cancelled}
use axonel.Runtime.Engine.Store.{
  MissionEvent, mission_paused, mission_cancelled, conflict, not_found, get_mission, update_mission,
  emit, unmark_running,
}
use axonel.Runtime.Engine.Control.{
  move, started, start_mission, pause_mission, cancel_mission, resolve_escalation, create_mission,
  resume_mission, escalate_human,
}
use axonel.Runtime.Engine.Rows.{get_mission-row, row-update_mission, unmarked}

-- The commands on missions, with their arguments.
pub data MissionCommand : Type 0 where
  create :
      (id : MissionId) (now : Instant) (title objective : String)
      → Option WorkspaceId
      → Option MissionBudget
      → Option StoppingCondition
      → MissionCommand
  start resume pause cancel : MissionId → MissionCommand
  escalate : MissionId → Reason → MissionCommand
  resolve : (id : MissionId) (decision : String) → MissionCommand

-- The commands that take a mission from the loop, and the state they leave it in.
pub data Withdrawal : Type 0 where
  pausing cancelling : Withdrawal

abbrev pub state_after : Withdrawal → MissionState
state_after pausing = waiting
state_after cancelling = cancelled

module _ {J : Type 0} where
  abbrev pub run_command : Json J → MissionCommand → Store J → Outcome J (Mission J)
  run_command json (create id now title objective workspace_id budget condition) s =
      create_mission json id now title objective workspace_id budget condition s
  run_command json (start id) s = start_mission id s
  run_command json (resume id) s = resume_mission id s
  run_command json (pause id) s = pause_mission id s
  run_command json (cancel id) s = cancel_mission id s
  run_command json (escalate id reason) s = escalate_human json id reason s
  run_command json (resolve id decision) s = resolve_escalation id decision s

  abbrev pub withdraw : Withdrawal → MissionId → Store J → Outcome J (Mission J)
  withdraw pausing id s = pause_mission id s
  withdraw cancelling id s = cancel_mission id s

  -- A call that fails leaves the store `s`.
  record Intact (s : Store J) (o : Outcome J (Mission J)) : Type 0 where
    same : (e : EngineError) → o.1 ≡ err e → o.0 ≡ s

  missing :
      (id : MissionId) (s : Store J) → row id s ≡ none → get_mission id s ≡ (s, err (not_found id))
  unfolding get_mission
  missing id s h = ground arith

  Intact-get_mission :
      (id : MissionId) (s : Store J) (f : Store J → Mission J → Outcome J (Mission J))
      → ((m : Mission J) → Intact s (f s m))
      → Intact s (and_then (get_mission id s) f)
  Intact-get_mission id s f k = elim (Option-cases (row id s)) [
    | inl h ↦ rw (missing id s h) (record { same = λ e x. refl })
    | inr (m, h) ↦ rw (get_mission-row id m s h) (k m)
  ]

  Intact-move :
      (s : Store J) (r : Result EngineError (Mission J)) (f : Store J → Mission J → Store J)
      → Intact s (and_then (s, r) λ s₁ m. (f s₁ m, ok m))
  Intact-move s (ok m) f = record { same = λ e x. absurd (cc x) }
  Intact-move s (err e) f = record { same = λ e x. refl }

  Intact-if :
      (b : Bool) (s : Store J) {x y : Outcome J (Mission J)}
      → Intact s x
      → Intact s y
      → Intact s (if b then x else y)
  Intact-if true s h k = h
  Intact-if false s h k = k

  refused : (id : MissionId) (m : Mission J) (s : Store J) → Intact s (s, err (conflict id m.state))
  refused id m s = record { same = λ e x. refl }

  refused_insert :
      (m : Mission J) (s t : Store J) (e : EngineError) → insert_mission m s ≡ (t, err e) → t ≡ s
  unfolding insert_mission
  refused_insert m s t e h = ground arith

  Intact-create :
      (m : Mission J) (s : Store J) (f : Store J → Store J)
      → Intact s (and_then (insert_mission m s) λ s₁ _. (f s₁, ok m))
  Intact-create m s f = elim (Outcome-cases (insert_mission m s)) [
    | inl (t, u, h) ↦ rw h (record { same = λ e x. absurd (cc x) })
    | inr (t, e, h) ↦ rw h (record { same = λ _ x. refused_insert m s t e h })
  ]

  Intact-start : (id : MissionId) (s : Store J) → Intact s (start_mission id s)
  unfolding start_mission
  Intact-start id s =
      Intact-get_mission id s _
        λ m. Intact-if (is_terminal m.state) s (refused id m s) (Intact-move s (started m) _)

  Intact-run_command :
      (json : Json J) (c : MissionCommand) (s : Store J) → Intact s (run_command json c s)
  unfolding create_mission resume_mission pause_mission cancel_mission escalate_human
      resolve_escalation
  Intact-run_command json (create id now title objective workspace_id budget condition) s =
      Intact-create _ s (emit (mission_created id))
  Intact-run_command json (start id) s = Intact-start id s
  Intact-run_command json (resume id) s = Intact-start id s
  Intact-run_command json (pause id) s =
      Intact-get_mission id s _
        λ m. Intact-if (is_terminal m.state) s (refused id m s) (Intact-move s (move waiting m) _)
  Intact-run_command json (cancel id) s =
      Intact-get_mission id s _ λ m. Intact-move s (move cancelled m) _
  Intact-run_command json (escalate id reason) s =
      Intact-get_mission id s _ λ m. record { same = λ e x. absurd (cc x) }
  Intact-run_command json (resolve id decision) s = Intact-get_mission id s _ λ m.
      Intact-if (is_state m.state needs_human) s (record { same = λ e x. absurd (cc x) })
        (refused id m s)

  -- A command that fails changes nothing.
  pub failed_command_changes_nothing :
      (json : Json J) (c : MissionCommand) (s t : Store J) (e : EngineError)
      → run_command json c s ≡ (t, err e)
      → t ≡ s
  failed_command_changes_nothing json c s t e x =
      cc ((Intact-run_command json c s).same e (ap (λ o. o.1) x), ap (λ o. o.0) x)

  stopped_loop :
      (fuel : ℕ) (envs : ℕ → Env J) (id : MissionId) (s : Store J)
      → Sets.contains s.running id ≡ false
      → auto_step (suc fuel) envs id s ≡ some (s, none)
  unfolding auto_step
  stopped_loop fuel envs id s h = rw h refl

  moved :
      (next : MissionState) (m n : Mission J) → move next m ≡ ok n → record m { state = next } ≡ n
  unfolding move transition_to
  moved next m n h = ground arith

  pub succeeded :
      (s t : Store J) (r : Result EngineError (Mission J)) (f : Store J → Mission J → Store J)
      (n : Mission J)
      → (and_then (s, r) λ s₁ m. (f s₁ m, ok m)) ≡ (t, ok n)
      → (r ≡ ok n) × (f s n ≡ t)
  succeeded s t (ok m) f n h = (cc h, cc h)
  succeeded s t (err e) f n h = absurd (cc h)

  -- What the loop finds of a mission that left it for the state `next`.
  withdrawn :
      (next : MissionState) (event : MissionEvent) (fuel : ℕ) (envs : ℕ → Env J) (id : MissionId)
      (m n : Mission J) (s t : Store J)
      → m.id ≡ id
      → row id s ≡ some m
      → (and_then
          (s, move next m)
          λ s₂ m'. (emit event (unmark_running id (update_mission m' s₂)), ok m'))
        ≡ (t, ok n)
      → (row id t ≡ some n)
        × (n ≡ record m { state = next })
        × (auto_step (suc fuel) envs id t ≡ some (t, none))
  unfolding emit unmark_running
  withdrawn next event fuel envs id m n s t i h c =
      let (x, there) =
        succeeded s t (move next m) (λ s₂ m'. emit event (unmark_running id (update_mission m' s₂)))
          n c in
      let same = moved next m n x in
      (
        ap (λ u. row id u) (sym there)
            ∙ row-update_mission id n m s (ap (λ a. a.id) (sym same) ∙ i) h
                (ap (λ a. a.created_at) (sym same)),
        sym same,
        stopped_loop fuel envs id t
            (ap (λ u. Sets.contains u.running id) (sym there) ∙ unmarked id (update_mission n s)),
      )

  pause_terminal :
      (id : MissionId) (m : Mission J) (s : Store J)
      → row id s ≡ some m
      → is_terminal m.state ≡ true
      → pause_mission id s ≡ (s, err (conflict id m.state))
  unfolding pause_mission
  pause_terminal id m s h over = rw (get_mission-row id m s h, over) refl

  pause_going :
      (id : MissionId) (m : Mission J) (s : Store J)
      → row id s ≡ some m
      → is_terminal m.state ≡ false
      → pause_mission id s ≡ (
          and_then
            (s, move waiting m)
            λ s₂ m'. (emit (mission_paused id) (unmark_running id (update_mission m' s₂)), ok m'))
  unfolding pause_mission
  pause_going id m s h going = rw (get_mission-row id m s h, going) refl

  cancel_going :
      (id : MissionId) (m : Mission J) (s : Store J)
      → row id s ≡ some m
      → cancel_mission id s ≡ (
          and_then
            (s, move cancelled m)
            λ s₂ m'.
              (emit (mission_cancelled id) (unmark_running id (update_mission m' s₂)), ok m'))
  unfolding cancel_mission
  cancel_going id m s h = rw (get_mission-row id m s h) refl

  -- Of a mission that is paused or cancelled, and that stood in the store under its identifier, only the
  -- state changes: it is waiting after the one and cancelled after the other. So it stands in the store,
  -- and the loop stops before it steps it.
  pub paused_or_cancelled_is_not_stepped :
      (w : Withdrawal) (fuel : ℕ) (envs : ℕ → Env J) (id : MissionId) (m n : Mission J)
      (s t : Store J)
      → m.id ≡ id
      → row id s ≡ some m
      → withdraw w id s ≡ (t, ok n)
      → (row id t ≡ some n)
        × (n ≡ record m { state = state_after w })
        × (auto_step (suc fuel) envs id t ≡ some (t, none))
  paused_or_cancelled_is_not_stepped pausing fuel envs id m n s t i h x =
      elim (Bool-cases (is_terminal m.state)) [
        | inl over ↦ absurd (cc (pause_terminal id m s h over, x))
        | inr going ↦
            withdrawn waiting (mission_paused id) fuel envs id m n s t i h
              (sym (pause_going id m s h going) ∙ x)
      ]
  paused_or_cancelled_is_not_stepped cancelling fuel envs id m n s t i h x =
      withdrawn cancelled (mission_cancelled id) fuel envs id m n s t i h
        (sym (cancel_going id m s h) ∙ x)
