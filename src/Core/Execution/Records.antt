-- ===== src/Core/Execution/Records.antt =====
-- The stamps of an execution record agree with its state, and with the clock.
use axonel.Prelude.{
  ℕ, ◌≤◌, ◌≡◌, ◌⊎◌, true, Option, none, some, is_some, String, List, [], ◌∷◌, arith,
}
use axonel.Core.Ids.{ExecutionId, TaskId, AgentId, Instant}
use axonel.Core.State.Execution.{ExecutionState}
use axonel.Core.Execution.{
  Execution, new, mark_running, mark_completed, mark_failed, mark_timed_out, mark_cancelled,
}

-- The calls that the runtime makes on an execution.
pub data Mark : Type 0 where
  run complete time_out cancel : Mark
  fail : String → Mark

abbrev pub AtMost : Option Instant → Instant → Type 0
AtMost none t = Unit
AtMost (some s) t = s ≤ t

abbrev pub InOrder : Option Instant → Option Instant → Type 0
InOrder (some s) (some t) = s ≤ t
InOrder _ _ = Unit

-- What the state of a record promises of its fields, up to time `now`.
pub record IsConsistent {J : Type 0} (now : Instant) (e : Execution J) : Type 0 where
  pub started : e.state ≡ ExecutionState.running → is_some e.started_at ≡ true
  pub ended_started :
      (e.state ≡ ExecutionState.completed)
        ⊎ (e.state ≡ ExecutionState.failed)
        ⊎ (e.state ≡ ExecutionState.timed_out)
      → is_some e.started_at ≡ true
  pub not_started : e.state ≡ ExecutionState.pending → e.started_at ≡ none
  pub open_ended :
      (e.state ≡ ExecutionState.pending) ⊎ (e.state ≡ ExecutionState.running)
      → e.completed_at ≡ none
  pub ended :
      (e.completed_at ≡ none)
      → (e.state ≡ ExecutionState.pending) ⊎ (e.state ≡ ExecutionState.running)
  pub explained :
      (e.state ≡ ExecutionState.failed) ⊎ (e.state ≡ ExecutionState.timed_out)
      → is_some e.error_message ≡ true
  pub blameless :
      is_some e.error_message ≡ true
      → (e.state ≡ ExecutionState.failed) ⊎ (e.state ≡ ExecutionState.timed_out)
  pub ordered : InOrder e.started_at e.completed_at
  pub started_past : AtMost e.started_at now
  pub ended_past : AtMost e.completed_at now
  pub created_past : e.created_at ≤ e.updated_at
  pub updated_past : e.updated_at ≤ now

-- The clock does not go back from one call to the next.
abbrev pub IsRising : Instant → List (Instant × Mark) → Type 0
IsRising t [] = Unit
IsRising t ((now, m) ∷ rest) = (t ≤ now) × IsRising now rest

abbrev pub last_time : Instant → List (Instant × Mark) → Instant
last_time t [] = t
last_time t ((now, m) ∷ rest) = last_time now rest

module _ {J : Type 0} where
  pub mark : Instant → Mark → Execution J → Execution J
  mark now run e = (mark_running now e).0
  mark now complete e = (mark_completed now e).0
  mark now time_out e = (mark_timed_out now e).0
  mark now cancel e = (mark_cancelled now e).0
  mark now (fail reason) e = (mark_failed now reason e).0

  mark-IsConsistent :
      (then now : Instant) (m : Mark) (e : Execution J)
      → then ≤ now
      → IsConsistent then e
      → IsConsistent now (mark now m e)
  unfolding mark mark_running mark_completed mark_failed mark_timed_out mark_cancelled
  mark-IsConsistent then now run e le h = ground arith
  mark-IsConsistent then now _ e le h = ground arith

  -- A record's life: each call with the time at which it is made, the earliest first.
  pub marks : Execution J → List (Instant × Mark) → Execution J
  marks e [] = e
  marks e ((now, m) ∷ rest) = marks (mark now m e) rest

  marks_from :
      (t : Instant) (e : Execution J) (calls : List (Instant × Mark))
      → IsRising t calls
      → IsConsistent t e
      → IsConsistent (last_time t calls) (marks e calls)
  unfolding marks
  marks_from t e [] up h = h
  marks_from t e ((now, m) ∷ rest) up h =
      marks_from now (mark now m e) rest up.1 (mark-IsConsistent t now m e up.0 h)

  -- Whatever calls are made on a new execution, refused ones among them, and while the clock does
  -- not go back: it has a start time from when it first ran, an end time exactly when it is over, a
  -- message exactly when it failed or timed out, and its times are in order and not in the future.
  pub marks-IsConsistent :
      (empty : J) (id : ExecutionId) (t : Instant) (task : TaskId) (agent : AgentId) (attempt : ℕ)
      (calls : List (Instant × Mark))
      → IsRising t calls
      → IsConsistent (last_time t calls) (marks (new empty id t task agent attempt) calls)
  unfolding new
  marks-IsConsistent empty id t task agent attempt calls up =
      marks_from t (new empty id t task agent attempt) calls up (ground arith)
