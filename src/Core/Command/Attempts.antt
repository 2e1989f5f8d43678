-- ===== src/Core/Command/Attempts.antt =====
-- Retrying a command that keeps failing.
use axonel.Prelude.{suc, ◌+◌, ◌<◌, ◌^◌, ◌≡◌, leb, ltb, if◌then◌else◌, arith, List, [], ◌∷◌, length}
use axonel.Core.Ids.{Instant}
use axonel.Core.State.Command.{CommandState, can_transition_to}
use axonel.Core.Command.{Command, mark_dispatched, mark_failed}

module _ {J : Type 0} where
  -- Rounds of a dispatch that fails, at the given times.
  pub fail_rounds : Command J → List Instant → Command J
  fail_rounds c [] = c
  fail_rounds c (now ∷ rest) = fail_rounds (mark_failed now (mark_dispatched now c)) rest

  one_round :
      (c : Command J) (now : Instant)
      → c.attempts + 1 < 2 ^ 32
      → let d = mark_failed now (mark_dispatched now c) in
        (d.attempts ≡ c.attempts + 1)
        × (d.max_attempts ≡ c.max_attempts)
        × (d.state ≡ (
            if leb c.max_attempts (c.attempts + 1)
            then CommandState.dead_lettered
            else CommandState.retrying))
  unfolding mark_failed mark_dispatched
  one_round c now h = ground arith

  -- A command that fails at every dispatch is retried until it has had `max_attempts` of them and
  -- is dead-lettered from then on: after n + 1 rounds (and while the 32-bit counter has room) it
  -- has n + 1 more attempts, and is dead-lettered exactly if these reach the limit.
  pub dead_letter_at_limit :
      (c : Command J) (now : Instant) (rest : List Instant)
      → c.attempts + suc (length rest) < 2 ^ 32
      → let d = fail_rounds c (now ∷ rest) in
        (d.attempts ≡ c.attempts + suc (length rest))
        × (d.state ≡ (
            if leb c.max_attempts (c.attempts + suc (length rest))
            then CommandState.dead_lettered
            else CommandState.retrying))
  unfolding fail_rounds
  dead_letter_at_limit c now [] h = ground (arith, one_round c now)
  dead_letter_at_limit c now (t ∷ rest) h = ground (
    arith,
    one_round c now,
    dead_letter_at_limit (mark_failed now (mark_dispatched now c)) t rest,
  )

  -- After a dispatch, the change of state that `mark_failed` makes is one that
  -- `CommandState::can_transition_to` allows exactly if attempts are left (while the 32-bit counter
  -- has room): from `dispatched` the table knows no way to `dead_lettered`.
  pub dead_letter_unlisted :
      (c : Command J) (now later : Instant)
      → c.attempts + 1 < 2 ^ 32
      → let d = mark_dispatched now c in
        can_transition_to d.state (mark_failed later d).state ≡ ltb (c.attempts + 1) c.max_attempts
  unfolding mark_failed mark_dispatched can_transition_to
  dead_letter_unlisted c now later h = ground arith
