-- ===== src/Core/State/Execution/Names.antt =====
-- The names of execution states: what `from_str` accepts, against `as_str`.
use text.Mathlib.TextEquality.{eq_iff}
use axonel.Prelude.{String, ◌≡◌, refl, ◌↔◌, ok}
use axonel.Prelude.Text.{trim, trim_quotes}
use axonel.Core.State.Names.{arm}
use axonel.Core.State.Execution.{
  ExecutionState, pending, running, completed, failed, timed_out, cancelled, as_str, parse,
  from_str,
}

abbrev NameOf : ExecutionState → String → Type 0
NameOf s t = t ≡ as_str s

parse-as_str : (s : ExecutionState) → parse (as_str s) ≡ ok s
unfolding parse as_str
parse-as_str pending = refl
parse-as_str _ = refl

parse_sound : (t : String) (s : ExecutionState) → parse t ≡ ok s → NameOf s t
unfolding parse as_str
parse_sound t s = arm NameOf t s _ pending (eq_iff t "pending").0 (
    arm NameOf t s _ running (eq_iff t "running").0 (
      arm NameOf t s _ completed (eq_iff t "completed").0 (
        arm NameOf t s _ failed (eq_iff t "failed").0 (
          arm NameOf t s _ timed_out (eq_iff t "timed_out").0
            (arm NameOf t s _ cancelled (eq_iff t "cancelled").0 (λ h. cc))))))

-- A text is read as an execution state exactly when it is that state's name, up to
-- white space around it and quotation marks within that.
pub execution_from_str_iff :
    (t : String) (s : ExecutionState) → (from_str t ≡ ok s) ↔ (trim_quotes (trim t) ≡ as_str s)
unfolding from_str
execution_from_str_iff t s = (parse_sound (trim_quotes (trim t)) s, λ e. rw e (parse-as_str s))
