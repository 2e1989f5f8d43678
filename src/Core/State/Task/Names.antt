-- ===== src/Core/State/Task/Names.antt =====
-- The names of task states: what `from_str` accepts, against `as_str`.
use text.Mathlib.TextEquality.{eq_iff}
use axonel.Prelude.{String, ◌≡◌, refl, ◌↔◌, ok}
use axonel.Prelude.Text.{trim, trim_quotes}
use axonel.Core.State.Names.{arm}
use axonel.Core.State.Task.{
  TaskState, backlog, ready, assigned, running, awaiting_verification, verified, blocked,
  needs_human, paused, failed, retrying, quarantined, cancelled, discarded, as_str, parse, from_str,
}

abbrev NameOf : TaskState → String → Type 0
NameOf s t = t ≡ as_str s

parse-as_str : (s : TaskState) → parse (as_str s) ≡ ok s
unfolding parse as_str
parse-as_str backlog = refl
parse-as_str _ = refl

parse_sound : (t : String) (s : TaskState) → parse t ≡ ok s → NameOf s t
unfolding parse as_str
parse_sound t s = arm NameOf t s _ backlog (eq_iff t "backlog").0 (
    arm NameOf t s _ ready (eq_iff t "ready").0 (
      arm NameOf t s _ assigned (eq_iff t "assigned").0 (
        arm NameOf t s _ running (eq_iff t "running").0 (
          arm NameOf t s _ awaiting_verification (eq_iff t "awaiting_verification").0 (
            arm NameOf t s _ verified (eq_iff t "verified").0 (
              arm NameOf t s _ blocked (eq_iff t "blocked").0 (
                arm NameOf t s _ needs_human (eq_iff t "needs_human").0 (
                  arm NameOf t s _ paused (eq_iff t "paused").0 (
                    arm NameOf t s _ failed (eq_iff t "failed").0 (
                      arm NameOf t s _ retrying (eq_iff t "retrying").0 (
                        arm NameOf t s _ quarantined (eq_iff t "quarantined").0 (
                          arm NameOf t s _ cancelled (eq_iff t "cancelled").0 (
                            arm NameOf t s _ discarded (eq_iff t "discarded").0
                              (λ h. cc))))))))))))))

-- A text is read as a task state exactly when it is that state's name, up to
-- white space around it and quotation marks within that.
pub task_from_str_iff :
    (t : String) (s : TaskState) → (from_str t ≡ ok s) ↔ (trim_quotes (trim t) ≡ as_str s)
unfolding from_str
task_from_str_iff t s = (parse_sound (trim_quotes (trim t)) s, λ e. rw e (parse-as_str s))
