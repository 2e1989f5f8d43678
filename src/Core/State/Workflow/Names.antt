-- ===== src/Core/State/Workflow/Names.antt =====
-- The names of workflow states: what `from_str` accepts, against `as_str`.
use text.Mathlib.TextEquality.{eq_iff}
use axonel.Prelude.{String, ◌≡◌, refl, ◌↔◌, ok}
use axonel.Prelude.Text.{trim, trim_quotes}
use axonel.Core.State.Names.{arm}
use axonel.Core.State.Workflow.{
  WorkflowState, draft, active, paused, completed, failed, cancelled, as_str, parse, from_str,
}

abbrev NameOf : WorkflowState → String → Type 0
NameOf s t = t ≡ as_str s

parse-as_str : (s : WorkflowState) → parse (as_str s) ≡ ok s
unfolding parse as_str
parse-as_str draft = refl
parse-as_str _ = refl

parse_sound : (t : String) (s : WorkflowState) → parse t ≡ ok s → NameOf s t
unfolding parse as_str
parse_sound t s = arm NameOf t s _ draft (eq_iff t "draft").0 (
    arm NameOf t s _ active (eq_iff t "active").0 (
      arm NameOf t s _ paused (eq_iff t "paused").0 (
        arm NameOf t s _ completed (eq_iff t "completed").0 (
          arm NameOf t s _ failed (eq_iff t "failed").0
            (arm NameOf t s _ cancelled (eq_iff t "cancelled").0 (λ h. cc))))))

-- A text is read as a workflow state exactly when it is that state's name, up to
-- white space around it and quotation marks within that.
workflow_from_str_iff :
    (t : String) (s : WorkflowState) → (from_str t ≡ ok s) ↔ (trim_quotes (trim t) ≡ as_str s)
unfolding from_str
workflow_from_str_iff t s = (parse_sound (trim_quotes (trim t)) s, λ e. rw e (parse-as_str s))
