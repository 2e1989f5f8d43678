-- ===== src/Core/State/Command/Names.antt =====
-- The names of command states: what `from_str` accepts, against `as_str`.
use text.Mathlib.TextEquality.{eq_iff}
use axonel.Prelude.{String, ◌≡◌, refl, ◌↔◌, ok}
use axonel.Prelude.Text.{trim, trim_quotes}
use axonel.Core.State.Names.{arm}
use axonel.Core.State.Command.{
  CommandState, queued, dispatched, delivered, confirmed, failed, retrying, dead_lettered,
  cancelled, as_str, parse, from_str,
}

abbrev NameOf : CommandState → String → Type 0
NameOf s t = t ≡ as_str s

parse-as_str : (s : CommandState) → parse (as_str s) ≡ ok s
unfolding parse as_str
parse-as_str queued = refl
parse-as_str _ = refl

parse_sound : (t : String) (s : CommandState) → parse t ≡ ok s → NameOf s t
unfolding parse as_str
parse_sound t s = arm NameOf t s _ queued (eq_iff t "queued").0 (
    arm NameOf t s _ dispatched (eq_iff t "dispatched").0 (
      arm NameOf t s _ delivered (eq_iff t "delivered").0 (
        arm NameOf t s _ confirmed (eq_iff t "confirmed").0 (
          arm NameOf t s _ failed (eq_iff t "failed").0 (
            arm NameOf t s _ retrying (eq_iff t "retrying").0 (
              arm NameOf t s _ dead_lettered (eq_iff t "dead_lettered").0
                (arm NameOf t s _ cancelled (eq_iff t "cancelled").0 (λ h. cc))))))))

-- A text is read as a command state exactly when it is that state's name, up to
-- white space around it and quotation marks within that.
pub command_from_str_iff :
    (t : String) (s : CommandState) → (from_str t ≡ ok s) ↔ (trim_quotes (trim t) ≡ as_str s)
unfolding from_str
command_from_str_iff t s = (parse_sound (trim_quotes (trim t)) s, λ e. rw e (parse-as_str s))
