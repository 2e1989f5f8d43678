-- ===== src/Core/State/Agent/Names.antt =====
-- The names of agent states: what `from_str` accepts, against `as_str`.
use text.Mathlib.TextEquality.{eq_iff}
use axonel.Prelude.{String, ◌≡◌, refl, ◌↔◌, ok}
use axonel.Prelude.Text.{trim, trim_quotes}
use axonel.Core.State.Names.{arm}
use axonel.Core.State.Agent.{
  AgentState, idle, busy, waiting_for_input, paused, terminated, failed, as_str, parse, from_str,
}

abbrev NameOf : AgentState → String → Type 0
NameOf s t = t ≡ as_str s

parse-as_str : (s : AgentState) → parse (as_str s) ≡ ok s
unfolding parse as_str
parse-as_str idle = refl
parse-as_str _ = refl

parse_sound : (t : String) (s : AgentState) → parse t ≡ ok s → NameOf s t
unfolding parse as_str
parse_sound t s = arm NameOf t s _ idle (eq_iff t "idle").0 (
    arm NameOf t s _ busy (eq_iff t "busy").0 (
      arm NameOf t s _ waiting_for_input (eq_iff t "waiting_for_input").0 (
        arm NameOf t s _ paused (eq_iff t "paused").0 (
          arm NameOf t s _ terminated (eq_iff t "terminated").0
            (arm NameOf t s _ failed (eq_iff t "failed").0 (λ h. cc))))))

-- A text is read as an agent state exactly when it is that state's name, up to
-- white space around it and quotation marks within that.
agent_from_str_iff :
    (t : String) (s : AgentState) → (from_str t ≡ ok s) ↔ (trim_quotes (trim t) ≡ as_str s)
unfolding from_str
agent_from_str_iff t s = (parse_sound (trim_quotes (trim t)) s, λ e. rw e (parse-as_str s))
