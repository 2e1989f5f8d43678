-- ===== src/Core/State/Mission/Names.antt =====
-- The names of mission states: what `from_str` accepts, against `as_str`.
use text.Mathlib.TextEquality.{eq_iff}
use axonel.Prelude.{String, ◌≡◌, ◌↔◌, ◌⊎◌, inl, inr, arith, ok}
use axonel.Prelude.Text.{trim, trim_quotes}
use axonel.Core.State.Names.{arm}
use axonel.Core.State.Mission.{
  MissionState, created, planning, running, waiting, replanning, needs_human, verifying,
  awaiting_acceptance, accepted, integrating, integrated, rejected, completed, failed, cancelled,
  budget_exhausted, as_str, parse, from_str,
}

-- A mission under review has three names, any other state the one of `as_str`.
abbrev pub NameOf : MissionState → String → Type 0
NameOf awaiting_acceptance t =
    (t ≡ "awaiting_acceptance") ⊎ (t ≡ "ready_for_review") ⊎ (t ≡ "verified")
NameOf s t = t ≡ as_str s

parse_complete : (t : String) (s : MissionState) → NameOf s t → parse t ≡ ok s
unfolding parse as_str
parse_complete t created e = rw e
parse_complete t planning e = rw e
parse_complete t running e = rw e
parse_complete t waiting e = rw e
parse_complete t replanning e = rw e
parse_complete t needs_human e = rw e
parse_complete t verifying e = rw e
parse_complete t awaiting_acceptance (inl e) = rw e
parse_complete t awaiting_acceptance (inr (inl e)) = rw e
parse_complete t awaiting_acceptance (inr (inr e)) = rw e
parse_complete t accepted e = rw e
parse_complete t integrating e = rw e
parse_complete t integrated e = rw e
parse_complete t rejected e = rw e
parse_complete t completed e = rw e
parse_complete t failed e = rw e
parse_complete t cancelled e = rw e
parse_complete t budget_exhausted e = rw e

parse_sound : (t : String) (s : MissionState) → parse t ≡ ok s → NameOf s t
unfolding parse as_str
parse_sound t s =
    arm NameOf t s _ created (λ y. (eq_iff t "created").0 y)
      (arm NameOf t s _ planning (λ y. (eq_iff t "planning").0 y)
        (arm NameOf t s _ running (λ y. (eq_iff t "running").0 y)
          (arm NameOf t s _ waiting (λ y. (eq_iff t "waiting").0 y)
            (arm NameOf t s _ replanning (λ y. (eq_iff t "replanning").0 y)
              (arm NameOf t s _ needs_human (λ y. (eq_iff t "needs_human").0 y)
                (arm NameOf t s _ verifying (λ y. (eq_iff t "verifying").0 y)
                  (arm NameOf t s _ awaiting_acceptance
                    (λ y. ground (
                      arith,
                      eq_iff t "awaiting_acceptance",
                      eq_iff t "ready_for_review",
                      eq_iff t "verified",
                    ))
                    (arm NameOf t s _ accepted (λ y. (eq_iff t "accepted").0 y)
                      (arm NameOf t s _ integrating (λ y. (eq_iff t "integrating").0 y)
                        (arm NameOf t s _ integrated (λ y. (eq_iff t "integrated").0 y)
                          (arm NameOf t s _ rejected (λ y. (eq_iff t "rejected").0 y)
                            (arm NameOf t s _ completed (λ y. (eq_iff t "completed").0 y)
                              (arm NameOf t s _ failed (λ y. (eq_iff t "failed").0 y)
                                (arm NameOf t s _ cancelled (λ y. (eq_iff t "cancelled").0 y)
                                  (arm NameOf t s _ budget_exhausted
                                    (λ y. (eq_iff t "budget_exhausted").0 y)
                                    (λ h. cc))))))))))))))))

-- A text is read as a mission state exactly when it is a name of that state, up to
-- white space around it and quotation marks within that.
pub mission_from_str_iff :
    (t : String) (s : MissionState) → (from_str t ≡ ok s) ↔ (NameOf s (trim_quotes (trim t)))
unfolding from_str
mission_from_str_iff t s =
    (parse_sound (trim_quotes (trim t)) s, parse_complete (trim_quotes (trim t)) s)
