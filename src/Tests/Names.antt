-- ===== src/Tests/Names.antt =====
-- Names of states read from text (crates/plexis-core/src/state.rs).
use axonel.Prelude.{◌≡◌, ◌↔◌, ok}
use axonel.Prelude.Text.{trim, trim_quotes}
use axonel.Core.State.Mission as Mission
use axonel.Core.State.Mission.Names.{NameOf, mission_from_str_iff}

mission_from_str_iff_example :
    (Mission.from_str "ready_for_review" ≡ ok Mission.awaiting_acceptance)
    ↔ NameOf Mission.awaiting_acceptance (trim_quotes (trim "ready_for_review"))
mission_from_str_iff_example = mission_from_str_iff "ready_for_review" Mission.awaiting_acceptance
