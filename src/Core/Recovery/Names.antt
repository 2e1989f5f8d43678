-- ===== src/Core/Recovery/Names.antt =====
-- The names of recovery results: `from_str` of crates/plexis-core/src/recovery.rs reads `as_str`.
use axonel.Prelude.{◌≡◌, refl, ok}
use axonel.Core.Recovery.{RecoveryResult, in_progress, as_str, from_str}

pub from_str-as_str : (r : RecoveryResult) → from_str (as_str r) ≡ ok r
unfolding from_str as_str
from_str-as_str in_progress = refl
from_str-as_str _ = refl
