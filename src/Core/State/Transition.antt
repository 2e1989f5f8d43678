-- ===== src/Core/State/Transition.antt =====
-- What the lifecycles of crates/plexis-core/src/state.rs share: the error of a refused transition.
use axonel.Prelude.{String}

pub record StateTransitionError : Type 0 where
  pub from : String
  pub to : String
  pub reason : String
