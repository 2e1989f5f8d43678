-- ===== src/Core/Agent.antt =====
-- crates/plexis-core/src/agent.rs: who executes tasks. `J` stands for `serde_json::Value`.
use axonel.Prelude.{String, Option, none, some, List, []}
use axonel.Core.Ids.{AgentId, ExecutionId, Instant}
use axonel.Core.State.Agent.{AgentState}

pub record ExecutionProfile (J : Type 0) : Type 0 where
  pub provider : String
  pub model : String
  pub parameters : J

pub record Agent (J : Type 0) : Type 0 where
  pub id : AgentId
  pub display_name : String
  pub role : String
  pub provider_profile : ExecutionProfile J
  pub capabilities : List String
  pub permissions : List String
  pub state : AgentState
  pub current_execution_id : Option ExecutionId
  pub configuration : J
  pub created_at : Instant
  pub updated_at : Instant

module _ {J : Type 0} where
  -- `empty` is the empty JSON object.
  unfoldable pub new_profile : J → String → String → ExecutionProfile J
  new_profile empty provider model = record {
    provider = provider;
    model = model;
    parameters = empty;
  }

  unfoldable pub new : J → AgentId → Instant → String → String → ExecutionProfile J → Agent J
  new empty id now display_name role provider_profile = record {
    id = id;
    display_name = display_name;
    role = role;
    provider_profile = provider_profile;
    capabilities = [];
    permissions = [];
    state = AgentState.idle;
    current_execution_id = none;
    configuration = empty;
    created_at = now;
    updated_at = now;
  }

  unfoldable pub with_capabilities : List String → Agent J → Agent J
  with_capabilities caps a = record a { capabilities = caps }

  unfoldable pub with_permissions : List String → Agent J → Agent J
  with_permissions perms a = record a { permissions = perms }

  unfoldable pub set_state : Instant → AgentState → Agent J → Agent J
  set_state now state a = record a { state = state; updated_at = now }

  unfoldable pub bind_execution : Instant → ExecutionId → Agent J → Agent J
  bind_execution now exec_id a = record a {
    current_execution_id = some exec_id;
    state = AgentState.busy;
    updated_at = now;
  }

  unfoldable pub clear_execution : Instant → Agent J → Agent J
  clear_execution now a = record a {
    current_execution_id = none;
    state = AgentState.idle;
    updated_at = now;
  }
