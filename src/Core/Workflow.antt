-- ===== src/Core/Workflow.antt =====
-- crates/plexis-core/src/workflow.rs: a workflow of tasks. `J` stands for `serde_json::Value`.
use axonel.Prelude.{String, Option, none, some}
use axonel.Core.Ids.{WorkflowId, WorkspaceId, Instant}
use axonel.Core.State.Workflow.{WorkflowState}

pub record Workflow (J : Type 0) : Type 0 where
  pub id : WorkflowId
  pub workspace_id : Option WorkspaceId
  pub title : String
  pub objective : String
  pub state : WorkflowState
  pub metadata : J
  pub created_at : Instant
  pub updated_at : Instant

module _ {J : Type 0} where
  -- `empty` is the empty JSON object, `id` the fresh UUID.
  unfoldable pub new : J → WorkflowId → Instant → String → String → Workflow J
  new empty id now title objective = record {
    id = id;
    workspace_id = none;
    title = title;
    objective = objective;
    state = WorkflowState.draft;
    metadata = empty;
    created_at = now;
    updated_at = now;
  }

  unfoldable pub with_workspace_id : WorkspaceId → Workflow J → Workflow J
  with_workspace_id workspace_id w = record w { workspace_id = some workspace_id }

  unfoldable pub set_state : Instant → WorkflowState → Workflow J → Workflow J
  set_state now state w = record w { state = state; updated_at = now }
