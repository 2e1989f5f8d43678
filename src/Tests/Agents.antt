-- ===== src/Tests/Agents.antt =====
-- The choice of an agent (crates/plexis-runtime/src/selector.rs) at concrete values: the task asks for
-- `rust`, which the agents 5 and 3 have.
use axonel.Prelude.{ℕ, String, ◌≡◌, refl, ◌⊎◌, none, some, List, [], ◌∷◌, Has}
use axonel.Prelude.Int.{pos}
use axonel.Core.State.Agent.{AgentState}
use axonel.Core.State.Task.{TaskState}
use axonel.Core.Agent.{Agent}
use axonel.Core.Task.{Task}
use axonel.Runtime.Selector.{Metadata, requirements, select_best_agent_with_matrix}
use axonel.Runtime.Selector.Candidates.{Candidate}
use axonel.Runtime.Selector.Best.{NoCandidates, NoneBetter, select_best_agent_is_best}

-- The metadata hold the capabilities alone.
abbrev capabilities_only : Metadata (List String)
capabilities_only = record {
  get = λ key caps. some caps;
  as_str = λ v. none;
  as_bool = λ v. none;
  as_u64 = λ v. none;
  as_strings = λ caps. some caps;
}

abbrev rust_task : Task (List String)
rust_task = record {
  id = 1;
  workflow_id = 0;
  workspace_id = none;
  objective = "a task";
  description = none;
  parent_id = none;
  state = TaskState.ready;
  priority = pos 0;
  criteria = [];
  assigned_agent_id = none;
  attempts = 0;
  max_attempts = 3;
  metadata = "rust" ∷ [];
  created_at = 7;
  updated_at = 7;
}

abbrev an_agent : ℕ → AgentState → List String → Agent (List String)
an_agent id state caps = record {
  id = id;
  display_name = "an agent";
  role = "developer";
  provider_profile = record { provider = "ollama"; model = "llama3"; parameters = [] };
  capabilities = caps;
  permissions = [];
  state = state;
  current_execution_id = none;
  configuration = [];
  created_at = 0;
  updated_at = 0;
}

abbrev crew : List (Agent (List String))
crew =
    an_agent 5 AgentState.idle ("Rust" ∷ [])
    ∷ an_agent 2 AgentState.busy ("rust" ∷ [])
    ∷ an_agent 3 AgentState.idle ("rust" ∷ [])
    ∷ an_agent 1 AgentState.idle ("rust" ∷ "git" ∷ [])
    ∷ []

-- The smallest identifier among the agents with just what is asked for.
chosen_agent :
    select_best_agent_with_matrix capabilities_only (λ s. s) [] rust_task crew
    ≡ some (an_agent 3 AgentState.idle ("rust" ∷ []))
unfolding select_best_agent_with_matrix
chosen_agent = refl

select_best_agent_is_best_example :
    let req = requirements capabilities_only (λ s. s) rust_task in
    let chosen = select_best_agent_with_matrix capabilities_only (λ s. s) [] rust_task crew in
    ((chosen ≡ none) × NoCandidates (λ s. s) req [] crew)
    ⊎ ((a : Agent (List String)) × (chosen ≡ some a)
        × Has a crew
        × Candidate req [] a
        × NoneBetter (λ s. s) req [] a crew)
select_best_agent_is_best_example =
    select_best_agent_is_best capabilities_only (λ s. s) [] rust_task crew
