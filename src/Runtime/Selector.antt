-- ===== src/Runtime/Selector.antt =====
-- crates/plexis-runtime/src/selector.rs: which agent gets a task. What `str::to_lowercase` makes of a
-- text is a parameter, as is the matrix of capabilities (crates/plexis-providers/src/capabilities.rs).
-- Scores are small sums, which no list of capabilities takes out of 32 bits.
pub mod Candidates
pub mod Best
use axonel.Prelude.{
  ℕ, ◌+◌, String, Bool, true, false, not, ◌&&◌, ◌||◌, Option, none, some, is_some, List, [], ◌∷◌,
  length, leb, ltb, ◌==◌, ite, if◌then◌else◌,
}
use axonel.Prelude.Text.{contains_text, lower_equals, eq_ignore_ascii_case}
use axonel.Core.State.Agent.{AgentState, AgentState-discrete}
use axonel.Core.Agent.{Agent}
use axonel.Core.Task.{Task}

-- `ReasoningTier`, by its number.
pub record ProviderCapabilities : Type 0 where
  pub provider : String
  pub model : String
  pub supports_tools : Bool
  pub context_window_tokens : ℕ
  pub supports_vision : Bool
  pub reasoning_tier : ℕ

-- What the metadata of a task asks for, with the defaults for what is missing.
pub record Requirements : Type 0 where
  pub required_caps : List String
  pub suggested_role : Option String  -- in lower case
  pub min_reasoning : ℕ
  pub requires_tools : Bool
  pub requires_vision : Bool
  pub required_context : ℕ

-- The reads of `serde_json::Value` that the selector makes.
pub record Metadata (J : Type 0) : Type 0 where
  pub get : String → J → Option J
  pub as_str : J → Option String
  pub as_bool : J → Option Bool
  pub as_u64 : J → Option ℕ
  pub as_strings : J → Option (List String)

abbrev pub and_then_read : {A B : Type 0} → Option A → (A → Option B) → Option B
and_then_read none f = none
and_then_read (some a) f = f a

abbrev pub unwrap_or : {A : Type 0} → A → Option A → A
unwrap_or d none = d
unwrap_or d (some a) = a

-- The names of `ReasoningTier`, in any case.
unfoldable pub parse_tier : String → Option ℕ
unfolding lower_equals
parse_tier s =
    if lower_equals s "none"
    then some 0
    else if lower_equals s "low"
    then some 1
    else if lower_equals s "medium"
    then some 2
    else if lower_equals s "high"
    then some 3
    else none

module _ {J : Type 0} (json : Metadata J) where
  -- `Task::required_capabilities` of crates/plexis-core/src/task.rs
  unfoldable pub required_capabilities : Task J → List String
  required_capabilities t =
      unwrap_or [] (and_then_read (json.get "required_capabilities" t.metadata) json.as_strings)

  unfoldable pub requirements : (String → String) → Task J → Requirements
  unfolding required_capabilities parse_tier
  requirements to_lowercase t =
      let read = λ (key : String). json.get key t.metadata in
      record {
        required_caps = required_capabilities t;
        suggested_role =
            and_then_read (and_then_read (read "suggested_role") json.as_str)
              (λ s. some (to_lowercase s));
        min_reasoning =
            unwrap_or 0
              (and_then_read (and_then_read (read "min_reasoning_tier") json.as_str) parse_tier);
        requires_tools = unwrap_or false (and_then_read (read "requires_tools") json.as_bool);
        requires_vision = unwrap_or false (and_then_read (read "requires_vision") json.as_bool);
        required_context = unwrap_or 0 (and_then_read (read "required_context_tokens") json.as_u64);
      }

abbrev pub has_capability : List String → String → Bool
has_capability [] req = false
has_capability (c ∷ cs) req = eq_ignore_ascii_case c req || has_capability cs req

abbrev pub has_all : List String → List String → Bool
has_all caps [] = true
has_all caps (r ∷ rs) = has_capability caps r && has_all caps rs

unfoldable pub find_exact :
    String → String → List ProviderCapabilities → Option ProviderCapabilities
unfolding eq_ignore_ascii_case
find_exact p m [] = none
find_exact p m (c ∷ cs) =
    if eq_ignore_ascii_case c.provider p && eq_ignore_ascii_case c.model m
    then some c
    else find_exact p m cs

unfoldable pub find_provider : String → List ProviderCapabilities → Option ProviderCapabilities
unfolding eq_ignore_ascii_case
find_provider p [] = none
find_provider p (c ∷ cs) = if eq_ignore_ascii_case c.provider p then some c else find_provider p cs

abbrev pub found_or :
    Option ProviderCapabilities → Option ProviderCapabilities → Option ProviderCapabilities
found_or none b = b
found_or (some a) b = some a

-- A provider that the matrix does not know is not held against the agent.
abbrev pub suits : Requirements → Option ProviderCapabilities → Bool
suits req none = true
suits req (some caps) =
    not (ltb caps.reasoning_tier req.min_reasoning)
    && (not (req.requires_tools && not caps.supports_tools)
        && (not (req.requires_vision && not caps.supports_vision)
            && not (
                ltb 0 req.required_context && ltb caps.context_window_tokens req.required_context)))

abbrev pub any_in : (String → Bool) → List String → Bool
any_in p [] = false
any_in p (x ∷ xs) = p x || any_in p xs

-- The table of `matches_domain`: words of a capability, and of the role.
abbrev pub domains : List (List String × String)
domains =
    ("plan" ∷ "architect" ∷ [], "plan")
    ∷ ("research" ∷ "search" ∷ "read" ∷ [], "research")
    ∷ ("write" ∷ "code" ∷ "develop" ∷ [], "develop")
    ∷ ("test" ∷ "runner" ∷ "qa" ∷ [], "test")
    ∷ ("review" ∷ "diagnostic" ∷ [], "review")
    ∷ ("integrat" ∷ "git" ∷ [], "integrat")
    ∷ ("verif" ∷ "proof" ∷ [], "verif")
    ∷ []

abbrev pub matches_domain : (cap role : String) → List (List String × String) → Bool
matches_domain cap role [] = false
matches_domain cap role ((words, domain) ∷ rest) =
    (any_in (contains_text cap) words && contains_text role domain) || matches_domain cap role rest

abbrev pub role_score : (role : String) → Option String → ℕ
role_score role none = 0
role_score role (some wanted) =
    if contains_text role wanted || contains_text wanted role then 50 else 0

module _ (to_lowercase : String → String) where
  unfoldable pub domain_score : (role : String) → List String → ℕ
  unfolding contains_text
  domain_score role [] = 0
  domain_score role (c ∷ cs) =
      let rest = domain_score role cs in
      if matches_domain (to_lowercase c) role domains then 30 + rest else rest

abbrev pub first : {A : Type 0} → List A → Option A
first [] = none
first (a ∷ rest) = some a

module _ {J : Type 0} (req : Requirements) where
  unfoldable pub is_eligible : List ProviderCapabilities → Agent J → Bool
  unfolding find_exact find_provider AgentState-discrete eq_ignore_ascii_case
  is_eligible matrix a =
      ite (AgentState-discrete a.state AgentState.idle) true false
      && (not (is_some a.current_execution_id)
          && (has_all a.capabilities req.required_caps
              && (if ltb 0 req.min_reasoning
                    || (req.requires_tools || (req.requires_vision || ltb 0 req.required_context))
                  then suits req (
                      found_or
                        (find_exact a.provider_profile.provider a.provider_profile.model matrix)
                        (find_provider a.provider_profile.provider matrix))
                  else true)))

  unfoldable pub eligible : List ProviderCapabilities → List (Agent J) → List (Agent J)
  unfolding is_eligible
  eligible matrix [] = []
  eligible matrix (a ∷ rest) =
      let others = eligible matrix rest in if is_eligible matrix a then a ∷ others else others

module _ {J : Type 0} (to_lowercase : String → String) (req : Requirements) where
  unfoldable pub score_agent : Agent J → ℕ
  unfolding domain_score contains_text
  score_agent a =
      role_score (to_lowercase a.role) req.suggested_role
      + domain_score to_lowercase (to_lowercase a.role) req.required_caps
      + (if length a.capabilities == length req.required_caps then 10 else 0)

  -- The comparison of `sort_by`: a higher score, or the smaller identifier.
  unfoldable pub before : Agent J → Agent J → Bool
  unfolding score_agent
  before a b =
      ltb (score_agent b) (score_agent a) || (score_agent a == score_agent b && ltb a.id b.id)

  unfoldable pub insert_sorted : Agent J → List (Agent J) → List (Agent J)
  unfolding before
  insert_sorted a [] = a ∷ []
  insert_sorted a (b ∷ rest) =
      let later = insert_sorted a rest in if before b a then b ∷ later else a ∷ b ∷ rest

  unfoldable pub sort_agents : List (Agent J) → List (Agent J)
  unfolding insert_sorted
  sort_agents [] = []
  sort_agents (a ∷ rest) = insert_sorted a (sort_agents rest)

  -- From the filter on.
  unfoldable pub select_eligible : List ProviderCapabilities → List (Agent J) → Option (Agent J)
  unfolding eligible sort_agents
  select_eligible matrix candidates = first (sort_agents (eligible req matrix candidates))

unfoldable pub select_best_agent_with_matrix :
    {J : Type 0}
    → Metadata J
    → (to_lowercase : String → String) → List ProviderCapabilities
    → Task J
    → List (Agent J)
    → Option (Agent J)
unfolding requirements select_eligible
select_best_agent_with_matrix json to_lowercase matrix t candidates =
    select_eligible to_lowercase (requirements json to_lowercase t) matrix candidates
