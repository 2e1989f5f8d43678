-- ===== src/Runtime/Selector/Candidates.antt =====
-- Who may have a task, by crates/plexis-runtime/src/selector.rs, and who goes first.
use axonel.Prelude.{
  ◌≤◌, ◌<◌, ◌≡◌, refl, ap, String, true, false, not, ◌&&◌, ◌||◌, ◌⊎◌, inl, inr, Option, none, some,
  is_some, List, [], ◌∷◌, Has, arith, Bool-cases, ltb, ite, if_pos, if_neg,
}
use axonel.Prelude.Text.{eq_ignore_ascii_case}
use axonel.Core.State.Agent.{AgentState, AgentState-discrete}
use axonel.Core.Agent.{Agent}
use axonel.Runtime.Selector.{
  Requirements, ProviderCapabilities, before, score_agent, is_eligible, has_capability, has_all,
  find_exact, find_provider, found_or, suits,
}

-- A model that is known must reason, call tools, see and read as the task asks.
abbrev pub Suited : Requirements → Option ProviderCapabilities → Type 0
Suited req none = Unit {0}
Suited req (some c) =
    (req.min_reasoning ≤ c.reasoning_tier)
    × ((not req.requires_tools || c.supports_tools) ≡ true)
    × ((not req.requires_vision || c.supports_vision) ≡ true)
    × (req.required_context ≤ c.context_window_tokens)

-- An agent that may have the task: it is idle and executes nothing, has each capability, in any case of
-- letters, and its model suits: that of the matrix by provider and name, or else the provider's first.
pub record Candidate {J : Type 0} (req : Requirements) (matrix : List ProviderCapabilities)
    (a : Agent J) : Type 0 where
  pub is_idle : a.state ≡ AgentState.idle
  pub is_free : a.current_execution_id ≡ none
  pub is_able :
      (wanted : String)
      → Has wanted req.required_caps
      → (c : String) × Has c a.capabilities × (eq_ignore_ascii_case c wanted ≡ true)
  pub is_suited : Suited req (
      found_or
        (find_exact a.provider_profile.provider a.provider_profile.model matrix)
        (find_provider a.provider_profile.provider matrix))

has_capability-found :
    (cs : List String) (wanted : String)
    → has_capability cs wanted ≡ true
    → (c : String) × Has c cs × (eq_ignore_ascii_case c wanted ≡ true)
has_capability-found [] wanted h = absurd (cc h)
has_capability-found (c ∷ cs) wanted h = elim (Bool-cases (eq_ignore_ascii_case c wanted)) [
  | inl e ↦ (c, inl refl, e)
  | inr e ↦ let (d, m, k) = has_capability-found cs wanted (ground arith) in (d, inr m, k)
]

has_capability-of :
    (cs : List String) (wanted c : String)
    → Has c cs
    → eq_ignore_ascii_case c wanted ≡ true
    → has_capability cs wanted ≡ true
has_capability-of [] wanted c m k = absurd m
has_capability-of (d ∷ cs) wanted c (inl e) k =
    let here : eq_ignore_ascii_case d wanted ≡ true =
      cc (ap (λ x. eq_ignore_ascii_case x wanted) e, k) in
    ground arith
has_capability-of (d ∷ cs) wanted c (inr m) k = ground (arith, has_capability-of cs wanted c m k)

has_all_able :
    (cs rs : List String) (wanted : String)
    → has_all cs rs ≡ true
    → Has wanted rs
    → (c : String) × Has c cs × (eq_ignore_ascii_case c wanted ≡ true)
has_all_able cs [] wanted h m = absurd m
has_all_able cs (r ∷ rs) wanted h (inl e) =
    let there : has_capability cs r ≡ true = ground arith in
    has_capability-found cs wanted (cc (ap (has_capability cs) e, there))
has_all_able cs (r ∷ rs) wanted h (inr m) = has_all_able cs rs wanted (ground arith) m

able_has_all :
    (cs rs : List String)
    → ((wanted : String)
        → Has wanted rs
        → (c : String) × Has c cs × (eq_ignore_ascii_case c wanted ≡ true))
    → has_all cs rs ≡ true
able_has_all cs [] able = refl
able_has_all cs (r ∷ rs) able =
    let (c, m, k) = able r (inl refl) in
    ground
      (arith, has_capability-of cs r c m k, able_has_all cs rs (λ wanted m. able wanted (inr m)))

suits_known :
    (req : Requirements) (o : Option ProviderCapabilities) → suits req o ≡ true → Suited req o
suits_known req none h = tt
suits_known req (some c) h = (ground arith, ground arith, ground arith, ground arith)

suits_of :
    (req : Requirements) (o : Option ProviderCapabilities) → Suited req o → suits req o ≡ true
suits_of req none h = refl
suits_of req (some c) (a, b, v, x) = ground (arith, a, b, v, x)

-- Who asks for nothing is suited by any model.
suits_unasked :
    (req : Requirements) (o : Option ProviderCapabilities)
    → (ltb 0 req.min_reasoning
        || (req.requires_tools || (req.requires_vision || ltb 0 req.required_context)))
      ≡ false
    → suits req o ≡ true
suits_unasked req none h = refl
suits_unasked req (some c) h = ground arith

free_of : {A : Type 0} (o : Option A) → is_some o ≡ false → o ≡ none
free_of none h = refl
free_of (some a) h = absurd (cc h)

module _ {J : Type 0} (req : Requirements) (matrix : List ProviderCapabilities) where
  abbrev model_of : Agent J → Option ProviderCapabilities
  model_of a =
      found_or (find_exact a.provider_profile.provider a.provider_profile.model matrix)
        (find_provider a.provider_profile.provider matrix)

  idle_now :
      (a : Agent J)
      → ite (AgentState-discrete a.state AgentState.idle) true false ≡ true
      → a.state ≡ AgentState.idle
  idle_now a h = elim (AgentState-discrete a.state AgentState.idle) [
    | yes e ↦ e
    | no n ↦ absurd (cc (if_neg (AgentState-discrete a.state AgentState.idle) n true false, h))
  ]

  idle_test :
      (a : Agent J)
      → a.state ≡ AgentState.idle
      → ite (AgentState-discrete a.state AgentState.idle) true false ≡ true
  idle_test a e = if_pos (AgentState-discrete a.state AgentState.idle) e true false

  is_eligible_eq :
      (a : Agent J)
      → is_eligible req matrix a ≡ (
          ite (AgentState-discrete a.state AgentState.idle) true false
          && (not (is_some a.current_execution_id)
              && (has_all a.capabilities req.required_caps && suits req (model_of a))))
  unfolding is_eligible
  is_eligible_eq a = ground (arith, suits_unasked req (model_of a))

  pub Candidate-of_eligible :
      (a : Agent J) → is_eligible req matrix a ≡ true → Candidate req matrix a
  Candidate-of_eligible a h =
      let e = is_eligible_eq a in
      record {
        is_idle = idle_now a (ground arith);
        is_free = free_of a.current_execution_id (ground arith);
        is_able = λ wanted m. has_all_able a.capabilities req.required_caps wanted (ground arith) m;
        is_suited = suits_known req (model_of a) (ground arith);
      }

  pub is_eligible-Candidate :
      (a : Agent J) → Candidate req matrix a → is_eligible req matrix a ≡ true
  is_eligible-Candidate a c =
      let able = able_has_all a.capabilities req.required_caps c.is_able in
      let suited = suits_of req (model_of a) c.is_suited in
      ground (
        arith,
        is_eligible_eq a,
        idle_test a c.is_idle,
        ap (λ o. is_some o) c.is_free,
        able,
        suited,
      )

-- The agent `b` does not go before `a`: its score is lower, or the same and its identifier not smaller.
abbrev pub Behind : {J : Type 0} → (String → String) → Requirements → Agent J → Agent J → Type 0
Behind to_lowercase req a b =
    (score_agent to_lowercase req b < score_agent to_lowercase req a)
    ⊎ ((score_agent to_lowercase req b ≡ score_agent to_lowercase req a) × (a.id ≤ b.id))

pub before-Behind :
    {J : Type 0} (to_lowercase : String → String) (req : Requirements) (a b : Agent J)
    → before to_lowercase req b a ≡ false
    → Behind to_lowercase req a b
unfolding before
before-Behind to_lowercase req a b h =
    elim (Bool-cases (ltb (score_agent to_lowercase req b) (score_agent to_lowercase req a))) [
      | inl lower ↦ inl (ground arith)
      | inr same ↦ inr (ground arith, ground arith)
    ]
