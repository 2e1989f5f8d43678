-- ===== src/Core/State/Execution/Routes.antt =====
-- Runs of the execution lifecycle end after two changes.
use axonel.Prelude.{ℕ, suc, ◌+◌, ◌≤◌, List, [], ◌∷◌, ite, arith}
use axonel.Core.State.Requests.{requests}
use axonel.Core.State.Execution.{
  ExecutionState, ExecutionState-discrete, pending, running, transition_to,
}

-- The state that a request leaves, granted or refused.
abbrev pub step : ExecutionState → ExecutionState → ExecutionState
step s r = (transition_to s r).0

-- How many requests of a run change the state.
pub changes : ExecutionState → List ExecutionState → ℕ
changes s [] = 0
changes s (r ∷ rs) =
    let rest = changes (step s r) rs in ite (ExecutionState-discrete (step s r) s) rest (suc rest)

abbrev pub rank : ExecutionState → ℕ
rank pending = 0
rank running = 1
rank _ = 2

rank_grows :
    (s r : ExecutionState) (rest : ℕ)
    → ite (ExecutionState-discrete (step s r) s) rest (suc rest) + rank s ≤ rest + rank (step s r)
unfolding transition_to
rank_grows s r rest = ground arith

rank-le : (s : ExecutionState) → rank s ≤ 2
rank-le s = ground arith

changes-rank :
    (s : ExecutionState) (rs : List ExecutionState)
    → changes s rs + rank s ≤ rank (requests step s rs)
unfolding changes requests
changes-rank s [] = omega arith
changes-rank s (r ∷ rs) =
    omega (arith, rank_grows s r (changes (step s r) rs), changes-rank (step s r) rs)

-- Whatever is asked of it, an execution changes state at most twice, and never back: each change
-- brings it nearer to one of the four states that end it.
pub changes_bounded :
    (s : ExecutionState) (rs : List ExecutionState)
    → (changes s rs ≤ 2) × (rank s ≤ rank (requests step s rs))
changes_bounded s rs = (
  omega (arith, changes-rank s rs, rank-le (requests step s rs)),
  omega (arith, changes-rank s rs),
)
