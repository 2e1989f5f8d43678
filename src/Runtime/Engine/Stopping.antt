-- ===== src/Runtime/Engine/Stopping.antt =====
-- `evaluate_stopping_condition` and `get_git_commit_sha` of
-- crates/plexis-runtime/src/mission/engine.rs. The world is what the processes that they start
-- report at the time of a step: `none` where one cannot be started.
use axonel.Prelude.{
  String, Bool, true, false, not, ◌&&◌, Option, none, some, is_some, if◌then◌else◌,
}
use axonel.Prelude.Text.{trim, is_empty}
use axonel.Core.Mission.{StoppingCondition}

pub record World : Type 0 where
  pub exists : String → Bool  -- `Path::exists`
  pub rev_parse : String → Option String  -- `git rev-parse HEAD`, where it succeeds
  pub git_status : String → Option String  -- `git status --porcelain`
  pub cargo_test : String → Option Bool  -- whether `cargo test` succeeds
  pub run_command : String → String → Option Bool  -- whether the command succeeds in the directory

module _ (w : World) where
  unfoldable pub get_git_commit_sha : String → Option String
  unfolding trim
  get_git_commit_sha dir = elim (w.rev_parse dir) [
    | none ↦ none
    | some out ↦ if is_empty (trim out) then none else some (trim out)
  ]

  -- `if let Ok(out) … else { return (false, commit_sha) }`
  abbrev succeeds : Option Bool → Bool
  succeeds none = false
  succeeds (some b) = b

  unfoldable pub is_clean : String → Bool
  unfolding trim
  is_clean dir = elim (w.git_status dir) [ none ↦ false | some out ↦ is_empty (trim out) ]

  -- A command of white space alone is not run.
  unfoldable pub passes_verifier : Option String → String → Bool
  unfolding trim
  passes_verifier none dir = true
  passes_verifier (some cmd) dir =
      if is_empty (trim cmd) then true else succeeds (w.run_command cmd dir)

  unfoldable pub evaluate_stopping_condition : String → StoppingCondition → Bool × Option String
  unfolding get_git_commit_sha is_clean passes_verifier
  evaluate_stopping_condition dir cond =
      let commit_sha = get_git_commit_sha dir in
      if cond.required_commit_exists && not (is_some commit_sha)
      then (false, none)
      else if cond.working_tree_clean && not (is_clean dir)
      then (false, commit_sha)
      else if cond.required_tests_pass && not (succeeds (w.cargo_test dir))
      then (false, commit_sha)
      else (passes_verifier cond.custom_verifier dir, commit_sha)
