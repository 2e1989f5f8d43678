-- ===== src/Tests/Planning.antt =====
-- Proposals and the plans made of them (crates/plexis-planner) at concrete values.
use axonel.Prelude.{ℕ, ◌+◌, true, ◌≡◌, refl, none, List, [], ◌∷◌, length, String}
use axonel.Prelude.Int.{pos}
use axonel.Prelude.Text.{trim}
use axonel.Core.Ids.{TaskId}
use axonel.Planner.Validator.{
  ProposedTask, PlanProposal, default_budgets, is_nil, check_plan, new, with_task, with_dependency,
}
use axonel.Planner.Validator.Shape.{well_formed, check_plan_iff}
use axonel.Planner.Applier.{Values, PlanningContext, build_tasks, map_dependencies, ready_tasks}
use axonel.Planner.Applier.Kept.{Joined, id_of, valid_plan_keeps_dependencies}

abbrev a_task : (temp_id : String) → ProposedTask
a_task temp_id = record {
  temp_id = temp_id;
  objective = "build";
  description = none;
  criteria = "it compiles" ∷ [];
  required_capabilities = [];
  suggested_role = none;
  priority = pos 0;
}

abbrev two_steps : (second : String) → PlanProposal
two_steps second =
    with_dependency second "a" (with_task (a_task "b") (with_task (a_task "a") (new "ship" "")))

abbrev values : Values (List String)
values = record { empty = []; with_capabilities = λ caps j. caps }

abbrev context : PlanningContext
context = record { workflow_id = 7; workspace_id = none }

abbrev ids : ℕ → TaskId
ids index = 100 + index

check_plan_iff_example :
    is_nil (check_plan default_budgets 198 (two_steps "b"))
    ≡ well_formed default_budgets 198 (two_steps "b")
check_plan_iff_example = check_plan_iff default_budgets 198 (two_steps "b")

passes : is_nil (check_plan default_budgets 198 (two_steps "b")) ≡ true
unfolding check_plan default_budgets new with_task with_dependency
passes = refl

valid_plan_keeps_dependencies_example :
    Joined
      (λ key. id_of ids key 0 (two_steps "b").tasks none)
      (two_steps "b").dependencies
      (map_dependencies
        (build_tasks values context 5 ids 0 (two_steps "b").tasks []).0
        (two_steps "b").dependencies)
unfolding new with_task with_dependency trim
valid_plan_keeps_dependencies_example =
    valid_plan_keeps_dependencies values context 5 ids default_budgets 198 (two_steps "b") passes
      refl refl

edge :
    map_dependencies
      (build_tasks values context 5 ids 0 (two_steps "b").tasks []).0
      (two_steps "b").dependencies
    ≡ (101, 100) ∷ []
unfolding new with_task with_dependency build_tasks map_dependencies
edge = refl

-- The validator looks at an identifier without its margins, the applier with them.
blank_passes : is_nil (check_plan default_budgets 0 (two_steps " b")) ≡ true
unfolding check_plan default_budgets new with_task with_dependency
blank_passes = refl

blank_lost :
    map_dependencies
      (build_tasks values context 5 ids 0 (two_steps " b").tasks []).0
      (two_steps " b").dependencies
    ≡ []
unfolding new with_task with_dependency build_tasks map_dependencies
blank_lost = refl

-- So the task that was to wait is ready at once.
both_ready :
    let (map, tasks) = build_tasks values context 5 ids 0 (two_steps " b").tasks [] in
    length (ready_tasks 5 (map_dependencies map (two_steps " b").dependencies) tasks) ≡ 2
unfolding ready_tasks new with_task with_dependency build_tasks map_dependencies
both_ready = refl
