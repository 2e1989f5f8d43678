-- ===== src/Planner/Validator/Shape.antt =====
-- What the checks of crates/plexis-planner/src/validator.rs let pass.
use text.Mathlib.Text.{◌==◌ as str_eq}
use axonel.Prelude.{
  ℕ, ◌+◌, String, Bool, true, false, not, ◌&&◌, ◌≡◌, refl, ap, ◌∙◌, List, [], ◌∷◌, ◌++◌, length,
  leb, arith, Bool-cases, inl, inr,
}
use axonel.Prelude.Text.{trim, is_empty}
use axonel.Planner.Validator.{
  ProposedTask, ProposedDependency, PlanProposal, PlannerBudgets, PlanError, has_id, push_if,
  is_nil, blank_criterion, empty_objective, no_criteria, empty_id, duplicate_id, self_dependency,
  unknown_task, unknown_prerequisite, check_criteria, check_content, check_tasks,
  check_dependencies, check_budget, check_plan,
}

abbrev pub none_blank : List String → Bool
none_blank [] = true
none_blank (c ∷ cs) = not (is_empty (trim c)) && none_blank cs

-- Objective and criteria say something.
abbrev pub has_content : ProposedTask → Bool
has_content t =
    not (is_empty (trim t.objective)) && (not (is_nil t.criteria) && none_blank t.criteria)

-- Identifiers, without their margins, are not empty and differ from each other and from those of `ids`.
abbrev pub well_named : List String → List ProposedTask → Bool
well_named ids [] = true
well_named ids (t ∷ ts) =
    not (is_empty (trim t.temp_id))
    && (not (has_id ids (trim t.temp_id))
        && (has_content t && well_named (trim t.temp_id ∷ ids) ts))

abbrev pub names : List ProposedTask → List String → List String
names [] ids = ids
names (t ∷ ts) ids = names ts (trim t.temp_id ∷ ids)

-- Both ends are identifiers of tasks, and differ.
abbrev pub well_linked : List String → List ProposedDependency → Bool
well_linked ids [] = true
well_linked ids (d ∷ ds) =
    not (str_eq (trim d.task_temp_id) (trim d.depends_on_temp_id))
    && (has_id ids (trim d.task_temp_id)
        && (has_id ids (trim d.depends_on_temp_id) && well_linked ids ds))

-- The plan as `validate_with_budget` means it, up to cycles and depth.
abbrev pub well_formed : PlannerBudgets → ℕ → PlanProposal → Bool
well_formed budget existing p =
    not (is_nil p.tasks)
    && ((leb (length p.tasks) budget.max_tasks_per_plan
          && leb (existing + length p.tasks) budget.max_workflow_tasks)
        && (well_named [] p.tasks && well_linked (names p.tasks []) p.dependencies))

is_nil-push_if :
    (b : Bool) (e : PlanError) (errors : List PlanError)
    → is_nil (push_if b e errors) ≡ (not b && is_nil errors)
is_nil-push_if true e [] = refl
is_nil-push_if true e (x ∷ errors) = refl
is_nil-push_if false e errors = refl

is_nil-snoc : (e : PlanError) (errors : List PlanError) → is_nil (errors ++ e ∷ []) ≡ false
is_nil-snoc e [] = refl
is_nil-snoc e (x ∷ errors) = refl

is_nil-check_criteria :
    (id : String) (index : ℕ) (cs : List String) (errors : List PlanError)
    → is_nil (check_criteria id index cs errors) ≡ (none_blank cs && is_nil errors)
unfolding check_criteria
is_nil-check_criteria id index [] errors = refl
is_nil-check_criteria id index (c ∷ cs) errors = ground (
  arith,
  is_nil-check_criteria id (index + 1) cs
      (push_if (is_empty (trim c)) (blank_criterion id (index + 1)) errors),
  is_nil-push_if (is_empty (trim c)) (blank_criterion id (index + 1)) errors,
)

is_nil-check_content :
    (id : String) (t : ProposedTask) (errors : List PlanError)
    → is_nil (check_content id t errors) ≡ (has_content t && is_nil errors)
unfolding check_content
is_nil-check_content id t errors =
    let checked = push_if (is_empty (trim t.objective)) (empty_objective id) errors in
    elim (Bool-cases (is_nil t.criteria)) [
      | inl e ↦ rw e (ground (arith, is_nil-snoc (no_criteria id) checked))
      | inr e ↦ rw e (
          ground (
            arith,
            is_nil-check_criteria id 0 t.criteria checked,
            is_nil-push_if (is_empty (trim t.objective)) (empty_objective id) errors,
          ))
    ]

-- Once there is an error it stays.
is_nil-check_tasks :
    (index : ℕ) (ts : List ProposedTask) (ids : List String) (errors : List PlanError)
    → is_nil (check_tasks index ts ids errors).1 ≡ (well_named ids ts && is_nil errors)
unfolding check_tasks
is_nil-check_tasks index [] ids errors = refl
is_nil-check_tasks index (t ∷ ts) ids errors =
    let id = trim t.temp_id in
    elim (Bool-cases (is_empty id)) [
      | inl e ↦ rw e (
          ground (
            arith,
            is_nil-check_tasks (index + 1) ts ids (errors ++ empty_id index ∷ []),
            is_nil-snoc (empty_id index) errors,
          ))
      | inr e ↦ elim (Bool-cases (has_id ids id)) [
        | inl f ↦
            rw (e, f)
              (ground (
                arith,
                is_nil-check_tasks (index + 1) ts ids
                    (check_content id t (push_if true (duplicate_id id) errors)),
                is_nil-check_content id t (push_if true (duplicate_id id) errors),
                is_nil-push_if true (duplicate_id id) errors,
              ))
        | inr f ↦
            rw (e, f)
              (ground (
                arith,
                is_nil-check_tasks (index + 1) ts (id ∷ ids)
                    (check_content id t (push_if false (duplicate_id id) errors)),
                is_nil-check_content id t (push_if false (duplicate_id id) errors),
              ))
      ]
    ]

names-check_tasks :
    (index : ℕ) (ts : List ProposedTask) (ids : List String) (errors : List PlanError)
    → well_named ids ts ≡ true
    → (check_tasks index ts ids errors).0 ≡ names ts ids
unfolding check_tasks
names-check_tasks index [] ids errors h = refl
names-check_tasks index (t ∷ ts) ids errors h =
    let id = trim t.temp_id in
    let filled : is_empty id ≡ false = ground arith in
    let fresh : has_id ids id ≡ false = ground arith in
    rw (filled, fresh)
      (names-check_tasks (index + 1) ts (id ∷ ids)
        (check_content id t (push_if false (duplicate_id id) errors)) (ground arith))

is_nil-check_dependencies :
    (index : ℕ) (ds : List ProposedDependency) (ids : List String) (errors : List PlanError)
    → is_nil (check_dependencies index ds ids errors) ≡ (well_linked ids ds && is_nil errors)
unfolding check_dependencies
is_nil-check_dependencies index [] ids errors = refl
is_nil-check_dependencies index (d ∷ ds) ids errors =
    let task_id = trim d.task_temp_id in
    let depends_on_id = trim d.depends_on_temp_id in
    let first = push_if (not (has_id ids task_id)) (unknown_task (index + 1) task_id) errors in
    elim (Bool-cases (str_eq task_id depends_on_id)) [
      | inl e ↦ rw e (
          ground (
            arith,
            is_nil-check_dependencies (index + 1) ds ids
                (errors ++ self_dependency (index + 1) task_id ∷ []),
            is_nil-snoc (self_dependency (index + 1) task_id) errors,
          ))
      | inr e ↦ rw e (
          ground (
            arith,
            is_nil-check_dependencies (index + 1) ds ids (
                push_if (not (has_id ids depends_on_id))
                  (unknown_prerequisite (index + 1) depends_on_id) first),
            is_nil-push_if (not (has_id ids depends_on_id))
                (unknown_prerequisite (index + 1) depends_on_id) first,
            is_nil-push_if (not (has_id ids task_id)) (unknown_task (index + 1) task_id) errors,
          ))
    ]

is_nil-check_budget :
    (budget : PlannerBudgets) (existing : ℕ) (p : PlanProposal)
    → is_nil (check_budget budget existing p) ≡ (
        leb (length p.tasks) budget.max_tasks_per_plan
        && leb (existing + length p.tasks) budget.max_workflow_tasks)
unfolding check_budget
is_nil-check_budget budget existing p = ground arith

-- What is linked matters only where names are well formed.
joined :
    (named linked linked' nil_errors nil_start fits : Bool)
    → nil_errors ≡ (named && nil_start)
    → nil_start ≡ fits
    → (named ≡ true → linked ≡ linked')
    → (linked && nil_errors) ≡ (fits && (named && linked'))
joined named linked linked' nil_errors nil_start fits e f h = ground (arith, h)

-- Steps 1 to 4 find no error in a proposal exactly when it is well formed: it has tasks, within both
-- budgets, whose identifiers without their margins are not empty and differ, with an objective and with
-- criteria that are not blank, and each dependency is between two different tasks of the proposal.
pub check_plan_iff :
    (budget : PlannerBudgets) (existing : ℕ) (p : PlanProposal)
    → is_nil (check_plan budget existing p) ≡ well_formed budget existing p
unfolding check_plan
check_plan_iff budget existing p = elim (Bool-cases (is_nil p.tasks)) [
  | inl e ↦ rw e refl
  | inr e ↦
      let start = check_budget budget existing p in
      let (ids, errors) = check_tasks 0 p.tasks [] start in
      rw e (
        is_nil-check_dependencies 0 p.dependencies ids errors
        ∙ joined (well_named [] p.tasks) _ _ _ _ _ (is_nil-check_tasks 0 p.tasks [] start)
            (is_nil-check_budget budget existing p)
            (λ h. ap (λ i. well_linked i p.dependencies) (names-check_tasks 0 p.tasks [] start h)))
]
