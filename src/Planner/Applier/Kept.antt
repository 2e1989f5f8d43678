-- ===== src/Planner/Applier/Kept.antt =====
-- Which dependencies of a valid proposal crates/plexis-planner/src/applier.rs keeps.
use text.Mathlib.Text.{◌==◌ as str_eq}
use text.Mathlib.TextEquality.{eq_iff}
use axonel.Prelude.{
  ℕ, ◌+◌, String, Bool, true, false, ◌&&◌, ◌||◌, ◌≡◌, refl, sym, ap, ◌∙◌, subst, Option, none, some,
  is_some, List, [], ◌∷◌, arith, if◌then◌else◌, Option-cases, Bool-cases, inl, inr,
}
use axonel.Prelude.Text.{trim}
use axonel.Core.Ids.{TaskId, Instant}
use axonel.Planner.Validator.{
  ProposedTask, ProposedDependency, PlanProposal, PlannerBudgets, has_id, is_nil, check_plan,
}
use axonel.Planner.Validator.Shape.{names, well_linked, check_plan_iff}
use axonel.Planner.Applier.{
  Values, PlanningContext, IdMap, get_id, insert_id, build_tasks, map_dependencies, push_both,
}

-- No white space around it.
abbrev pub is_plain : String → Bool
is_plain s = str_eq (trim s) s

abbrev pub plain_tasks : List ProposedTask → Bool
plain_tasks [] = true
plain_tasks (t ∷ ts) = is_plain t.temp_id && plain_tasks ts

abbrev pub plain_dependencies : List ProposedDependency → Bool
plain_dependencies [] = true
plain_dependencies (d ∷ ds) =
    is_plain d.task_temp_id && (is_plain d.depends_on_temp_id && plain_dependencies ds)

abbrev named : String → List ProposedTask → Bool
named key [] = false
named key (t ∷ ts) = str_eq t.temp_id key || named key ts

plain : (s : String) → is_plain s ≡ true → trim s ≡ s
plain s h = (eq_iff (trim s) s).0 h

-- The identifier that the last task of that name gets, by its place.
abbrev pub id_of :
    (task_id : (index : ℕ) → TaskId) (key : String) (index : ℕ)
    → List ProposedTask
    → Option TaskId
    → Option TaskId
id_of task_id key index [] o = o
id_of task_id key index (t ∷ ts) o =
    id_of task_id key (index + 1) ts (if str_eq t.temp_id key then some (task_id index) else o)

-- Each edge has what its dependency names.
abbrev pub Joined :
    (String → Option TaskId) → List ProposedDependency → List (TaskId × TaskId) → Type 0
Joined f [] [] = Unit {0}
Joined f (d ∷ ds) ((t, u) ∷ es) =
    (f d.task_temp_id ≡ some t) × (f d.depends_on_temp_id ≡ some u) × Joined f ds es
Joined f _ _ = ⊥

get_id-insert_id :
    (key : String) (id : TaskId) (m : IdMap) (other : String)
    → get_id other (insert_id key id m) ≡ (if str_eq key other then some id else get_id other m)
unfolding get_id insert_id
get_id-insert_id key id [] other = ground arith
get_id-insert_id key id ((k, j) ∷ m) other = elim (Bool-cases (str_eq k key)) [
  | inl e ↦ rw e (ground (arith, ap (λ x. str_eq x other) ((eq_iff k key).0 e)))
  | inr e ↦ rw e (elim (Bool-cases (str_eq k other)) [
    | inl f ↦ rw f (elim (Bool-cases (str_eq key other)) [
      | inl g ↦
          absurd
            (ground (arith, (eq_iff k key).1 ((eq_iff k other).0 f ∙ sym ((eq_iff key other).0 g))))
      | inr g ↦ rw g refl
    ])
    | inr f ↦ rw f (get_id-insert_id key id m other)
  ])
]

has_id-names :
    (ts : List ProposedTask) (ids : List String) (key : String)
    → plain_tasks ts ≡ true
    → has_id (names ts ids) key ≡ (named key ts || has_id ids key)
has_id-names [] ids key h = refl
has_id-names (t ∷ ts) ids key h = ground (
  arith,
  has_id-names ts (trim t.temp_id ∷ ids) key (ground arith),
  ap (λ x. str_eq x key) (plain t.temp_id (ground arith)),
)

is_some-id_of :
    (task_id : (index : ℕ) → TaskId) (key : String) (index : ℕ) (ts : List ProposedTask)
    (o : Option TaskId)
    → is_some (id_of task_id key index ts o) ≡ (named key ts || is_some o)
is_some-id_of task_id key index [] o = refl
is_some-id_of task_id key index (t ∷ ts) o = ground (
  arith,
  is_some-id_of task_id key (index + 1) ts
      (if str_eq t.temp_id key then some (task_id index) else o),
)

module _ {J : Type 0} (values : Values J) (context : PlanningContext) (now : Instant)
    (task_id : (index : ℕ) → TaskId) where
  get_id-build_tasks :
      (index : ℕ) (ts : List ProposedTask) (m : IdMap) (key : String)
      → get_id key (build_tasks values context now task_id index ts m).0
        ≡ id_of task_id key index ts (get_id key m)
  unfolding build_tasks
  get_id-build_tasks index [] m key = refl
  get_id-build_tasks index (t ∷ ts) m key =
      get_id-build_tasks (index + 1) ts (insert_id t.temp_id (task_id index) m) key
      ∙ ap (id_of task_id key (index + 1) ts) (get_id-insert_id t.temp_id (task_id index) m key)

push_both-Joined :
    (f : String → Option TaskId) (d : ProposedDependency) (ds : List ProposedDependency)
    (deps : List (TaskId × TaskId))
    → is_some (f d.task_temp_id) ≡ true
    → is_some (f d.depends_on_temp_id) ≡ true
    → Joined f ds deps
    → Joined f (d ∷ ds) (push_both (f d.task_temp_id) (f d.depends_on_temp_id) deps)
push_both-Joined f d ds deps h k j = elim (Option-cases (f d.task_temp_id)) [
  | inl e ↦ absurd (ground arith)
  | inr (t, e) ↦ elim (Option-cases (f d.depends_on_temp_id)) [
    | inl e' ↦ absurd (ground arith)
    | inr (u, e') ↦ rw (e, e') (e, e', j)
  ]
]

map_dependencies-Joined :
    (ids : IdMap) (f : String → Option TaskId) (known : List String) (ds : List ProposedDependency)
    → ((key : String) → get_id key ids ≡ f key)
    → ((key : String) → has_id known key ≡ true → is_some (f key) ≡ true)
    → plain_dependencies ds ≡ true
    → well_linked known ds ≡ true
    → Joined f ds (map_dependencies ids ds)
unfolding map_dependencies
map_dependencies-Joined ids f known [] g h p w = tt
map_dependencies-Joined ids f known (d ∷ ds) g h p w =
    let task =
      subst (λ x. has_id known x ≡ true) (plain d.task_temp_id (ground arith)) (ground arith) in
    let other =
      subst (λ x. has_id known x ≡ true) (plain d.depends_on_temp_id (ground arith))
        (ground arith) in
    rw (g d.task_temp_id, g d.depends_on_temp_id)
      (push_both-Joined f d ds (map_dependencies ids ds) (h d.task_temp_id task)
        (h d.depends_on_temp_id other)
        (map_dependencies-Joined ids f known ds g h (ground arith) (ground arith)))

module _ {J : Type 0} (values : Values J) (context : PlanningContext) (now : Instant)
    (task_id : (index : ℕ) → TaskId) where
  -- Where steps 1 to 4 of the validator find no error in a proposal, and no identifier has white space
  -- around it, the edges that the applier makes are those of the dependencies, in their order: each is
  -- between the new identifiers of the two tasks that its dependency names.
  pub valid_plan_keeps_dependencies :
      (budget : PlannerBudgets) (existing : ℕ) (p : PlanProposal)
      → is_nil (check_plan budget existing p) ≡ true
      → plain_tasks p.tasks ≡ true
      → plain_dependencies p.dependencies ≡ true
      → Joined
          (λ key. id_of task_id key 0 p.tasks none)
          p.dependencies
          (map_dependencies (build_tasks values context now task_id 0 p.tasks []).0 p.dependencies)
  unfolding get_id
  valid_plan_keeps_dependencies budget existing p c t d =
      let ok = sym (check_plan_iff budget existing p) ∙ c in
      map_dependencies-Joined _ _ (names p.tasks []) p.dependencies
        (get_id-build_tasks values context now task_id 0 p.tasks [])
        (λ key k.
          ground (arith, is_some-id_of task_id key 0 p.tasks none, has_id-names p.tasks [] key t))
        d (ground arith)
