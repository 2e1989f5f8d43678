-- ===== src/Runtime/Scheduler/Rounds.antt =====
-- What the loop of `tick` (crates/plexis-runtime/src/scheduler.rs) over the runnable tasks of a workflow
-- hands out.
use axonel.Prelude.{
  ◌≡◌, refl, sym, ap, ◌∙◌, subst, ◌⊎◌, true, false, not, ◌&&◌, ◌==◌, Option, none, some, List, [],
  ◌∷◌, map, ok, err, and_then, arith, Bool-cases, inl, inr, Has, ℕ, String,
}
use axonel.Prelude.Rows.{find_row-key}
use axonel.Prelude.Sets.{contains, distinct, subset, subset-contains, subset-later}
use axonel.Core.Ids.{TaskId, AgentId, WorkflowId}
use axonel.Core.Task.{Task}
use axonel.Core.Agent.{Agent}
use axonel.Core.Lease.{Lease}
use axonel.Storage.Leases.Others.{distinct_leases}
use axonel.Storage.Work.{Work, Outcome, idempotency_conflict, task_key, get_task}
use axonel.Runtime.Selector.Best.{select_best_agent_is_best}
use axonel.Runtime.Scheduler.{
  Context, Job, Choice, skip, stop, give, Launch, taken, launched, is_schedulable, retain, choose,
  launch, proceed, assign_tasks, push_job,
}
use axonel.Runtime.Scheduler.Launches as Launches
use axonel.Runtime.Scheduler.Launches.{
  Backed, Spares, Launched, is_taken, is_launched, launch-Launched,
}

abbrev pub agent_key : {J : Type 0} → Agent J → AgentId
agent_key a = a.id

-- The jobs are backed, in order, for these tasks and agents.
abbrev pub AllBacked : {J : Type 0} → Work J → List (Job J) → List TaskId → List AgentId → Type 0
AllBacked w [] [] [] = Unit
AllBacked w (job ∷ jobs) (t ∷ ts) (a ∷ gs) = Backed w job t a × AllBacked w jobs ts gs
AllBacked w _ _ _ = ⊥

module _ {J : Type 0} where
  -- The jobs of a pass: no task and no agent has two, the tasks were runnable and the agents available,
  -- and the rows and leases of all other tasks are as they were.
  pub record HandsOut (ids : List TaskId) (available : List (Agent J)) (s t : Work J)
      (jobs : List (Job J)) : Type 0 where
    pub tasks : List TaskId
    pub agents : List AgentId
    pub backed : AllBacked t jobs tasks agents
    pub tasks_once : distinct tasks ≡ true
    pub agents_once : distinct agents ≡ true
    pub tasks_offered : subset tasks ids ≡ true
    pub agents_offered : subset agents (map agent_key available) ≡ true
    pub rows : (j : TaskId) → contains ids j ≡ false → get_task j t ≡ get_task j s
    pub leases :
        (l : Lease) → Has l s.leases.leases → contains ids l.task_id ≡ false → Has l t.leases.leases
    pub distinct_ids : distinct_leases t.leases.leases ≡ true

  data Gives (available : List (Agent J)) (o : Option (Task J)) (t : Task J) (a : Agent J)
      : Type 0 where
    gives :
        o ≡ some t
        → is_schedulable t.state ≡ true
        → contains (map agent_key available) a.id ≡ true
        → Gives available o t a

  contains-retain :
      (id x : AgentId) (gs : List (Agent J))
      → contains (map agent_key (retain id gs)) x ≡ (not (x == id) && contains (map agent_key gs) x)
  unfolding retain
  contains-retain id x [] = ground arith
  contains-retain id x (a ∷ gs) = ground (arith, contains-retain id x gs)

  Has-contains_agent :
      (gs : List (Agent J)) (a : Agent J) → Has a gs → contains (map agent_key gs) a.id ≡ true
  Has-contains_agent [] a m = absurd m
  Has-contains_agent (b ∷ gs) a (inl e) = ground (arith, ap agent_key e)
  Has-contains_agent (b ∷ gs) a (inr m) = ground (arith, Has-contains_agent gs a m)

  choose-Gives :
      (context : Context J) (o : Option (Task J)) (available : List (Agent J)) (t : Task J)
      (a : Agent J)
      → choose context o available ≡ give t a
      → Gives available o t a
  unfolding choose
  choose-Gives context none available t a h = cc
  choose-Gives context (some u) [] t a h = elim (Bool-cases (is_schedulable u.state)) [
    | inl e ↦ cc
    | inr e ↦ cc
  ]
  choose-Gives context (some u) (b ∷ rest) t a h = elim (Bool-cases (is_schedulable u.state)) [
    | inr e ↦ cc
    | inl e ↦
        elim (select_best_agent_is_best context.json context.to_lowercase context.matrix u
          (b ∷ rest)) [
            | inl (f, _) ↦ cc
            | inr (c, f, m, _, _) ↦
                let reached : choose context (some u) (b ∷ rest) ≡ give u c = rw (e, f) refl in
                let both : give u c ≡ give t a = sym reached ∙ h in
                let same : u ≡ t = ap (λ (x : Choice J). elim x [ give v w ↦ v | _ ↦ u ]) both in
                let chosen : c ≡ a = ap (λ (x : Choice J). elim x [ give v w ↦ w | _ ↦ c ]) both in
                gives (ap some same) (rw (← same) e)
                  (rw (← chosen) (Has-contains_agent (b ∷ rest) c m))
          ]
  ]

  -- A job stays backed through what spares its task.
  Backed-spared :
      (w v : Work J) (ids : List TaskId)
      → ((j : TaskId) → contains ids j ≡ false → get_task j v ≡ get_task j w)
      → ((l : Lease)
          → Has l w.leases.leases
          → contains ids l.task_id ≡ false
          → Has l v.leases.leases)
      → (t : TaskId) (g : AgentId) (job : Job J) → contains ids t ≡ false
      → Backed w job t g
      → Backed v job t g
  Backed-spared w v ids rows leases t g job n b = record {
    lease = b.lease;
    listed = leases b.lease b.listed (rw (b.of_task) n);
    same_lease = b.same_lease;
    of_task = b.of_task;
    to_agent = b.to_agent;
    target = b.target;
    dispatched = b.dispatched;
    row = b.row;
    found = rows t n ∙ b.found;
    is_assigned = b.is_assigned;
    has_agent = b.has_agent;
  }

  subset-retain :
      (id : AgentId) (xs : List ℕ) (available : List (Agent J))
      → subset xs (map agent_key (retain id available)) ≡ true
      → (subset xs (map agent_key available) ≡ true) × (contains xs id ≡ false)
  subset-retain id [] available h = (refl, refl)
  subset-retain id (x ∷ xs) available h =
      ground (arith, subset-retain id xs available, contains-retain id x available)

  HandsOut-none :
      (ids : List TaskId) (available : List (Agent J)) (s : Work J)
      → distinct_leases s.leases.leases ≡ true
      → HandsOut ids available s s []
  HandsOut-none ids available s d = record {
    tasks = [];
    agents = [];
    backed = tt;
    tasks_once = refl;
    agents_once = refl;
    tasks_offered = refl;
    agents_offered = refl;
    rows = λ j n. refl;
    leases = λ l m n. m;
    distinct_ids = d;
  }

  -- The task in front got no job, and nothing changed.
  HandsOut-later :
      (id : TaskId) (ids : List TaskId) (available : List (Agent J)) (s t : Work J)
      (jobs : List (Job J))
      → HandsOut ids available s t jobs
      → HandsOut (id ∷ ids) available s t jobs
  HandsOut-later id ids available s t jobs h = record {
    tasks = h.tasks;
    agents = h.agents;
    backed = h.backed;
    tasks_once = h.tasks_once;
    agents_once = h.agents_once;
    tasks_offered = subset-later h.tasks ids id h.tasks_offered;
    agents_offered = h.agents_offered;
    rows = λ j n. h.rows j (ground arith);
    leases = λ l m n. h.leases l m (ground arith);
    distinct_ids = h.distinct_ids;
  }

  -- It got one.
  HandsOut-launched :
      (id : TaskId) (ids : List TaskId) (a : Agent J) (available : List (Agent J)) (s t v : Work J)
      (job : Job J) (jobs : List (Job J))
      → contains ids id ≡ false
      → contains (map agent_key available) a.id ≡ true
      → Backed t job id a.id
      → Spares id s t
      → HandsOut ids (retain a.id available) t v jobs
      → HandsOut (id ∷ ids) available s v (job ∷ jobs)
  HandsOut-launched id ids a available s t v job jobs fresh among b k h =
      let (agents_offered, agent_fresh) = subset-retain a.id h.agents available h.agents_offered in
      record {
        tasks = id ∷ h.tasks;
        agents = a.id ∷ h.agents;
        backed = (Backed-spared t v ids h.rows h.leases id a.id job fresh b, h.backed);
        tasks_once =
            ground (arith, subset-contains h.tasks ids id h.tasks_offered fresh, h.tasks_once);
        agents_once = ground (arith, h.agents_once);
        tasks_offered = ground (arith, subset-later h.tasks ids id h.tasks_offered);
        agents_offered = ground arith;
        rows = λ j n. h.rows j (ground arith) ∙ k.rows j (ground arith);
        leases = λ l m n. h.leases l (k.leases l m (ground arith)) (ground arith);
        distinct_ids = h.distinct_ids;
      }

  pub data Round (ids : List TaskId) (available : List (Agent J)) (s : Work J)
      (o : Outcome J (List (Job J))) : Type 0 where
    hands_out :
        (t : Work J) (jobs : List (Job J))
        → o ≡ (t, ok jobs)
        → HandsOut ids available s t jobs
        → Round ids available s o
    fails :
        (t : Work J) (key : String)
        → o ≡ (t, err (idempotency_conflict key))
        → Round ids available s o

  Choice-cases :
      (c : Choice J) → (c ≡ skip) ⊎ (c ≡ stop) ⊎ ((t : Task J) × (a : Agent J) × (c ≡ give t a))
  Choice-cases skip = inl refl
  Choice-cases stop = inr (inl refl)
  Choice-cases (give t a) = inr (inr (t, a, refl))

  Launched-given :
      (context : Context J) (workflow_id : WorkflowId) (id : TaskId) (t : Task J) (a : Agent J)
      (s : Work J)
      → distinct_leases s.leases.leases ≡ true
      → get_task id s ≡ some t
      → is_schedulable t.state ≡ true
      → Launched id a.id s (launch context workflow_id t a.id s)
  unfolding get_task
  Launched-given context workflow_id id t a s d found may =
      let same : t.id ≡ id = find_row-key task_key id s.tasks t found in
      subst (λ k. Launched k a.id s (launch context workflow_id t a.id s)) same
        (launch-Launched context workflow_id t a.id s d (ap (λ k. get_task k s) same ∙ found) may)

  Round-later :
      (id : TaskId) (ids : List TaskId) (available : List (Agent J)) (s : Work J)
      (o o' : Outcome J (List (Job J)))
      → o ≡ o'
      → Round ids available s o'
      → Round (id ∷ ids) available s o
  Round-later id ids available s o o' e (hands_out t jobs f h) =
      hands_out t jobs (e ∙ f) (HandsOut-later id ids available s t jobs h)
  Round-later id ids available s o o' e (fails t x f) = fails t x (e ∙ f)

  -- The outcome of a round, from that of those that follow.
  abbrev pushed : Launch J → Work J → List (Job J) → Outcome J (List (Job J))
  pushed l v jobs = (v, ok (push_job l jobs))

  Round-taken :
      (id : TaskId) (ids : List TaskId) (available : List (Agent J)) (s : Work J)
      (o o' : Outcome J (List (Job J)))
      → Round ids available s o'
      → o ≡ and_then o' (pushed taken)
      → Round (id ∷ ids) available s o
  Round-taken id ids available s o o' (hands_out t jobs f h) e =
      hands_out t jobs (rw (e, f) refl) (HandsOut-later id ids available s t jobs h)
  Round-taken id ids available s o o' (fails t x f) e = fails t x (rw (e, f) refl)

  Round-launched :
      (id : TaskId) (ids : List TaskId) (a : Agent J) (available : List (Agent J)) (s u : Work J)
      (job : Job J) (o o' : Outcome J (List (Job J)))
      → contains ids id ≡ false
      → contains (map agent_key available) a.id ≡ true
      → Backed u job id a.id
      → Spares id s u
      → Round ids (retain a.id available) u o'
      → o ≡ and_then o' (pushed (launched job))
      → Round (id ∷ ids) available s o
  Round-launched id ids a available s u job o o' fresh among b k (hands_out t jobs f h) e =
      hands_out t (job ∷ jobs) (rw (e, f) refl)
        (HandsOut-launched id ids a available s u t job jobs fresh among b k h)
  Round-launched id ids a available s u job o o' fresh among b k (fails t x f) e =
      fails t x (rw (e, f) refl)

  -- On a table where identifiers of leases differ, over tasks that are listed once, the loop ends because
  -- the idempotency key of a command is taken, or it hands out jobs: no task and no agent has two of them, each task was listed
  -- and each agent available, and at the end each job's command is dispatched to its agent, which
  -- holds the job's lease of the task, and the task is assigned to it; the rows and leases of the
  -- tasks not listed are as they were.
  pub assign_tasks-Round :
      (context : Context J) (workflow_id : WorkflowId) (ids : List TaskId)
      (available : List (Agent J)) (s : Work J)
      → distinct ids ≡ true
      → distinct_leases s.leases.leases ≡ true
      → Round ids available s (assign_tasks context workflow_id ids available s)
  unfolding assign_tasks proceed
  assign_tasks-Round context workflow_id [] available s once d =
      hands_out s [] refl (HandsOut-none [] available s d)
  assign_tasks-Round context workflow_id (id ∷ ids) available s once d =
      elim (Choice-cases (choose context (get_task id s) available)) [
        | inl e ↦
            Round-later id ids available s _ _ (rw e refl)
              (assign_tasks-Round context workflow_id ids available s (ground arith) d)
        | inr (inl e) ↦ hands_out s [] (rw e refl) (HandsOut-none (id ∷ ids) available s d)
        | inr (inr (t, a, e)) ↦ elim (choose-Gives context (get_task id s) available t a e) [
          | gives found may among ↦ elim (Launched-given context workflow_id id t a s d found may) [
            | is_taken f ↦
                Round-taken id ids available s _ _
                  (assign_tasks-Round context workflow_id ids available s (ground arith) d)
                  (rw (e, f) refl)
            | is_launched u job f b k ↦
                Round-launched id ids a available s u job _ _ (ground arith) among b k
                  (assign_tasks-Round context workflow_id ids (retain a.id available) u
                    (ground arith) k.distinct)
                  (rw (e, f) refl)
            | Launches.fails u x f ↦ fails u x (rw (e, f) refl)
          ]
        ]
      ]
