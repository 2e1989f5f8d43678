-- ===== src/Storage/Leases/Others.antt =====
-- What a grant of a lease (crates/plexis-storage/src/sqlite/store.rs, `acquire_lease`) leaves of the
-- leases of the other tasks.
use axonel.Prelude.{
  ℕ, ◌+◌, ◌≡◌, refl, sym, ◌∙◌, subst, Option, ap, Bool, true, false, not, ◌&&◌, none, some, List,
  [], ◌∷◌, ◌++◌, map, Has, ok, err, ◌==◌, arith, inl, inr, Bool-cases, Option-cases,
}
use axonel.Prelude.Map
use axonel.Prelude.Sets.{contains, distinct, distinct-snoc}
use axonel.Prelude.Rows.{Has-append, Has-unless}
use axonel.Core.Ids.{TaskId, LeaseId, Instant}
use axonel.Core.Lease.{Lease}
use axonel.Storage.Leases.Runs.{is_live, cleared, acquire_lease_live, acquire_lease_free}
use axonel.Storage.Leases.{
  Tables, find_lease, has_lease, delete_lease, insert_lease, grant, commit, acquire_lease,
}

abbrev pub lease_key : Lease → LeaseId
lease_key l = l.id

-- The identifiers of the leases differ.
abbrev pub distinct_leases : List Lease → Bool
distinct_leases ls = distinct (map lease_key ls)

Has-contains : (ls : List Lease) (l : Lease) → Has l ls → contains (map lease_key ls) l.id ≡ true
Has-contains [] l m = absurd m
Has-contains (k ∷ ls) l (inl e) = ground (arith, ap lease_key e)
Has-contains (k ∷ ls) l (inr m) = ground (arith, Has-contains ls l m)

has_lease-contains :
    (id : LeaseId) (ls : List Lease) → has_lease id ls ≡ contains (map lease_key ls) id
unfolding has_lease
has_lease-contains id [] = refl
has_lease-contains id (k ∷ ls) = ground (arith, has_lease-contains id ls)

-- A lease of another task than that whose lease is deleted stays.
Has-delete_lease :
    (ls : List Lease) (l : Lease) (id : LeaseId)
    → Has l ls
    → (l.id == id) ≡ false
    → Has l (delete_lease id ls)
unfolding delete_lease
Has-delete_lease [] l id m n = absurd m
Has-delete_lease (k ∷ ls) l id (inl e) n =
    Has-unless (k.id == id) l k (delete_lease id ls) (inl (e, ground (arith, ap lease_key e)))
Has-delete_lease (k ∷ ls) l id (inr m) n =
    Has-unless (k.id == id) l k (delete_lease id ls) (inr (Has-delete_lease ls l id m n))

found_contains :
    (t : TaskId) (ls : List Lease) (old : Lease)
    → find_lease t ls ≡ some old
    → contains (map lease_key ls) old.id ≡ true
unfolding find_lease
found_contains t [] old f = absurd (ground arith)
found_contains t (k ∷ ls) old f = ground (arith, found_contains t ls old)

found_other :
    (t : TaskId) (ls : List Lease) (old l : Lease)
    → distinct_leases ls ≡ true
    → find_lease t ls ≡ some old
    → Has l ls
    → (l.task_id == t) ≡ false
    → (l.id == old.id) ≡ false
unfolding find_lease
found_other t [] old l d f m n = absurd m
found_other t (k ∷ ls) old l d f (inl e) n =
    ground (arith, found_contains t ls old, ap lease_key e, ap (λ (x : Lease). x.task_id) e)
found_other t (k ∷ ls) old l d f (inr m) n =
    ground (arith, found_other t ls old l, Has-contains ls l m, m)

contains-delete_lease :
    (id x : LeaseId) (ls : List Lease)
    → contains (map lease_key (delete_lease id ls)) x
      ≡ (not (x == id) && contains (map lease_key ls) x)
unfolding delete_lease
contains-delete_lease id x [] = ground arith
contains-delete_lease id x (k ∷ ls) = ground (arith, contains-delete_lease id x ls)

distinct-delete_lease :
    (id : LeaseId) (ls : List Lease)
    → distinct_leases ls ≡ true
    → distinct_leases (delete_lease id ls) ≡ true
unfolding delete_lease
distinct-delete_lease id [] d = refl
distinct-delete_lease id (k ∷ ls) d =
    ground (arith, distinct-delete_lease id ls, contains-delete_lease id k.id ls)

-- The new lease is there, with those of the other tasks, and identifiers still differ.
pub record Added (lease : Lease) (s t : Tables) (g : Lease) : Type 0 where
  pub same_id : g.id ≡ lease.id
  pub same_task : g.task_id ≡ lease.task_id
  pub same_agent : g.agent_id ≡ lease.agent_id
  pub added : Has g t.leases
  pub others : (l : Lease) → Has l s.leases → (l.task_id == lease.task_id) ≡ false → Has l t.leases
  pub distinct : distinct_leases t.leases ≡ true

keys-snoc :
    (ls : List Lease) (l : Lease) → map lease_key (ls ++ l ∷ []) ≡ map lease_key ls ++ l.id ∷ []
keys-snoc [] l = refl
keys-snoc (k ∷ ls) l = ap (λ (r : List ℕ). k.id ∷ r) (keys-snoc ls l)

inserted :
    (lease : Lease) (s t : Tables)
    → insert_lease lease s ≡ some t
    → (t.leases ≡ s.leases ++ lease ∷ []) × (has_lease lease.id s.leases ≡ false)
unfolding insert_lease
inserted lease s t h = ground arith

insert_lease-Added :
    (lease : Lease) (s t : Tables)
    → distinct_leases s.leases ≡ true
    → insert_lease lease s ≡ some t
    → (t.leases ≡ s.leases ++ lease ∷ []) × (distinct_leases (s.leases ++ lease ∷ []) ≡ true)
insert_lease-Added lease s t d h =
    let (e, fresh) = inserted lease s t h in
    (
      e,
      rw (keys-snoc s.leases lease) (
          distinct-snoc (map lease_key s.leases) lease.id d
            (rw (← has_lease-contains lease.id s.leases) fresh)),
    )

grant-Added :
    (lease : Lease) (s t : Tables) (g : Lease)
    → distinct_leases s.leases ≡ true
    → grant lease s ≡ some (t, g)
    → Added lease s t g
unfolding grant
grant-Added lease s t g d h = elim (Option-cases (Map.get s.generations lease.task_id)) [
  | inl e ↦ absurd (ground arith)
  | inr (n, e) ↦
      let granted : Lease = record lease { generation = n + 1 } in
      let raised : Tables = record s {
        generations = Map.insert lease.task_id (n + 1) s.generations;
      } in
      elim (Option-cases (insert_lease granted raised)) [
        | inl f ↦ absurd (ground arith)
        | inr (u, f) ↦
            let (e', fine) = insert_lease-Added granted raised u d f in
            let same : g ≡ granted = ground arith in
            let listed : t.leases ≡ s.leases ++ granted ∷ [] = ground arith in
            rw same (record {
              same_id = refl;
              same_task = refl;
              same_agent = refl;
              added = rw listed (Has-append granted s.leases (granted ∷ []) (inr (inl refl)));
              others = λ l m n. rw listed (Has-append l s.leases (granted ∷ []) (inl m));
              distinct = rw listed fine;
            })
      ]
]

commit-some :
    (s t : Tables) (o : Option (Tables × Lease)) (g : Lease)
    → commit s o ≡ (t, ok g)
    → o ≡ some (t, g)
unfolding commit
commit-some s t none g h =
    let differ : false ≡ true = ap (λ o. elim o.1 [ ok x ↦ true | err e ↦ false ]) h in
    absurd (ground arith)
commit-some s t (some (u, k)) g h =
    let same_lease : k ≡ g = ap (λ o. elim o.1 [ ok x ↦ x | err e ↦ k ]) h in
    let same_tables : u ≡ t = ap (λ o. o.0) h in λ i. some (same_tables i, same_lease i)

-- The transaction, where no lease of the task is live.
acquired :
    (now : Instant) (lease : Lease) (s t : Tables) (g : Lease)
    → acquire_lease now lease s ≡ (t, ok g)
    → grant lease (cleared (find_lease lease.task_id s.leases) s) ≡ some (t, g)
acquired now lease s t g h = elim (Bool-cases (is_live (find_lease lease.task_id s.leases) now)) [
  | inl live ↦ absurd (ground (arith, acquire_lease_live now lease s live))
  | inr free ↦
      commit-some s t (grant lease (cleared (find_lease lease.task_id s.leases) s)) g
        (sym (acquire_lease_free now lease s free) ∙ h)
]

-- Where identifiers of leases differ, a grant of `acquire_lease` adds the lease, keeps every lease of
-- every other task, and identifiers still differ.
pub acquire_lease-Added :
    (now : Instant) (lease : Lease) (s t : Tables) (g : Lease)
    → distinct_leases s.leases ≡ true
    → acquire_lease now lease s ≡ (t, ok g)
    → Added lease s t g
acquire_lease-Added now lease s t g d h = elim (Option-cases (find_lease lease.task_id s.leases)) [
  | inl e ↦
      grant-Added lease s t g d
        (subst (λ o. grant lease (cleared o s) ≡ some (t, g)) e (acquired now lease s t g h))
  | inr (old, e) ↦
      let emptied : Tables = record s { leases = delete_lease old.id s.leases } in
      let r =
        grant-Added lease emptied t g (distinct-delete_lease old.id s.leases d)
          (subst (λ o. grant lease (cleared o s) ≡ some (t, g)) e (acquired now lease s t g h)) in
      record {
        same_id = r.same_id;
        same_task = r.same_task;
        same_agent = r.same_agent;
        added = r.added;
        others = λ l m n.
            r.others l
              (Has-delete_lease s.leases l old.id m
                (found_other lease.task_id s.leases old l d e m n))
              n;
        distinct = r.distinct;
      }
]
