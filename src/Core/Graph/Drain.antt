-- ===== src/Core/Graph/Drain.antt =====
-- The invariant of the loop of Kahn's algorithm, on a consistent graph.
use mathlib.Core.List.{append_assoc}
use axonel.Prelude.{
  ◌||◌, ◌&&◌, ℕ, ◌+◌, ◌≡◌, Bool, true, false, some, List, [], ◌∷◌, ◌++◌, ◌==◌, if◌then◌else◌, arith,
}
use axonel.Prelude.Map
use axonel.Prelude.Map.{Map, get, keys, get-insert}
use axonel.Prelude.Sets.{contains, distinct, contains-append, distinct-snoc, distinct-middle}
use axonel.Core.Ids.{TaskId}
use axonel.Core.Graph.Base.{TaskGraph, IsConsistent, direct_dependencies, direct_dependents}
use axonel.Core.Graph.Kahn.{Front, relax, relax_all}
use axonel.Core.Graph.Left.{left, bit, left-snoc}

-- The queue with `d` behind it, if test `b` passes.
contains-pushed :
    (out q : List ℕ) (b : Bool) (d v : ℕ)
    → contains (out ++ (if b then q ++ d ∷ [] else q)) v ≡ (contains (out ++ q) v || (b && d == v))
contains-pushed out q true d v = ground (
  arith,
  contains-append out (q ++ d ∷ []) v,
  contains-append q (d ∷ []) v,
  contains-append out q v,
)
contains-pushed out q false d v = ground arith

distinct-pushed :
    (out q : List ℕ) (b : Bool) (d : ℕ)
    → distinct (out ++ q) ≡ true
    → contains (out ++ q) d ≡ false
    → distinct (out ++ (if b then q ++ d ∷ [] else q)) ≡ true
distinct-pushed out q true d once a = rw (← append_assoc) (distinct-snoc (out ++ q) d once a)
distinct-pushed out q false d once a = once

module _ {J : Type 0} (g : TaskGraph J) where
  -- After the nodes `out`, with the dependents `ds` of the last of them still to be visited: each
  -- degree counts the dependencies that are not out, a task is out or queued exactly if none is
  -- left, and none is so twice.
  pub record Inv (out : List TaskId) (front : Front) (ds : List TaskId) : Type 0 where
    pub counted :
        (v : TaskId)
        → contains (keys g.tasks) v ≡ true
        → get front.degrees v ≡ some (left out (direct_dependencies g v) + bit (contains ds v))
    pub queued :
        (v : TaskId)
        → contains (keys g.tasks) v ≡ true
        → contains (out ++ front.queue) v
          ≡ (left out (direct_dependencies g v) + bit (contains ds v) == 0)
    pub once : distinct (out ++ front.queue) ≡ true
    pub known :
        (v : TaskId) → contains (out ++ front.queue) v ≡ true → contains (keys g.tasks) v ≡ true

  -- Everything that a task of the list waits for stands before it, or in `seen`.
  abbrev pub IsOrdered : List TaskId → List TaskId → Type 0
  IsOrdered seen [] = Unit
  IsOrdered seen (v ∷ rest) =
      ((w : TaskId) → contains (direct_dependencies g v) w ≡ true → contains seen w ≡ true)
      × IsOrdered (seen ++ v ∷ []) rest

  -- Where the invariant holds the subtraction does not wrap.
  relaxed :
      (out : List TaskId) (front : Front) (d : TaskId) (ds : List TaskId)
      → contains (keys g.tasks) d ≡ true
      → contains ds d ≡ false
      → Inv out front (d ∷ ds)
      → relax d front ≡ (
          let n = left out (direct_dependencies g d) in
          record {
            degrees = Map.insert d n front.degrees;
            queue = if n == 0 then front.queue ++ d ∷ [] else front.queue;
          })
  unfolding relax
  relaxed out front d ds k a h = ground (arith, h.counted d)

  relax-Inv :
      (out : List TaskId) (front : Front) (d : TaskId) (ds : List TaskId)
      → contains (keys g.tasks) d ≡ true
      → contains ds d ≡ false
      → Inv out front (d ∷ ds)
      → Inv out (relax d front) ds
  relax-Inv out front d ds k a h =
      let n = left out (direct_dependencies g d) in
      let absent : contains (out ++ front.queue) d ≡ false = ground (arith, h.queued d) in
      rw (relaxed out front d ds k a h) (record {
        counted = λ v kv. ground (arith, h.counted v, get-insert d n front.degrees v);
        queued = λ v kv. ground (arith, h.queued v, contains-pushed out front.queue (n == 0) d v);
        once = distinct-pushed out front.queue (n == 0) d h.once absent;
        known = λ v m. ground (arith, h.known v, contains-pushed out front.queue (n == 0) d v);
      })

  pub relax_all-Inv :
      (out : List TaskId) (front : Front) (ds : List TaskId)
      → distinct ds ≡ true
      → ((v : TaskId) → contains ds v ≡ true → contains (keys g.tasks) v ≡ true)
      → Inv out front ds
      → Inv out (relax_all ds front) []
  unfolding relax_all
  relax_all-Inv out front [] dist k h = h
  relax_all-Inv out front (d ∷ ds) dist k h =
      relax_all-Inv out (relax d front) ds (ground arith) (λ v m. k v (ground arith))
        (relax-Inv out front d ds (k d (ground arith)) (ground arith) h)

  module _ (ok : IsConsistent g) where
    -- Taking a node off the queue, before its dependents are visited.
    pub pop-Inv :
        (out : List TaskId) (degrees : Map ℕ) (node : TaskId) (queue : List TaskId)
        → Inv out (record { degrees = degrees; queue = node ∷ queue }) []
        → Inv
            (out ++ node ∷ [])
            (record { degrees = degrees; queue = queue })
            (direct_dependents g node)
    pop-Inv out degrees node queue h =
        let absent = distinct-middle out node queue h.once in
        record {
          counted = λ v kv. ground (
            arith,
            h.counted v,
            left-snoc out node (direct_dependencies g v) (ok.dependencies_distinct v) absent,
            ok.mirrored v node,
          );
          queued = λ v kv. rw append_assoc (
              ground (
                arith,
                h.queued v,
                left-snoc out node (direct_dependencies g v) (ok.dependencies_distinct v) absent,
                ok.mirrored v node,
              ));
          once = rw append_assoc h.once;
          known = rw append_assoc h.known;
        }
