-- ===== src/Core/Graph/Order.antt =====
-- What Kahn's loop leaves, on a consistent graph: the order that it lists, and that it lists every
-- task exactly if the graph has no cycle.
use mathlib.Core.List.{append_assoc, append-nil}
use axonel.Prelude.{
  ℕ, zero, suc, ◌+◌, ◌<◌, ◌≡◌, refl, true, some, none, List, [], ◌∷◌, ◌++◌, ◌&&◌, length, ◌==◌,
  arith, length-append,
}
use axonel.Prelude.Map.{Map, get, keys}
use axonel.Prelude.Sets.{contains, distinct, contains-append, length-le_of_subset}
use axonel.Core.Ids.{TaskId}
use axonel.Core.Task.{Task}
use axonel.Core.Graph.Base.{
  TaskGraph, IsConsistent, direct_dependencies, direct_dependents, task_count,
}
use axonel.Core.Graph.Kahn.{drain, sources, find_waiting, in_degrees}
use axonel.Core.Graph.Left.{left, left_none}
use axonel.Core.Graph.Drain.{Inv, relax_all-Inv, pop-Inv, IsOrdered}

abbrev pub snoc : List TaskId → TaskId → List TaskId
snoc order node = order ++ node ∷ []

pub get-in_degrees :
    {J : Type 0} (d : TaskId → List TaskId) (m : Map (Task J)) (v : TaskId)
    → contains (keys m) v ≡ true
    → get (in_degrees d m) v ≡ some (length (d v))
unfolding in_degrees get
get-in_degrees d [] v k = cc
get-in_degrees d ((id, t) ∷ m) v k = ground (arith, get-in_degrees d m v)

pub contains-sources :
    {J : Type 0} (d : TaskId → List TaskId) (m : Map (Task J)) (v : TaskId)
    → contains (sources (in_degrees d m)) v ≡ (contains (keys m) v && (length (d v) == 0))
unfolding in_degrees sources
contains-sources d [] v = refl
contains-sources d ((id, t) ∷ m) v = ground (arith, contains-sources d m v)

pub distinct-sources :
    {J : Type 0} (d : TaskId → List TaskId) (m : Map (Task J))
    → distinct (keys m) ≡ true
    → distinct (sources (in_degrees d m)) ≡ true
unfolding in_degrees sources
distinct-sources d [] h = refl
distinct-sources d ((id, t) ∷ m) h = ground (arith, distinct-sources d m, contains-sources d m id)

pub find_waiting-none : (m : Map ℕ) (v n : ℕ) → find_waiting m ≡ none → get m v ≡ some n → n ≡ 0
unfolding find_waiting get
find_waiting-none [] v n f g = cc
find_waiting-none ((id, deg) ∷ m) v n f g = ground (arith, find_waiting-none m v n)

module _ {J : Type 0} (g : TaskGraph J) (ok : IsConsistent g) where
  IsOrdered-snoc :
      (seen out : List TaskId) (v : TaskId)
      → IsOrdered g seen out
      → ((w : TaskId)
          → contains (direct_dependencies g v) w ≡ true
          → contains (seen ++ out) w ≡ true)
      → IsOrdered g seen (out ++ v ∷ [])
  IsOrdered-snoc seen [] v h a = (λ w m. rw append-nil at (a w m), tt)
  IsOrdered-snoc seen (x ∷ out) v h a =
      (h.0, IsOrdered-snoc (seen ++ x ∷ []) out v h.1 (λ w m. rw append_assoc (a w m)))

  abbrev pub Drained : List TaskId × Map ℕ → Type 0
  Drained r = Inv g r.0 (record { degrees = r.1; queue = [] }) [] × IsOrdered g [] r.0

  pub drain-Drained :
      (fuel : ℕ) (degrees : Map ℕ) (queue out : List TaskId)
      → task_count g < fuel + length out
      → Inv g out (record { degrees = degrees; queue = queue }) []
      → IsOrdered g [] out
      → Drained (drain (direct_dependents g) snoc fuel degrees queue out)
  unfolding drain task_count
  drain-Drained zero degrees queue out f h o = absurd (
      omega (
        arith,
        length-le_of_subset (out ++ queue) (keys g.tasks) h.once h.known,
        length-append out queue,
      ))
  drain-Drained (suc fuel) degrees [] out f h o = (h, o)
  drain-Drained (suc fuel) degrees (node ∷ queue) out f h o =
      drain-Drained fuel _ _ (out ++ node ∷ []) (omega (arith, length-append out (node ∷ [])))
        (relax_all-Inv g (out ++ node ∷ []) _ (direct_dependents g node)
          (ok.dependents_distinct node) (λ v m. ok.waiting_known v node (rw ok.mirrored at m))
          (pop-Inv g ok out degrees node queue h))
        (IsOrdered-snoc [] out node o
          (λ w m. left_none out (direct_dependencies g node) w none_left m))
    where
      none_left : left out (direct_dependencies g node) ≡ 0
      none_left =
          ground (arith, h.known node, h.queued node, contains-append out (node ∷ queue) node)
