-- ===== src/Runtime/Reconciler/InFlight.antt =====
-- The commands that `reconcile_commands` of crates/plexis-runtime/src/reconciler.rs fails.
use axonel.Prelude.{
  ◌≡◌, refl, subst, String, Bool, true, false, not, ◌||◌, Option, none, some, List, [], ◌∷◌, ◌++◌,
  Has, ◌⊎◌, ap, inl, inr, if◌then◌else◌, arith, Bool-cases,
}
use axonel.Prelude.Rows.{
  update_row, sweep, sweep-spares, all_in, all_in-of_Has, Has-append, Has-kept,
}
use axonel.Core.Ids.{TaskId, Instant}
use axonel.Core.State.Command.{CommandState, CommandState-discrete}
use axonel.Core.Command as Command
use axonel.Core.Command.{Command}
use axonel.Storage.Leases.{get_lease_by_task}
use axonel.Storage.Work.{
  Work, command_key, written_command, update_command, commands_in, list_commands_by_state, get_task,
  append_event,
}
use axonel.Runtime.Selector.{Metadata}
use axonel.Runtime.Reconciler.Frames.{SameTasks, SameTasks-refl, SameTasks-trans}
use axonel.Runtime.Reconciler.{
  Pass, Reconciler, target_task, is_orphaned, reconcile_command, reconcile_all, reconcile_commands,
}

abbrev pub is_in_flight : CommandState → Bool
is_in_flight CommandState.dispatched = true
is_in_flight CommandState.delivered = true
is_in_flight _ = false

in_flight_cases :
    (c : CommandState)
    → is_in_flight c ≡ true
    → (c ≡ CommandState.dispatched) ⊎ (c ≡ CommandState.delivered)
in_flight_cases c h = ground arith

module _ {J : Type 0} (json : Metadata J) (parse_id : String → Option TaskId) where
  abbrev orphaned : Work J → Command J → Bool
  orphaned s c = is_orphaned json parse_id s (target_task json parse_id c)

  is_orphaned-SameTasks :
      (s t : Work J) (o : Option TaskId)
      → SameTasks s t
      → is_orphaned json parse_id t o ≡ is_orphaned json parse_id s o
  unfolding is_orphaned get_task get_lease_by_task
  is_orphaned-SameTasks s t none same = refl
  is_orphaned-SameTasks s t (some id) same = rw (same.tasks, same.leases) refl

  reconcile_command-SameTasks :
      (now : Instant) (c : Command J) (p : Pass J)
      → SameTasks p.work (reconcile_command json parse_id now c p).work
  unfolding reconcile_command update_command append_event
  reconcile_command-SameTasks now c p = record {
    tasks = ground arith;
    leases = ground arith;
    workflows = ground arith;
  }

  reconcile_command_commands :
      (now : Instant) (c : Command J) (p : Pass J)
      → (reconcile_command json parse_id now c p).work.commands ≡ (
          if orphaned p.work c
          then update_row command_key c.id
              (written_command (Command.mark_failed now c))
              p.work.commands
          else p.work.commands)
  unfolding reconcile_command update_command append_event Command.mark_failed
  reconcile_command_commands now c p = ground arith

  reconcile_all-SameTasks :
      (now : Instant) (cs : List (Command J)) (p : Pass J)
      → SameTasks p.work (reconcile_all json parse_id now cs p).work
  unfolding reconcile_all
  reconcile_all-SameTasks now [] p = SameTasks-refl
  reconcile_all-SameTasks now (c ∷ cs) p =
      let here = reconcile_command-SameTasks now c p in
      let rest = reconcile_all-SameTasks now cs (reconcile_command json parse_id now c p) in
      SameTasks-trans here rest

  -- The loop rewrites the rows as a sweep does.
  reconcile_all-sweep :
      (now : Instant) (s : Work J) (cs : List (Command J)) (p : Pass J)
      → SameTasks s p.work
      → (reconcile_all json parse_id now cs p).work.commands
        ≡ sweep command_key
            (orphaned s)
            (λ c. written_command (Command.mark_failed now c))
            cs
            p.work.commands
  unfolding reconcile_all sweep
  reconcile_all-sweep now s [] p same = refl
  reconcile_all-sweep now s (c ∷ cs) p same =
      let here = reconcile_command-SameTasks now c p in
      let q = reconcile_command json parse_id now c p in
      rw
        (
          reconcile_all-sweep now s cs q (SameTasks-trans same here),
          reconcile_command_commands now c p,
          is_orphaned-SameTasks s p.work (target_task json parse_id c) same,
        )
        refl

  Has-commands_in :
      (state : CommandState) (c : Command J) (rows : List (Command J))
      → Has c rows
      → c.state ≡ state
      → Has c (commands_in state rows)
  unfolding commands_in
  Has-commands_in state c [] m e = m
  Has-commands_in state c (d ∷ rest) (inl q) e =
      Has-kept (CommandState-discrete d.state state) c d (commands_in state rest)
        (inl (q, ground (arith, ap (λ (x : Command J). x.state) q)))
  Has-commands_in state c (d ∷ rest) (inr n) e =
      Has-kept (CommandState-discrete d.state state) c d (commands_in state rest)
        (inr (Has-commands_in state c rest n e))

  in_flight_listed :
      (c : Command J) (s : Work J)
      → Has c s.commands
      → is_in_flight c.state ≡ true
      → Has c (
          list_commands_by_state CommandState.dispatched s
          ++ list_commands_by_state CommandState.delivered s)
  unfolding list_commands_by_state
  in_flight_listed c s m h =
      Has-append c (list_commands_by_state CommandState.dispatched s)
        (list_commands_by_state CommandState.delivered s)
        (elim (in_flight_cases c.state h) [
          | inl e ↦ inl (Has-commands_in CommandState.dispatched c s.commands m e)
          | inr e ↦ inr (Has-commands_in CommandState.delivered c s.commands m e)
        ])

  mark_failed_ends :
      (now : Instant) (c : Command J) → is_in_flight (Command.mark_failed now c).state ≡ false
  unfolding Command.mark_failed
  mark_failed_ends now c = ground arith

  -- A command that is dispatched or delivered waits for work that goes on.
  abbrev pub attended : Work J → Command J → Bool
  attended s c = not (is_in_flight c.state) || not (orphaned s c)

  -- After `reconcile_commands`, each command that is dispatched or delivered and names a task names
  -- one that is assigned or running under a lease.
  pub reconcile_commands-attended :
      (r : Reconciler) (now : Instant) (p : Pass J)
      → r.command_store ≡ true
      → let s = (reconcile_commands json parse_id r now p).work in
        all_in (attended s) s.commands ≡ true
  unfolding reconcile_commands
  reconcile_commands-attended r now p on =
      let listed =
        list_commands_by_state CommandState.dispatched p.work
        ++ list_commands_by_state CommandState.delivered p.work in
      let q = reconcile_all json parse_id now listed p in
      let same = reconcile_all-SameTasks now listed p in
      rw (on) (
        all_in-of_Has (attended q.work) q.work.commands (λ c m.
          elim (Bool-cases (is_in_flight c.state)) [
            | inr e ↦ ground arith
            | inl e ↦
                let (old, spared) =
                  sweep-spares command_key (orphaned p.work) (λ x. is_in_flight x.state)
                    (λ x. written_command (Command.mark_failed now x))
                    (λ x a b. mark_failed_ends now x) listed p.work.commands c
                    (subst (λ l. Has c l) (reconcile_all-sweep now p.work listed p (SameTasks-refl))
                      m)
                    e in
                ground (
                  arith,
                  spared c (in_flight_listed c p.work old e) refl,
                  is_orphaned-SameTasks p.work q.work (target_task json parse_id c) same,
                )
          ]))

  pub reconcile_commands-SameTasks :
      (r : Reconciler) (now : Instant) (p : Pass J)
      → SameTasks p.work (reconcile_commands json parse_id r now p).work
  unfolding reconcile_commands list_commands_by_state
  reconcile_commands-SameTasks r now p = elim (Bool-cases r.command_store) [
    | inl e ↦ rw e (
        reconcile_all-SameTasks now
          (list_commands_by_state CommandState.dispatched p.work
            ++ list_commands_by_state CommandState.delivered p.work)
          p)
    | inr e ↦ rw e SameTasks-refl
  ]
