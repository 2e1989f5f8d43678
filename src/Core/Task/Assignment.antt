-- ===== src/Core/Task/Assignment.antt =====
-- Assigning a task, and giving it back.
use axonel.Prelude.{◌≡◌, ◌⊎◌, Bool, true, false, none, some, ok, err, arith}
use axonel.Core.Ids.{AgentId, Instant}
use axonel.Core.State.Transition.{StateTransitionError}
use axonel.Core.State.Task.{TaskState}
use axonel.Core.Task.{Task, assign_to, unassign}

-- The states from which a task can be given to an agent.
abbrev pub is_assignable : TaskState → Bool
is_assignable TaskState.backlog = true
is_assignable TaskState.ready = true
is_assignable TaskState.assigned = true
is_assignable _ = false

-- The states from which it can go back to the pool.
abbrev pub is_returnable : TaskState → Bool
is_returnable TaskState.ready = true
is_returnable TaskState.assigned = true
is_returnable TaskState.running = true
is_returnable TaskState.blocked = true
is_returnable TaskState.needs_human = true
is_returnable TaskState.paused = true
is_returnable TaskState.failed = true
is_returnable TaskState.retrying = true
is_returnable TaskState.quarantined = true
is_returnable TaskState.backlog = true
is_returnable _ = false

module _ {J : Type 0} (now : Instant) where
  -- A task in `backlog`, `ready` or `assigned` is assigned to the agent; from any other state the
  -- call fails and leaves the task as it was, its time stamp too.
  pub assign_to_cases :
      (agent : AgentId) (task : Task J)
      → let (t, r) = assign_to now agent task in
        ((is_assignable task.state ≡ true)
          × (r ≡ ok tt)
          × (t.state ≡ TaskState.assigned)
          × (t.assigned_agent_id ≡ some agent)
          × (t.updated_at ≡ now))
        ⊎ ((is_assignable task.state ≡ false)
            × ((e : StateTransitionError) × (r ≡ err e))
            × (t ≡ task))
  unfolding assign_to
  assign_to_cases agent task = ground arith

  -- A task that was assigned and is given back is `ready` again with no agent, and neither call
  -- fails.
  pub assign_to-unassign :
      (agent : AgentId) (task : Task J)
      → is_assignable task.state ≡ true
      → let (t, r) = assign_to now agent task in
        let (u, q) = unassign now t in
        (r ≡ ok tt) × (q ≡ ok tt) × (u.state ≡ TaskState.ready) × (u.assigned_agent_id ≡ none)
  unfolding assign_to unassign
  assign_to-unassign agent task h = ground arith

  -- Giving back succeeds exactly from the states that `is_returnable` lists, and then the task has
  -- no agent; otherwise the task keeps its state and its agent.
  pub unassign_cases :
      (task : Task J)
      → let (t, r) = unassign now task in
        ((is_returnable task.state ≡ true)
          × (r ≡ ok tt)
          × (t.state ≡ TaskState.ready)
          × (t.assigned_agent_id ≡ none))
        ⊎ ((is_returnable task.state ≡ false)
            × ((e : StateTransitionError) × (r ≡ err e))
            × (t ≡ task))
  unfolding unassign
  unassign_cases task = ground arith
