-- ===== src/Runtime/Governance/Resumption.antt =====
-- `resume_task` (crates/plexis-runtime/src/governance.rs) leaves a task with its agent.
use axonel.Prelude.{◌≡◌, ◌∙◌, true, false, is_some, some, arith}
use axonel.Prelude.Map
use axonel.Prelude.Map.{get-insert}
use axonel.Core.Ids.{TaskId, Instant}
use axonel.Core.State.Task.{TaskState}
use axonel.Core.Task as Task
use axonel.Core.Task.{Task}
use axonel.Core.Graph.Base.{TaskGraph}
use axonel.Core.Graph.Runnable.{is_runnable}
use axonel.Runtime.Governance.{Desk, append_event, resume_task}
use axonel.Runtime.Governance.Rows.{held_row, update_task_found}
use axonel.Runtime.Governance.Decisions.{IsKeyed}

module _ {J : Type 0} where
  transition_id :
      (now : Instant) (next : TaskState) (t : Task J) → (Task.transition_to now next t).0.id ≡ t.id
  unfolding Task.transition_to
  transition_id now next t = ground arith

  resume_found :
      (now : Instant) (id : TaskId) (s : Desk J) (t : Task J)
      → let moved = (Task.transition_to now TaskState.ready t).0 in
        Map.get s.tasks id ≡ some t
        → moved.id ≡ id
        → (resume_task now id s).0.tasks ≡ Map.insert moved.id (held_row moved t) s.tasks
  unfolding resume_task append_event
  resume_found now id s t h same =
      let moved = (Task.transition_to now TaskState.ready t).0 in
      let found : Map.get s.tasks moved.id ≡ some t = cc (h, same) in
      ground (arith, h, update_task_found moved t s found)

  -- Resuming a task that an agent still has leaves it with that agent, so that no graph offers it.
  pub resume_keeps_agent :
      (now : Instant) (id : TaskId) (s : Desk J) (t : Task J)
      → IsKeyed s
      → Map.get s.tasks id ≡ some t
      → is_some t.assigned_agent_id ≡ true
      → let (s', r) = resume_task now id s in
        (x : Task J) × (Map.get s'.tasks id ≡ some x)
        × (x.assigned_agent_id ≡ t.assigned_agent_id)
        × ((g : TaskGraph J) → is_runnable g id x ≡ false)
  unfolding Task.transition_to is_runnable
  resume_keeps_agent now id s t keyed ht has =
      let moved = (Task.transition_to now TaskState.ready t).0 in
      let same : moved.id ≡ id = transition_id now TaskState.ready t ∙ keyed.tasks_named id t ht in
      let agent : moved.assigned_agent_id ≡ t.assigned_agent_id = ground arith in
      (
        held_row moved t,
        rw (resume_found now id s t ht same)
            (ground (arith, get-insert moved.id (held_row moved t) s.tasks id)),
        agent,
        λ g. ground (arith, agent, has),
      )
