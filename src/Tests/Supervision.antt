-- ===== src/Tests/Supervision.antt =====
-- Approvals, limits and budgets (crates/plexis-runtime) at concrete values.
use axonel.Prelude.{◌≡◌, refl, true, false, some, Option, [], ◌∷◌, ok, err, arith}
use axonel.Prelude.Int.{pos}
use axonel.Prelude.Map
use axonel.Core.State.Task.{TaskState}
use axonel.Core.Task.{Task}
use axonel.Core.Approval as Approval
use axonel.Core.Approval.{ApprovalRecord}
use axonel.Core.Graph.Base.{TaskGraph}
use axonel.Core.Graph.Runnable.{is_runnable}
use axonel.Runtime.Governance.{Desk, submit_decision, resume_task, already_decided}
use axonel.Runtime.Governance.Decisions.{
  IsKeyed, Decided, submit_decision-Decided, submit_decision_once,
}
use axonel.Runtime.Governance.Resumption.{resume_keeps_agent}
use axonel.Runtime.Resources.{idle}
use axonel.Runtime.Resources.Limiter.{Steps, overshoot_reached}

-- Agent 5 waits for a human.
abbrev held_task : Task (Unit {0})
held_task = record {
  id = 1;
  workflow_id = 0;
  workspace_id = Option.none;
  objective = "a task";
  description = Option.none;
  parent_id = Option.none;
  state = TaskState.needs_human;
  priority = pos 0;
  criteria = [];
  assigned_agent_id = some 5;
  attempts = 0;
  max_attempts = 3;
  metadata = tt;
  created_at = 7;
  updated_at = 7;
}

abbrev an_approval : ApprovalRecord
an_approval = record {
  id = 4;
  task_id = 1;
  workflow_id = 0;
  requested_by = some 5;
  action_description = "merge";
  state = Approval.pending;
  reason = Option.none;
  created_at = 10;
  decided_at = Option.none;
}

abbrev desk : Desk (Unit {0})
desk = record {
  workflows = 0 ∷ [];
  tasks = (1, held_task) ∷ [];
  approvals = (4, an_approval) ∷ [];
  events = [];
}

desk_approval : Map.get desk.approvals 4 ≡ some an_approval
unfolding Map.get
desk_approval = refl

desk_task : Map.get desk.tasks 1 ≡ some held_task
unfolding Map.get
desk_task = refl

desk-IsKeyed : IsKeyed desk
unfolding Map.get
desk-IsKeyed = record {
  approvals_named = λ k a e. ground arith;
  tasks_named = λ k t e. ground arith;
}

submit_decision-Decided_example :
    let (s', r) = submit_decision 11 12 4 true Option.none desk in
    ((x : ApprovalRecord) × (r ≡ ok x)) × Decided 4 true 1 held_task s'
submit_decision-Decided_example =
    submit_decision-Decided 11 12 4 true Option.none desk an_approval held_task desk-IsKeyed
      desk_approval refl desk_task refl

submit_decision_once_example :
    let s' = (submit_decision 11 12 4 false Option.none desk).0 in
    submit_decision 13 14 4 true Option.none s' ≡ (s', err (already_decided 4 Approval.rejected))
submit_decision_once_example =
    submit_decision_once 11 12 13 14 4 false true Option.none Option.none desk an_approval held_task
      desk-IsKeyed desk_approval refl desk_task refl

resume_keeps_agent_example :
    let (s', r) = resume_task 11 1 desk in
    (x : Task (Unit {0})) × (Map.get s'.tasks 1 ≡ some x)
    × (x.assigned_agent_id ≡ some 5)
    × ((g : TaskGraph (Unit {0})) → is_runnable g 1 x ≡ false)
resume_keeps_agent_example = resume_keeps_agent 11 1 desk held_task desk-IsKeyed desk_task refl

overshoot_reached_example : Steps 10 4 idle (record { active_count = 13; entering = 0 })
overshoot_reached_example = overshoot_reached 9 3
