-- ===== src/Tests/Records.antt =====
-- Tasks, leases, executions, approvals and commands (crates/plexis-core/src) at concrete values.
use axonel.Prelude.{ℕ, ◌≡◌, none, List, [], ◌∷◌, ok, err, arith, ltb, if◌then◌else◌}
use axonel.Core.State.Command.{CommandState}
use axonel.Core.Lease.{Lease, expired, generation_mismatch, reassign, validate_token}
use axonel.Core.Lease.Tokens.{reassign_fences}
use axonel.Core.Execution as Execution
use axonel.Core.Execution.Records.{Mark, IsConsistent, IsRising, marks, marks-IsConsistent}
use axonel.Core.Approval as Approval
use axonel.Core.Approval.{ApprovalRecord}
use axonel.Core.Command as Command
use axonel.Core.Command.{Command, mark_dispatched, mark_failed}

-- Held by agent 5 until time 20, under token 1.
abbrev a_lease : Lease
a_lease = record {
  id = 2;
  task_id = 1;
  agent_id = 5;
  generation = 1;
  acquired_at = 10;
  expires_at = 20;
}

reassign_fences_example :
    let moved = reassign 6 10 25 a_lease in
    (validate_token moved 1 26 ≡ err (generation_mismatch 2 1))
    × (moved.agent_id ≡ 6)
    × (validate_token moved 2 25 ≡ (if ltb 0 10 then ok tt else err (expired moved.expires_at 25)))
reassign_fences_example = reassign_fences a_lease 6 10 25 26 (omega arith)

abbrev calls : List (ℕ × Mark)
calls = (12, Mark.complete) ∷ (13, Mark.run) ∷ (13, Mark.fail "no") ∷ (15, Mark.run) ∷ []

calls-IsRising : IsRising 10 calls
calls-IsRising = (omega arith, (omega arith, (omega arith, (omega arith, tt))))

marks-IsConsistent_example : IsConsistent 15 (marks (Execution.new tt 3 10 1 5 1) calls)
marks-IsConsistent_example = marks-IsConsistent tt 3 10 1 5 1 calls calls-IsRising

abbrev an_approval : ApprovalRecord
an_approval = record {
  id = 4;
  task_id = 1;
  workflow_id = 0;
  requested_by = none;
  action_description = "merge";
  state = Approval.pending;
  reason = none;
  created_at = 10;
  decided_at = none;
}

abbrev a_command : Command (Unit {0})
a_command = record {
  id = 8;
  target = Command.CommandTarget.task 1;
  command_type = Command.CommandType.execute_task;
  payload = tt;
  state = CommandState.queued;
  idempotency_key = "key";
  attempts = 0;
  max_attempts = 3;
  created_at = 10;
  dispatched_at = none;
  completed_at = none;
}
