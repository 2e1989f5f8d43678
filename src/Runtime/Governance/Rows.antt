-- ===== src/Runtime/Governance/Rows.antt =====
-- The rows that the last steps of `submit_decision` (crates/plexis-runtime/src/governance.rs) write.
use axonel.Prelude.{◌≡◌, refl, some, Result, ok, arith}
use axonel.Prelude.Map
use axonel.Prelude.Map.{get-insert}
use axonel.Core.Task.{Task}
use axonel.Core.Approval.{ApprovalRecord}
use axonel.Runtime.Governance.{
  Desk, GovernanceError, GovernanceEvent, update_approval, update_task, append_event, settle,
}

abbrev filed_row : ApprovalRecord → ApprovalRecord → ApprovalRecord
filed_row a row = record row { state = a.state; reason = a.reason; decided_at = a.decided_at }

module _ {J : Type 0} where
  -- What `settle` leaves where both rows are there.
  pub record Settled (a : ApprovalRecord) (t : Task J) (s : Desk J)
      (r : Result GovernanceError ApprovalRecord) : Type 0 where
    pub succeeds : r ≡ ok a
    pub approval : ApprovalRecord
    pub filed : Map.get s.approvals a.id ≡ some approval
    pub verdict_kept : approval.state ≡ a.state
    pub held : Task J
    pub has : Map.get s.tasks t.id ≡ some held
    pub state_kept : held.state ≡ t.state
    pub agent_kept : held.assigned_agent_id ≡ t.assigned_agent_id

  abbrev pub held_row : Task J → Task J → Task J
  held_row t row = record t { workflow_id = row.workflow_id; created_at = row.created_at }

  update_approval_found :
      (a row : ApprovalRecord) (s : Desk J)
      → Map.get s.approvals a.id ≡ some row
      → update_approval a s
        ≡ (record s { approvals = Map.insert a.id (filed_row a row) s.approvals }, ok tt)
  unfolding update_approval
  update_approval_found a row s h = ground arith

  pub update_task_found :
      (t row : Task J) (s : Desk J)
      → Map.get s.tasks t.id ≡ some row
      → update_task t s ≡ (record s { tasks = Map.insert t.id (held_row t row) s.tasks }, ok tt)
  unfolding update_task
  update_task_found t row s h = ground arith

  settle_found :
      (a : ApprovalRecord) (t : Task J) (e : GovernanceEvent) (s : Desk J) (x : ApprovalRecord)
      (y : Task J)
      → Map.get s.approvals a.id ≡ some x
      → Map.get s.tasks t.id ≡ some y
      → settle (a, ok tt) t e s ≡ (
        append_event e (record s {
          approvals = Map.insert a.id (filed_row a x) s.approvals;
          tasks = Map.insert t.id (held_row t y) s.tasks;
        }),
        ok a,
      )
  unfolding settle
  settle_found a t e s x y ha ht = rw (update_approval_found a x s ha) (
      rw
        (update_task_found t y
          (record s { approvals = Map.insert a.id (filed_row a x) s.approvals }) ht)
        refl)

  pub settle-Settled :
      (a : ApprovalRecord) (t : Task J) (e : GovernanceEvent) (s : Desk J) (x : ApprovalRecord)
      (y : Task J)
      → Map.get s.approvals a.id ≡ some x
      → Map.get s.tasks t.id ≡ some y
      → let (s', r) = settle (a, ok tt) t e s in Settled a t s' r
  unfolding append_event
  settle-Settled a t e s x y ha ht = rw (settle_found a t e s x y ha ht) (record {
    succeeds = refl;
    approval = filed_row a x;
    filed = ground (arith, get-insert a.id (filed_row a x) s.approvals a.id);
    verdict_kept = refl;
    held = held_row t y;
    has = ground (arith, get-insert t.id (held_row t y) s.tasks t.id);
    state_kept = refl;
    agent_kept = refl;
  })
