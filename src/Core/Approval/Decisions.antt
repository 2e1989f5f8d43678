-- ===== src/Core/Approval/Decisions.antt =====
-- A decision on an approval is final.
use axonel.Prelude.{◌≡◌, Bool, true, false, Option, String, List, [], ◌∷◌, arith}
use axonel.Core.Ids.{Instant}
use axonel.Core.Approval.{
  ApprovalState, pending, approved, rejected, ApprovalRecord, approve, reject,
}

-- One answer of an operator: granted or not, when, and with which notes.
pub record Answer : Type 0 where
  pub granted : Bool
  pub at : Instant
  pub notes : Option String

pub answer : Answer → ApprovalRecord → ApprovalRecord
answer x a = elim x.granted [
  | true ↦ (approve x.at x.notes a).0
  | false ↦ (reject x.at x.notes a).0
]

pub answers : ApprovalRecord → List Answer → ApprovalRecord
answers a [] = a
answers a (x ∷ xs) = answers (answer x a) xs

abbrev pub verdict : Bool → ApprovalState
verdict true = approved
verdict false = rejected

state-answer_first :
    (x : Answer) (a : ApprovalRecord) → a.state ≡ pending → (answer x a).state ≡ verdict x.granted
unfolding answer approve reject
state-answer_first x a h = ground arith

state-answer_later :
    (x : Answer) (a : ApprovalRecord) (b : Bool)
    → a.state ≡ verdict b
    → (answer x a).state ≡ verdict b
unfolding answer approve reject
state-answer_later x a b h = ground arith

decided_stays :
    (a : ApprovalRecord) (b : Bool) (xs : List Answer)
    → a.state ≡ verdict b
    → (answers a xs).state ≡ verdict b
unfolding answers
decided_stays a b [] h = h
decided_stays a b (x ∷ xs) h = decided_stays (answer x a) b xs (state-answer_later x a b h)

-- The first answer to a pending approval decides it: whatever is answered after, granting or
-- refusing, the record keeps that verdict.
pub first_answer_decides :
    (a : ApprovalRecord) (x : Answer) (later : List Answer)
    → a.state ≡ pending
    → (answers a (x ∷ later)).state ≡ verdict x.granted
unfolding answers
first_answer_decides a x later h =
    decided_stays (answer x a) x.granted later (state-answer_first x a h)
