-- ===== src/Change/Rows.antt =====
-- What holds of one change request between two requests, and that each way in which the handlers
-- of apps/api/src/aiops_x_api/modules/change/api.py write a row keeps it.
use aiops_x_enterprise_new.Prelude.{
  ℕ, ◌≤◌, ◌==◌, ◌≡◌, refl, Bool, true, false, Option, none, some, List, ◌∷◌, arith, All, Bool-cases,
  inl, inr, if◌then◌else◌, leb,
}
use aiops_x_enterprise_new.Core.Errors.{ok}
use aiops_x_enterprise_new.Change.Models.{
  ChangeStatus, ChangeRequest, ChangeApprovalDecision, ChangeCreate, ChangeUpdate,
  ChangeStatusUpdate, Decision, ApprovalDecisionCreate,
}
use aiops_x_enterprise_new.Change.Policy.{
  required_approval_count, validate_status_transition, controlled, given, same_status, to_status,
}
use aiops_x_enterprise_new.Change.Effects.{Call, approved_count}
use aiops_x_enterprise_new.Change.Draft.{draft_change, patched_change}
use aiops_x_enterprise_new.Change.Approval.{submit_target, submitted, new_decision, decided}
use aiops_x_enterprise_new.Change.Execution.{in_window, check_start, is_start, moved}

-- The states that a change reaches only by its approval.
abbrev pub is_cleared : ChangeStatus → Bool
is_cleared ChangeStatus.approved = true
is_cleared ChangeStatus.scheduled = true
is_cleared ChangeStatus.in_progress = true
is_cleared ChangeStatus.validating = true
is_cleared ChangeStatus.completed = true
is_cleared ChangeStatus.failed = true
is_cleared ChangeStatus.rolled_back = true
is_cleared _ = false

-- The states from the start of its execution on.
abbrev pub is_begun : ChangeStatus → Bool
is_begun ChangeStatus.in_progress = true
is_begun ChangeStatus.validating = true
is_begun ChangeStatus.completed = true
is_begun ChangeStatus.failed = true
is_begun ChangeStatus.rolled_back = true
is_begun _ = false

-- No decision on the change is its requester's.
abbrev pub NotByRequester : ChangeRequest → ChangeApprovalDecision → Type 0
NotByRequester c d = (d.change_id == c.id) ≡ true → (d.approver_id == c.requested_by) ≡ false

abbrev pub started_in_window : ChangeRequest → Option ℕ → Bool
started_in_window c none = true
started_in_window c (some t) = in_window c.scheduled_start c.scheduled_end t

pub record IsSound (ds : List ChangeApprovalDecision) (c : ChangeRequest) : Type 0 where
  pub policy : c.required_approvals ≡ required_approval_count c.risk_level c.gxp_impact
  pub others : All (NotByRequester c) ds
  pub cleared : is_cleared c.status ≡ true → c.required_approvals ≤ approved_count c.id ds
  pub stamped : is_cleared c.status ≡ true → given c.approved_at ≡ true
  pub begun : is_begun c.status ≡ true → given c.started_at ≡ true
  pub idle : is_begun c.status ≡ false → c.started_at ≡ none
  pub window : controlled c.risk_level c.gxp_impact ≡ true → started_in_window c c.started_at ≡ true

pub draft_change-IsSound :
    (call : Call) (p : ChangeCreate) (ds : List ChangeApprovalDecision)
    → All (NotByRequester (draft_change call p)) ds
    → IsSound ds (draft_change call p)
unfolding draft_change
draft_change-IsSound call p ds h = record {
  policy = refl;
  others = h;
  cleared = λ e. cc;
  stamped = λ e. cc;
  begun = λ e. cc;
  idle = λ e. refl;
  window = λ e. refl;
}

pub patched_change-IsSound :
    (u : ChangeUpdate) (c c' : ChangeRequest) (ds : List ChangeApprovalDecision)
    → same_status c.status ChangeStatus.draft ≡ true
    → c' ≡ patched_change u c'.title c'.description c
    → IsSound ds c
    → IsSound ds (patched_change u c'.title c'.description c)
unfolding patched_change
patched_change-IsSound u c c' ds d e h = record {
  policy = h.policy;
  others = h.others;
  cleared = h.cleared;
  stamped = h.stamped;
  begun = h.begun;
  idle = h.idle;
  window = λ k. ground (arith, h.idle);
}

pub submitted-IsSound :
    (now : ℕ) (c : ChangeRequest) (ds : List ChangeApprovalDecision)
    → validate_status_transition c.status (submit_target c) ≡ ok tt
    → IsSound ds c
    → IsSound ds (submitted now c)
unfolding submitted validate_status_transition
submitted-IsSound now c ds v h = record {
  policy = h.policy;
  others = h.others;
  cleared = λ e. ground arith;
  stamped = λ e. ground arith;
  begun = λ e. ground arith;
  idle = λ e. ground arith;
  window = h.window;
}

pub moved-IsSound :
    (now : ℕ) (u : ChangeStatusUpdate) (c : ChangeRequest) (ds : List ChangeApprovalDecision)
    → validate_status_transition c.status (to_status u.status) ≡ ok tt
    → (if is_start u.status then check_start now c else ok tt) ≡ ok tt
    → IsSound ds c
    → IsSound ds (moved now u c)
unfolding moved validate_status_transition check_start
moved-IsSound now u c ds v r h = record {
  policy = h.policy;
  others = h.others;
  cleared = λ e. ground arith;
  stamped = λ e. ground arith;
  begun = λ e. ground arith;
  idle = λ e. ground arith;
  window = λ e. ground arith;
}

decided_row :
    (now : ℕ) (decision : Decision) (d : ChangeApprovalDecision) (c : ChangeRequest)
    (ds : List ChangeApprovalDecision)
    → same_status c.status ChangeStatus.pending_approval ≡ true
    → (c.requested_by == d.approver_id) ≡ false
    → IsSound ds c
    → IsSound (d ∷ ds) (decided now decision (d ∷ ds) c)
unfolding decided
decided_row now Decision.rejected d c ds pending n h = record {
  policy = h.policy;
  others = (λ e. ground arith, h.others);
  cleared = λ e. cc;
  stamped = λ e. cc;
  begun = λ e. cc;
  idle = λ e. ground (arith, h.idle);
  window = h.window;
}
decided_row now Decision.approved d c ds pending n h =
    elim (Bool-cases (leb c.required_approvals (approved_count c.id (d ∷ ds)))) [
      | inl enough ↦ rw enough (record {
        policy = h.policy;
        others = (λ e. ground arith, h.others);
        cleared = λ e. ground arith;
        stamped = λ e. refl;
        begun = λ e. cc;
        idle = λ e. ground (arith, h.idle);
        window = h.window;
      })
      | inr short ↦ rw short (record {
        policy = h.policy;
        others = (λ e. ground arith, h.others);
        cleared = λ e. ground arith;
        stamped = λ e. ground arith;
        begun = h.begun;
        idle = h.idle;
        window = h.window;
      })
    ]

-- The row that was decided on, and the new decision beside the old ones.
pub decided-IsSound :
    (call : Call) (p : ApprovalDecisionCreate) (c : ChangeRequest)
    (ds : List ChangeApprovalDecision)
    → same_status c.status ChangeStatus.pending_approval ≡ true
    → (c.requested_by == call.principal.user_id) ≡ false
    → IsSound ds c
    → let ds' = new_decision call p c ∷ ds in
      IsSound ds' (decided call.readings.now p.decision ds' c)
unfolding new_decision
decided-IsSound call p c ds pending n h =
    decided_row call.readings.now p.decision (new_decision call p c) c ds pending n h

-- A decision on another change leaves a row as sound as it was.
pub other_decision-IsSound :
    (call : Call) (p : ApprovalDecisionCreate) (c x : ChangeRequest)
    (ds : List ChangeApprovalDecision)
    → (x.id == c.id) ≡ false
    → IsSound ds x
    → IsSound (new_decision call p c ∷ ds) x
unfolding new_decision
other_decision-IsSound call p c x ds n h = record {
  policy = h.policy;
  others = (λ e. ground arith, h.others);
  cleared = λ e. ground (arith, h.cleared);
  stamped = h.stamped;
  begun = h.begun;
  idle = h.idle;
  window = h.window;
}
