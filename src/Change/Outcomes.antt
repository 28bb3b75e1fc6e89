-- ===== src/Change/Outcomes.antt =====
-- What a handler of apps/api/src/aiops_x_api/modules/change/api.py that succeeds has found and has
-- written: one lemma for each, after which the handlers stay shut.
use aiops_x_enterprise_new.Prelude.{
  ℕ, ◌==◌, ◌≡◌, true, false, not, ◌&&◌, none, some, ◌∷◌, arith, inl, inr, Option-cases,
  if◌then◌else◌,
}
use aiops_x_enterprise_new.Core.Errors.{ok}
use aiops_x_enterprise_new.References.{Directory}
use aiops_x_enterprise_new.Change.Models.{
  ChangeStatus, ChangeRequest, ChangeCreate, ChangeUpdate, ApprovalDecisionCreate,
  ChangeStatusUpdate, ChangeDb,
}
use aiops_x_enterprise_new.Change.Policy.{
  same_status, validate_status_transition, controlled, to_status,
}
use aiops_x_enterprise_new.Change.Effects.{
  Call, find_change, get_change_in_scope, put_change, has_change, has_decided, audit_change,
}
use aiops_x_enterprise_new.Change.Draft.{draft_change, create_tx, patched_change, update_tx}
use aiops_x_enterprise_new.Change.Approval.{
  plans_complete, submit_target, submitted, submit_tx, new_decision, decided, decide_tx,
}
use aiops_x_enterprise_new.Change.Execution.{is_start, check_start, moved, status_tx}

pub record Decides (call : Call) (id : ℕ) (p : ApprovalDecisionCreate) (s s' : ChangeDb)
    (c c' : ChangeRequest) : Type 0 where
  pub found : find_change call.principal.tenant_id id s.changes ≡ some c
  pub was_pending : same_status c.status ChangeStatus.pending_approval ≡ true
  pub not_own : (c.requested_by == call.principal.user_id) ≡ false
  pub first_time : has_decided c.id call.principal.user_id s.decisions ≡ false
  pub row : c' ≡ decided call.readings.now p.decision (new_decision call p c ∷ s.decisions) c
  pub changes : s'.changes ≡ put_change c' s.changes
  pub decisions : s'.decisions ≡ new_decision call p c ∷ s.decisions

decide_found :
    (call : Call) (id : ℕ) (p : ApprovalDecisionCreate) (s s' : ChangeDb) (c c' : ChangeRequest)
    → find_change call.principal.tenant_id id s.changes ≡ some c
    → decide_tx call id p s ≡ ok (c', s')
    → Decides call id p s s' c c'
unfolding get_change_in_scope audit_change decide_tx
decide_found call id p s s' c c' e h = ground arith

decide_missing :
    (call : Call) (id : ℕ) (p : ApprovalDecisionCreate) (s s' : ChangeDb) (c' : ChangeRequest)
    → find_change call.principal.tenant_id id s.changes ≡ none
    → decide_tx call id p s ≡ ok (c', s')
    → ⊥
unfolding get_change_in_scope decide_tx
decide_missing call id p s s' c' e h = ground arith

pub decide_tx-ok :
    (call : Call) (id : ℕ) (p : ApprovalDecisionCreate) (s s' : ChangeDb) (c' : ChangeRequest)
    → decide_tx call id p s ≡ ok (c', s')
    → (c : ChangeRequest) × Decides call id p s s' c c'
decide_tx-ok call id p s s' c' h =
    elim (Option-cases (find_change call.principal.tenant_id id s.changes)) [
      | inl e ↦ absurd (decide_missing call id p s s' c' e h)
      | inr (c, e) ↦ (c, decide_found call id p s s' c c' e h)
    ]

pub record Submits (call : Call) (id : ℕ) (s s' : ChangeDb) (c c' : ChangeRequest) : Type 0 where
  pub found : find_change call.principal.tenant_id id s.changes ≡ some c
  pub allowed : validate_status_transition c.status (submit_target c) ≡ ok tt
  pub planned : (controlled c.risk_level c.gxp_impact && not (plans_complete c)) ≡ false
  pub row : c' ≡ submitted call.readings.now c
  pub changes : s'.changes ≡ put_change c' s.changes
  pub decisions : s'.decisions ≡ s.decisions

submit_found :
    (call : Call) (id : ℕ) (s s' : ChangeDb) (c c' : ChangeRequest)
    → find_change call.principal.tenant_id id s.changes ≡ some c
    → submit_tx call id s ≡ ok (c', s')
    → Submits call id s s' c c'
unfolding get_change_in_scope audit_change submit_tx
submit_found call id s s' c c' e h = ground arith

submit_missing :
    (call : Call) (id : ℕ) (s s' : ChangeDb) (c' : ChangeRequest)
    → find_change call.principal.tenant_id id s.changes ≡ none
    → submit_tx call id s ≡ ok (c', s')
    → ⊥
unfolding get_change_in_scope submit_tx
submit_missing call id s s' c' e h = ground arith

pub submit_tx-ok :
    (call : Call) (id : ℕ) (s s' : ChangeDb) (c' : ChangeRequest)
    → submit_tx call id s ≡ ok (c', s')
    → (c : ChangeRequest) × Submits call id s s' c c'
submit_tx-ok call id s s' c' h =
    elim (Option-cases (find_change call.principal.tenant_id id s.changes)) [
      | inl e ↦ absurd (submit_missing call id s s' c' e h)
      | inr (c, e) ↦ (c, submit_found call id s s' c c' e h)
    ]

pub record Moves (call : Call) (id : ℕ) (u : ChangeStatusUpdate) (s s' : ChangeDb)
    (c c' : ChangeRequest) : Type 0 where
  pub found : find_change call.principal.tenant_id id s.changes ≡ some c
  pub allowed : validate_status_transition c.status (to_status u.status) ≡ ok tt
  pub ready : (if is_start u.status then check_start call.readings.now c else ok tt) ≡ ok tt
  pub row : c' ≡ moved call.readings.now u c
  pub changes : s'.changes ≡ put_change c' s.changes
  pub decisions : s'.decisions ≡ s.decisions

status_found :
    (call : Call) (dir : Directory) (id : ℕ) (u : ChangeStatusUpdate) (s s' : ChangeDb)
    (c c' : ChangeRequest)
    → find_change call.principal.tenant_id id s.changes ≡ some c
    → status_tx call dir id u s ≡ ok (c', s')
    → Moves call id u s s' c c'
unfolding get_change_in_scope audit_change status_tx
status_found call dir id u s s' c c' e h = ground arith

status_missing :
    (call : Call) (dir : Directory) (id : ℕ) (u : ChangeStatusUpdate) (s s' : ChangeDb)
    (c' : ChangeRequest)
    → find_change call.principal.tenant_id id s.changes ≡ none
    → status_tx call dir id u s ≡ ok (c', s')
    → ⊥
unfolding get_change_in_scope status_tx
status_missing call dir id u s s' c' e h = ground arith

pub status_tx-ok :
    (call : Call) (dir : Directory) (id : ℕ) (u : ChangeStatusUpdate) (s s' : ChangeDb)
    (c' : ChangeRequest)
    → status_tx call dir id u s ≡ ok (c', s')
    → (c : ChangeRequest) × Moves call id u s s' c c'
status_tx-ok call dir id u s s' c' h =
    elim (Option-cases (find_change call.principal.tenant_id id s.changes)) [
      | inl e ↦ absurd (status_missing call dir id u s s' c' e h)
      | inr (c, e) ↦ (c, status_found call dir id u s s' c c' e h)
    ]

pub record Creates (call : Call) (p : ChangeCreate) (s s' : ChangeDb) (c' : ChangeRequest)
    : Type 0 where
  pub fresh : has_change call.readings.change_id s.changes ≡ false
  pub row : c' ≡ draft_change call p
  pub changes : s'.changes ≡ c' ∷ s.changes
  pub decisions : s'.decisions ≡ s.decisions

pub create_tx-ok :
    (call : Call) (dir : Directory) (p : ChangeCreate) (s s' : ChangeDb) (c' : ChangeRequest)
    → create_tx call dir p s ≡ ok (c', s')
    → Creates call p s s' c'
unfolding audit_change create_tx
create_tx-ok call dir p s s' c' h = ground arith

pub record Updates (call : Call) (id : ℕ) (u : ChangeUpdate) (s s' : ChangeDb)
    (c c' : ChangeRequest) : Type 0 where
  pub found : find_change call.principal.tenant_id id s.changes ≡ some c
  pub was_draft : same_status c.status ChangeStatus.draft ≡ true
  pub row : c' ≡ patched_change u c'.title c'.description c
  pub changes : s'.changes ≡ put_change c' s.changes
  pub decisions : s'.decisions ≡ s.decisions

update_found :
    (call : Call) (dir : Directory) (id : ℕ) (u : ChangeUpdate) (s s' : ChangeDb)
    (c c' : ChangeRequest)
    → find_change call.principal.tenant_id id s.changes ≡ some c
    → update_tx call dir id u s ≡ ok (c', s')
    → Updates call id u s s' c c'
unfolding get_change_in_scope audit_change update_tx
update_found call dir id u s s' c c' e h = ground arith

update_missing :
    (call : Call) (dir : Directory) (id : ℕ) (u : ChangeUpdate) (s s' : ChangeDb)
    (c' : ChangeRequest)
    → find_change call.principal.tenant_id id s.changes ≡ none
    → update_tx call dir id u s ≡ ok (c', s')
    → ⊥
unfolding get_change_in_scope update_tx
update_missing call dir id u s s' c' e h = ground arith

pub update_tx-ok :
    (call : Call) (dir : Directory) (id : ℕ) (u : ChangeUpdate) (s s' : ChangeDb)
    (c' : ChangeRequest)
    → update_tx call dir id u s ≡ ok (c', s')
    → (c : ChangeRequest) × Updates call id u s s' c c'
update_tx-ok call dir id u s s' c' h =
    elim (Option-cases (find_change call.principal.tenant_id id s.changes)) [
      | inl e ↦ absurd (update_missing call dir id u s s' c' e h)
      | inr (c, e) ↦ (c, update_found call dir id u s s' c c' e h)
    ]
