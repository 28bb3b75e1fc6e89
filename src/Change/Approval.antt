-- ===== src/Change/Approval.antt =====
-- apps/api/src/aiops_x_api/modules/change/api.py: `submit_change` and `decide_change`.
use Prim.Native.String.{String}
use aiops_x_enterprise_new.Prelude.{ℕ, ◌==◌, Bool, not, ◌&&◌, some, List, ◌∷◌, leb, if◌then◌else◌}
use aiops_x_enterprise_new.Core.Errors.{Result, ok, app_error, guard, ◌>>=◌, ◌>>◌}
use aiops_x_enterprise_new.Core.Json.{number, text, end, field}
use aiops_x_enterprise_new.Identity.Scope.{require_permission, ensure_project_scope}
use aiops_x_enterprise_new.Change.Models.{
  ChangeStatus, ChangeRequest, ChangeApprovalDecision, ApprovalDecisionCreate, Decision, ChangeDb,
}
use aiops_x_enterprise_new.Change.Policy.{
  validate_status_transition, controlled, filled, same_status, status_text,
}
use aiops_x_enterprise_new.Change.Effects.{
  Call, get_change_in_scope, put_change, has_decided, approved_count, timeline_entry, audit_change,
  commit,
}

-- `all((change.precheck_plan, …))`.
abbrev pub plans_complete : ChangeRequest → Bool
plans_complete c =
    filled c.precheck_plan
    && (filled c.implementation_plan
        && (filled c.validation_plan && (filled c.success_criteria && filled c.rollback_plan)))

abbrev pub submit_target : ChangeRequest → ChangeStatus
submit_target c =
    if c.required_approvals == 0 then ChangeStatus.approved else ChangeStatus.pending_approval

-- The fields that a submission sets.
unfoldable pub submitted : ℕ → ChangeRequest → ChangeRequest
submitted now c =
    let target = submit_target c in
    record c {
      status = target;
      submitted_at = some now;
      approved_at = if same_status target ChangeStatus.approved then some now else c.approved_at;
    }

unfoldable pub submit_tx : Call → ℕ → ChangeDb → Result (ChangeRequest × ChangeDb)
unfolding submitted
submit_tx call id s = do
  let caller = call.principal
  needed ← require_permission "change:write" caller
  change ← get_change_in_scope caller.tenant_id id s
  ensure_project_scope caller needed change.project_id
  validate_status_transition change.status (submit_target change)
  guard (not (controlled change.risk_level change.gxp_impact && not (plans_complete change)))
      (app_error "AIOPS_8212" 422)
  let changed = submitted call.readings.now change
  ok (
    changed,
    audit_change call "change.submitted" changed
        (field "required_approvals" (number changed.required_approvals) end)
        (record s {
          changes = put_change changed s.changes;
          timeline =
              timeline_entry call.readings changed caller.user_id changed.status "变更已提交" end
              ∷ s.timeline;
        }),
  )

unfoldable pub submit_change : Call → ℕ → ChangeDb → Result ChangeRequest × ChangeDb
unfolding submit_tx commit
submit_change call id s = commit (submit_tx call id s) s

unfoldable pub new_decision : Call → ApprovalDecisionCreate → ChangeRequest → ChangeApprovalDecision
new_decision call p c = record {
  id = call.readings.decision_id;
  change_id = c.id;
  tenant_id = c.tenant_id;
  decision = p.decision;
  approver_id = call.principal.user_id;
  comment = call.runtime.strip p.comment;
  decided_at = call.readings.decided_at;
}

-- The state after a decision; the count includes the decision that was just added.
unfoldable pub decided : ℕ → Decision → List ChangeApprovalDecision → ChangeRequest → ChangeRequest
decided now Decision.rejected decisions c = record c { status = ChangeStatus.rejected }
decided now Decision.approved decisions c =
    if leb c.required_approvals (approved_count c.id decisions)
    then record c { status = ChangeStatus.approved; approved_at = some now }
    else c

abbrev pub decision_text : Decision → String
decision_text Decision.approved = "approved"
decision_text Decision.rejected = "rejected"

unfoldable pub decide_tx :
    Call → ℕ → ApprovalDecisionCreate → ChangeDb → Result (ChangeRequest × ChangeDb)
unfolding new_decision decided
decide_tx call id p s = do
  let caller = call.principal
  needed ← require_permission "change:approve" caller
  change ← get_change_in_scope caller.tenant_id id s
  ensure_project_scope caller needed change.project_id
  guard (same_status change.status ChangeStatus.pending_approval) (app_error "AIOPS_8213" 409)
  guard (not (change.requested_by == caller.user_id)) (app_error "AIOPS_8214" 403)
  guard (not (has_decided change.id caller.user_id s.decisions)) (app_error "AIOPS_8215" 409)
  let decisions = new_decision call p change ∷ s.decisions
  let changed = decided call.readings.now p.decision decisions change
  ok (
    changed,
    audit_change call "change.approval.decided" changed
        (field "decision" (text (decision_text p.decision))
          (field "resulting_status" (text (status_text changed.status)) end))
        (record s {
          changes = put_change changed s.changes;
          decisions = decisions;
          timeline =
              timeline_entry call.readings changed caller.user_id changed.status "变更审批已处理"
                (field "decision" (text (decision_text p.decision)) end)
              ∷ s.timeline;
        }),
  )

unfoldable pub decide_change :
    Call → ℕ → ApprovalDecisionCreate → ChangeDb → Result ChangeRequest × ChangeDb
unfolding decide_tx commit
decide_change call id p s = commit (decide_tx call id p s) s
