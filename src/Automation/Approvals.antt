-- ===== src/Automation/Approvals.antt =====
-- apps/api/src/aiops_x_api/modules/automation/api.py: `decide_approval`.
use Prim.Native.String.{◌++◌}
use aiops_x_enterprise_new.Prelude.{
  ℕ, ◌+◌, ◌==◌, Bool, true, false, not, ◌&&◌, some, List, [], ◌∷◌, some_of, leb, ltb, if◌then◌else◌,
}
use aiops_x_enterprise_new.Core.Errors.{Result, ok, app_error, guard, required, ◌>>=◌, ◌>>◌}
use aiops_x_enterprise_new.Core.Json.{text, end, field}
use aiops_x_enterprise_new.Core.Table.{find_where, find_row}
use aiops_x_enterprise_new.Identity.Principal.{Principal}
use aiops_x_enterprise_new.Identity.Scope.{require_permission, ensure_project_scope}
use aiops_x_enterprise_new.Change.Models.{Decision}
use aiops_x_enterprise_new.Change.Policy.{risk_text}
use aiops_x_enterprise_new.Change.Effects.{is_approval}
use aiops_x_enterprise_new.Change.Approval.{decision_text}
use aiops_x_enterprise_new.Automation.Models.{
  JobStatus, JobApproval, ApprovalStatus, RunbookVersion, AutomationJob, ApprovalRequest,
  ApprovalDecision, ApprovalDecisionCreate,
}
use aiops_x_enterprise_new.Agents.Database.{
  ControlDb, Catalog, ControlCall, job_row, put_job, put_approval, audit_user, settle,
}
use aiops_x_enterprise_new.Automation.Jobs.{enqueue_automation_task}

abbrev pub is_pending : ApprovalStatus → Bool
is_pending ApprovalStatus.pending = true
is_pending _ = false

abbrev pub has_voted : ℕ → ℕ → List ApprovalDecision → Bool
has_voted approval approver decisions =
    some_of
      (λ (d : ApprovalDecision). d.approval_request_id == approval && d.approver_id == approver)
      decisions

-- `select(func.count()).where(approval_request_id == …, decision == "approved")`.
abbrev pub approvals_given : ℕ → List ApprovalDecision → ℕ
approvals_given approval [] = 0
approvals_given approval (d ∷ rest) =
    let n = approvals_given approval rest in
    if d.approval_request_id == approval && is_approval d.decision then n + 1 else n

-- What the checks have found.
pub record ApprovalFacts : Type 0 where
  pub approval : ApprovalRequest
  pub job : AutomationJob

unfoldable pub check_approval_request :
    ControlCall → Principal → ℕ → ControlDb → Result ApprovalFacts
check_approval_request call caller id s = do
  needed ← require_permission "approval:decide" caller
  approval ←
      required
        (find_where (λ (a : ApprovalRequest). a.id)
          (λ (a : ApprovalRequest). a.tenant_id == caller.tenant_id) id s.approvals)
        (app_error "AIOPS_6304" 404)
  ensure_project_scope caller needed approval.project_id
  guard (is_pending approval.status && ltb call.readings.now approval.expires_at)
      (app_error "AIOPS_6301" 409)
  guard (not (approval.requester_id == caller.user_id)) (app_error "AIOPS_6302" 403)
  guard (not (has_voted approval.id caller.user_id s.decisions)) (app_error "AIOPS_6303" 409)
  job ← required (job_row approval.job_id s) (app_error "AIOPS_6204" 404)
  ok (record { approval = approval; job = job })

unfoldable pub new_vote :
    ControlCall → Principal → ApprovalDecisionCreate → ApprovalRequest → ApprovalDecision
new_vote call caller p a = record {
  id = call.readings.row_id;
  approval_request_id = a.id;
  approver_id = caller.user_id;
  decision = p.decision;
  comment = call.runtime.strip p.comment;
  decided_at = call.readings.later;
}

abbrev pub resolved : ApprovalStatus → ℕ → ApprovalRequest → ApprovalRequest
resolved status now a = record a { status = status; resolved_at = some now }

abbrev pub rejected_job : AutomationJob → AutomationJob
rejected_job job = record job {
  status = JobStatus.rejected;
  approval_status = JobApproval.rejected;
}

abbrev pub released_job : AutomationJob → AutomationJob
released_job job = record job { status = JobStatus.queued; approval_status = JobApproval.approved }

abbrev pub is_settled : ApprovalRequest → List ApprovalDecision → Bool
is_settled a decisions = leb a.required_approvals (approvals_given a.id decisions)

-- The approval and its job after a decision, which is among the decisions already.
unfoldable pub apply_vote :
    ControlCall
    → Catalog
    → Decision
    → ApprovalFacts
    → ControlDb
    → Result (ApprovalRequest × ControlDb)
unfolding enqueue_automation_task
apply_vote call c Decision.rejected f s =
    let a = resolved ApprovalStatus.rejected call.readings.now f.approval in
    ok (a, put_job (rejected_job f.job) (put_approval a s))
apply_vote call c Decision.approved f s =
    let a = resolved ApprovalStatus.approved call.readings.now f.approval in
    let release =
      required (find_row (λ (v : RunbookVersion). v.id) f.job.runbook_version_id c.versions)
        (app_error "AIOPS_6006" 404)
      >>= λ version.
          enqueue_automation_task call version.timeout_seconds (released_job f.job)
            (put_job (released_job f.job) (put_approval a s))
          >>= λ s'. ok (a, s') in
    if is_settled f.approval s.decisions then release else ok (f.approval, s)

unfoldable pub decide_approval_tx :
    ControlCall
    → Principal
    → Catalog
    → ℕ
    → ApprovalDecisionCreate
    → ControlDb
    → Result (ApprovalRequest × ControlDb)
unfolding check_approval_request new_vote apply_vote
decide_approval_tx call caller c id p s = do
  f ← check_approval_request call caller id s
  (a, s') ←
      apply_vote call c p.decision f
        (record s { decisions = new_vote call caller p f.approval ∷ s.decisions })
  ok (
    a,
    audit_user call caller ("approval." ++ decision_text p.decision) "approval_request"
        f.approval.project_id f.approval.id
        (field "job_id" (text (call.runtime.uuid_text f.job.id))
          (field "risk_level" (text (risk_text f.approval.risk_level)) end))
        s',
  )

unfoldable pub decide_approval :
    ControlCall
    → Principal
    → Catalog
    → ℕ
    → ApprovalDecisionCreate
    → ControlDb
    → Result ApprovalRequest × ControlDb
unfolding decide_approval_tx settle
decide_approval call caller c id p s = settle (decide_approval_tx call caller c id p s) s
