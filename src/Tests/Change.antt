-- ===== src/Tests/Change.antt =====
-- Runs of change requests.
use mathlib.Core.List.{Memᴰ}
use aiops_x_enterprise_new.Prelude.{
  ℕ, ◌≤◌, ◌≡◌, refl, sym, subst, ◌≢◌, true, false, none, some, List, [], ◌∷◌, All, length,
}
use aiops_x_enterprise_new.Core.Json.{end, Fields, merge, set_field}
use aiops_x_enterprise_new.Identity.Principal.{AccessLevel, Principal}
use aiops_x_enterprise_new.References.{
  require_refs, get_project_in_tenant, require_evidence_refs, require_asset_refs,
  require_incident_refs, require_automation_job_ref,
}
use aiops_x_enterprise_new.Change.Models
use aiops_x_enterprise_new.Change.Models.{
  ChangeRequest, ChangeDb, ChangeCreate, ChangeUpdate, ChangeStatusUpdate, TargetStatus,
  ChangeStatus, RiskLevel, ChangeType, Decision,
}
use aiops_x_enterprise_new.Change.Policy.{
  required_approval_count, controlled, allowed_targets, human_change_number, enforce_risk_controls,
  validate_status_transition, require_failure_context,
}
use aiops_x_enterprise_new.Change.Effects.{
  Call, commit, timeline_entry, validate_response, audit_change, get_change_in_scope, put_change,
}
use aiops_x_enterprise_new.Change.Draft.{
  create_change, create_tx, draft_change, validate_change_links,
}
use aiops_x_enterprise_new.Change.Approval.{
  submit_change, decide_change, decide_tx, decided, new_decision, submit_tx, submitted,
}
use aiops_x_enterprise_new.Change.Execution.{
  in_window, change_status, check_start, moved, status_tx,
}
use aiops_x_enterprise_new.Change.Rows.{is_cleared, is_begun}
use aiops_x_enterprise_new.Change.Soundness.{IsSoundDb}
use aiops_x_enterprise_new.Change.Steps.{Step, Reach, Step-IsSoundDb}
use aiops_x_enterprise_new.Change.FourEyes.{
  approvers, Distinct, no_changes, approved_by_others, begun_in_window,
}
use aiops_x_enterprise_new.Audit.Append.{
  append_audit, effective_tenant, first_chars, latest, new_entry,
}
use aiops_x_enterprise_new.Identity.Scope.{
  access_for_permission, ensure_asset_scope, require_permission, ensure_project_scope,
  ensure_assets_scope,
}
use aiops_x_enterprise_new.Change.Evolution.{Evolves}
use aiops_x_enterprise_new.Change.Lifecycle.{Step-Evolves}
use aiops_x_enterprise_new.Tests.Fixtures.{
  directory, runtime, request, user, audit_readings, empty_audit,
}

abbrev call_at : ℕ → Principal → Call
call_at now p = record {
  runtime = runtime;
  principal = p;
  request = request;
  readings = record {
    now = now;
    change_id = now;
    number_at = now;
    number_id = now;
    decision_id = now;
    decided_at = now;
    timeline_id = now;
    timeline_at = now;
    audit = audit_readings now;
  };
}

abbrev requester : Principal
requester = user 1 AccessLevel.operator ("change:write" ∷ "change:execute" ∷ [])

abbrev approver : ℕ → Principal
approver id = user id AccessLevel.approver ("change:approve" ∷ [])

abbrev plan : List Fields
plan = end ∷ []

abbrev body : ChangeCreate
body = record {
  project_id = 3;
  title = "upgrade";
  description = "";
  change_type = ChangeType.normal;
  risk_level = RiskLevel.r3;
  gxp_impact = false;
  affected_asset_ids = [];
  incident_ids = [];
  evidence_ids = [];
  implementation_plan = plan;
  precheck_plan = plan;
  validation_plan = plan;
  success_criteria = plan;
  rollback_plan = plan;
  impact_analysis = end;
  scheduled_start = some 10;
  scheduled_end = some 20;
  configuration_backup_ref = some "backup";
}

abbrev start_now : ChangeStatusUpdate
start_now = record {
  status = TargetStatus.in_progress;
  failure_reason = none;
  automation_job_id = none;
}

abbrev approve : Models.ApprovalDecisionCreate
approve = record { decision = Decision.approved; comment = "" }

abbrev s0 : ChangeDb
s0 = no_changes empty_audit

abbrev s1 : ChangeDb
s1 = (create_change (call_at 1 requester) directory body s0).1

abbrev s2 : ChangeDb
s2 = (submit_change (call_at 2 requester) 1 s1).1

abbrev s3 : ChangeDb
s3 = (decide_change (call_at 3 (approver 2)) 1 approve s2).1

abbrev s4 : ChangeDb
s4 = (decide_change (call_at 4 (approver 3)) 1 approve s3).1

abbrev s5 : ChangeDb
s5 = (change_status (call_at 12 requester) directory 1 start_now s4).1

abbrev states : List ChangeRequest → List ChangeStatus
states [] = []
states (c ∷ rest) = c.status ∷ states rest

abbrev codes : ChangeDb → List ChangeStatus
codes s = states s.changes

abbrev run : Reach s0 s5
run =
    Reach.next
      (Reach.next
        (Reach.next
          (Reach.next (Reach.next Reach.here (Step.create (call_at 1 requester) directory body))
            (Step.submit (call_at 2 requester) 1))
          (Step.decide (call_at 3 (approver 2)) 1 approve))
        (Step.decide (call_at 4 (approver 3)) 1 approve))
      (Step.move (call_at 12 requester) directory 1 start_now)

abbrev head_or : ChangeRequest → List ChangeRequest → ChangeRequest
head_or d [] = d
head_or d (c ∷ rest) = c

-- The change after the five requests.
abbrev c5 : ChangeRequest
c5 = head_or (draft_change (call_at 1 requester) body) s5.changes

life :
    (codes s1 ≡ ChangeStatus.draft ∷ [])
    × (codes s2 ≡ ChangeStatus.pending_approval ∷ [])
    × (codes s3 ≡ ChangeStatus.pending_approval ∷ [])
    × (codes s4 ≡ ChangeStatus.approved ∷ [])
    × (s5.changes ≡ c5 ∷ [])
    × (is_begun c5.status ≡ true)
    × (is_cleared c5.status ≡ true)
    × (controlled c5.risk_level c5.gxp_impact ≡ true)
unfolding create_change submit_change decide_change change_status check_start append_audit
    effective_tenant first_chars latest new_entry decide_tx decided new_decision submit_tx submitted
    create_tx draft_change commit timeline_entry validate_response moved status_tx allowed_targets
    human_change_number merge set_field access_for_permission ensure_asset_scope require_refs
    require_permission enforce_risk_controls ensure_project_scope get_project_in_tenant
    require_evidence_refs validate_change_links require_asset_refs require_incident_refs
    ensure_assets_scope audit_change get_change_in_scope validate_status_transition
    required_approval_count put_change require_failure_context require_automation_job_ref
life = (refl, refl, refl, refl, refl, refl, refl, refl)

in_table : Memᴰ c5 s5.changes
in_table = subst (Memᴰ c5) (sym life.4) (Memᴰ.head refl)

Step-IsSoundDb_example : IsSoundDb s1
Step-IsSoundDb_example =
    Step-IsSoundDb (Step.create (call_at 1 requester) directory body)
      (record { rows = tt; known = tt; one_each = tt })

approved_by_others_example :
    let who = approvers c5.id s5.decisions in
    (required_approval_count c5.risk_level c5.gxp_impact ≤ length who)
    × Distinct who
    × All (λ u. u ≢ c5.requested_by) who
approved_by_others_example = approved_by_others empty_audit s5 c5 run in_table life.6

begun_in_window_example :
    (t : ℕ) × (c5.started_at ≡ some t) × (in_window c5.scheduled_start c5.scheduled_end t ≡ true)
begun_in_window_example = begun_in_window empty_audit s5 c5 run in_table life.5 life.7

-- The change once it is approved, and the request that starts it.
abbrev c4 : ChangeRequest
c4 = head_or (draft_change (call_at 1 requester) body) s4.changes

abbrev run4 : Reach s0 s4
run4 =
    Reach.next
      (Reach.next
        (Reach.next (Reach.next Reach.here (Step.create (call_at 1 requester) directory body))
          (Step.submit (call_at 2 requester) 1))
        (Step.decide (call_at 3 (approver 2)) 1 approve))
      (Step.decide (call_at 4 (approver 3)) 1 approve)

alone4 : s4.changes ≡ c4 ∷ []
unfolding create_change submit_change decide_change change_status check_start append_audit
    effective_tenant first_chars latest new_entry decide_tx decided new_decision submit_tx submitted
    create_tx draft_change commit timeline_entry validate_response moved status_tx allowed_targets
    human_change_number merge set_field access_for_permission ensure_asset_scope require_refs
    require_permission enforce_risk_controls ensure_project_scope get_project_in_tenant
    require_evidence_refs validate_change_links require_asset_refs require_incident_refs
    ensure_assets_scope audit_change get_change_in_scope validate_status_transition
    required_approval_count put_change require_failure_context require_automation_job_ref
alone4 = refl

in_table4 : Memᴰ c4 s4.changes
in_table4 = subst (Memᴰ c4) (sym alone4) (Memᴰ.head refl)

Step-Evolves_example : (c' : ChangeRequest) × Memᴰ c' s5.changes × Evolves c4 c'
Step-Evolves_example =
    Step-Evolves empty_audit s4 s5 c4 run4 (Step.move (call_at 12 requester) directory 1 start_now)
      in_table4
