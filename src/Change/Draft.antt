-- ===== src/Change/Draft.antt =====
-- apps/api/src/aiops_x_api/modules/change/api.py: `create_change` and `update_change`.
use Prim.Native.String.{String}
use aiops_x_enterprise_new.Prelude.{
  ℕ, ◌==◌, Bool, false, not, ◌&&◌, none, some, List, ◌∷◌, ltb, some_of, str_eq,
}
use aiops_x_enterprise_new.Core.Errors.{Result, ok, app_error, guard, ◌>>=◌, ◌>>◌}
use aiops_x_enterprise_new.Core.Json.{Json, number, text, array, Items, nil, end, field}
use aiops_x_enterprise_new.Core.Patch.{
  patched_json, patched_column, effective_ids, sent_ids, listed,
}
use aiops_x_enterprise_new.Identity.Scope.{
  AssetScope, require_permission, ensure_project_scope, ensure_assets_scope,
}
use aiops_x_enterprise_new.References.{
  Directory, get_project_in_tenant, require_evidence_refs, require_asset_refs,
  require_incident_refs,
}
use aiops_x_enterprise_new.Change.Models.{
  ChangeStatus, ChangeRequest, ChangeCreate, ChangeUpdate, ChangeDb,
}
use aiops_x_enterprise_new.Change.Policy.{
  required_approval_count, human_change_number, enforce_risk_controls, risk_text, window_is_empty,
  same_status,
}
use aiops_x_enterprise_new.Change.Effects.{
  Call, get_change_in_scope, put_change, has_change, timeline_entry, audit_change, commit,
}

-- `validate_change_links` of application.py.
unfoldable pub validate_change_links :
    Directory → ℕ → ℕ → List ℕ → List ℕ → Result (List AssetScope)
validate_change_links d tenant project asset_ids incident_ids = do
  assets ← require_asset_refs d tenant project asset_ids
  require_incident_refs d tenant project incident_ids
  ok assets

-- A change number is unique within its tenant.
abbrev pub number_taken : ℕ → String → List ChangeRequest → Bool
number_taken tenant n changes =
    some_of (λ (c : ChangeRequest). c.tenant_id == tenant && str_eq c.change_number n) changes

unfoldable pub draft_change : Call → ChangeCreate → ChangeRequest
draft_change call p =
    let approvals = required_approval_count p.risk_level p.gxp_impact in
    let now = call.readings in
    let strip = call.runtime.strip in
    record {
      id = now.change_id;
      change_number = human_change_number call.runtime now.number_at now.number_id;
      tenant_id = call.principal.tenant_id;
      project_id = p.project_id;
      title = strip p.title;
      description = strip p.description;
      change_type = p.change_type;
      risk_level = p.risk_level;
      status = ChangeStatus.draft;
      gxp_impact = p.gxp_impact;
      affected_asset_ids = some p.affected_asset_ids;
      incident_ids = some p.incident_ids;
      evidence_ids = some p.evidence_ids;
      implementation_plan = some p.implementation_plan;
      precheck_plan = some p.precheck_plan;
      validation_plan = some p.validation_plan;
      success_criteria = some p.success_criteria;
      rollback_plan = some p.rollback_plan;
      impact_analysis = some p.impact_analysis;
      approval_policy_snapshot = field "risk_level" (text (risk_text p.risk_level)) (
          field "gxp_impact" (Json.boolean p.gxp_impact) (
            field "required_approvals" (number approvals) (
              field "requester_cannot_approve" (Json.boolean (ltb 0 approvals))
                (field "r4_enabled" (Json.boolean false) end))));
      required_approvals = approvals;
      scheduled_start = p.scheduled_start;
      scheduled_end = p.scheduled_end;
      configuration_backup_ref = p.configuration_backup_ref;
      automation_job_id = none;
      requested_by = call.principal.user_id;
      submitted_at = none;
      approved_at = none;
      started_at = none;
      completed_at = none;
      failure_reason = none;
    }

-- The primary key and the unique change number are checked by the database on `flush`.
unfoldable pub create_tx :
    Call → Directory → ChangeCreate → ChangeDb → Result (ChangeRequest × ChangeDb)
unfolding draft_change
create_tx call dir p s = do
  let caller = call.principal
  needed ← require_permission "change:write" caller
  enforce_risk_controls p
  ensure_project_scope caller needed p.project_id
  get_project_in_tenant dir caller.tenant_id p.project_id
  require_evidence_refs dir caller.tenant_id p.project_id p.evidence_ids
  assets ←
      validate_change_links dir caller.tenant_id p.project_id p.affected_asset_ids p.incident_ids
  ensure_assets_scope caller needed assets
  let change = draft_change call p
  guard (not (has_change change.id s.changes)) (app_error "IntegrityError" 500)
  guard (not (number_taken caller.tenant_id change.change_number s.changes))
      (app_error "IntegrityError" 500)
  let added = record s {
    changes = change ∷ s.changes;
    timeline =
        timeline_entry call.readings change caller.user_id ChangeStatus.draft "变更草稿已创建" end
        ∷ s.timeline;
  }
  ok (
    change,
    audit_change call "change.created" change
        (field "change_number" (text change.change_number)
          (field "risk_level" (text (risk_text change.risk_level)) end))
        added,
  )

unfoldable pub create_change :
    Call → Directory → ChangeCreate → ChangeDb → Result ChangeRequest × ChangeDb
unfolding create_tx commit
create_change call dir p s = commit (create_tx call dir p s) s

unfoldable pub patched_change : ChangeUpdate → String → String → ChangeRequest → ChangeRequest
patched_change u title description c = record c {
  title = title;
  description = description;
  affected_asset_ids = patched_json u.affected_asset_ids c.affected_asset_ids;
  incident_ids = patched_json u.incident_ids c.incident_ids;
  evidence_ids = patched_json u.evidence_ids c.evidence_ids;
  implementation_plan = patched_json u.implementation_plan c.implementation_plan;
  precheck_plan = patched_json u.precheck_plan c.precheck_plan;
  validation_plan = patched_json u.validation_plan c.validation_plan;
  success_criteria = patched_json u.success_criteria c.success_criteria;
  rollback_plan = patched_json u.rollback_plan c.rollback_plan;
  impact_analysis = patched_json u.impact_analysis c.impact_analysis;
  scheduled_start = patched_json u.scheduled_start c.scheduled_start;
  scheduled_end = patched_json u.scheduled_end c.scheduled_end;
  configuration_backup_ref = patched_json u.configuration_backup_ref c.configuration_backup_ref;
}

-- `sorted(changes)`: the names of the fields that were sent, in the order of the alphabet.
changed_fields : ChangeUpdate → Items
changed_fields u = listed "affected_asset_ids" u.affected_asset_ids (
    listed "configuration_backup_ref" u.configuration_backup_ref (
      listed "description" u.description (
        listed "evidence_ids" u.evidence_ids (
          listed "impact_analysis" u.impact_analysis (
            listed "implementation_plan" u.implementation_plan (
              listed "incident_ids" u.incident_ids (
                listed "precheck_plan" u.precheck_plan (
                  listed "rollback_plan" u.rollback_plan (
                    listed "scheduled_end" u.scheduled_end (
                      listed "scheduled_start" u.scheduled_start (
                        listed "success_criteria" u.success_criteria (
                          listed "title" u.title
                            (listed "validation_plan" u.validation_plan nil)))))))))))))

unfoldable pub update_tx :
    Call → Directory → ℕ → ChangeUpdate → ChangeDb → Result (ChangeRequest × ChangeDb)
unfolding patched_change changed_fields
update_tx call dir id u s = do
  let caller = call.principal
  needed ← require_permission "change:write" caller
  change ← get_change_in_scope caller.tenant_id id s
  ensure_project_scope caller needed change.project_id
  guard (same_status change.status ChangeStatus.draft) (app_error "AIOPS_8210" 409)
  require_evidence_refs dir caller.tenant_id change.project_id (sent_ids u.evidence_ids)
  asset_ids ← effective_ids u.affected_asset_ids change.affected_asset_ids
  incident_ids ← effective_ids u.incident_ids change.incident_ids
  assets ← validate_change_links dir caller.tenant_id change.project_id asset_ids incident_ids
  ensure_assets_scope caller needed assets
  title ← patched_column u.title change.title
  description ← patched_column u.description change.description
  let changed = patched_change u title description change
  guard (not (window_is_empty changed.scheduled_start changed.scheduled_end))
      (app_error "AIOPS_8211" 422)
  ok (
    changed,
    audit_change call "change.updated" changed
        (field "changed_fields" (array (changed_fields u)) end)
        (record s { changes = put_change changed s.changes }),
  )

unfoldable pub update_change :
    Call → Directory → ℕ → ChangeUpdate → ChangeDb → Result ChangeRequest × ChangeDb
unfolding update_tx commit
update_change call dir id u s = commit (update_tx call dir id u s) s
