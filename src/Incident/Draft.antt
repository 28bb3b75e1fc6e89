-- ===== src/Incident/Draft.antt =====
-- apps/api/src/aiops_x_api/modules/incident/api.py: `create_incident` and `add_timeline_entry`.
use Prim.Native.String.{String}
use aiops_x_enterprise_new.Prelude.{
  ℕ, ◌==◌, Bool, not, ◌&&◌, Option, none, some, List, [], ◌∷◌, some_of, str_eq,
}
use aiops_x_enterprise_new.Core.Errors.{Result, ok, app_error, guard, ◌>>=◌, ◌>>◌}
use aiops_x_enterprise_new.Core.Json.{text, end, field}
use aiops_x_enterprise_new.Identity.Scope.{
  require_permission, ensure_project_scope, ensure_assets_scope,
}
use aiops_x_enterprise_new.References.{
  Directory, get_project_in_tenant, require_evidence_refs, require_active_user_refs,
}
use aiops_x_enterprise_new.Incident.Models.{
  Incident, IncidentStatus, IncidentTimelineEntry, EntryType, IncidentCreate, TimelineEntryCreate,
  IncidentDb,
}
use aiops_x_enterprise_new.Incident.Policy.{human_incident_number, severity_text, entry_type_text}
use aiops_x_enterprise_new.Incident.Effects.{
  IncidentCall, get_incident_in_scope, has_incident, validate_incident_links, audit_incident,
  validate_incident, finish,
}

-- `[*participants, *([owner] if owner is not None else [])]`.
abbrev pub with_owner : List ℕ → Option ℕ → List ℕ
with_owner [] none = []
with_owner [] (some u) = u ∷ []
with_owner (x ∷ xs) owner = x ∷ with_owner xs owner

-- An incident number is unique within its tenant.
abbrev pub incident_number_taken : ℕ → String → List Incident → Bool
incident_number_taken tenant n rows =
    some_of (λ (c : Incident). c.tenant_id == tenant && str_eq c.incident_number n) rows

unfoldable pub new_incident : IncidentCall → IncidentCreate → Incident
new_incident call p =
    let now = call.readings in
    let strip = call.runtime.strip in
    record {
      id = now.incident_id;
      incident_number = human_incident_number call.runtime now.number_at now.number_id;
      tenant_id = call.principal.tenant_id;
      project_id = p.project_id;
      source_event_id = p.source_event_id;
      title = strip p.title;
      description = strip p.description;
      severity = p.severity;
      status = IncidentStatus.opened;
      owner_id = p.owner_id;
      participant_ids = some p.participant_ids;
      impact_scope = some p.impact_scope;
      asset_ids = some p.asset_ids;
      alert_ids = some p.alert_ids;
      change_ids = some p.change_ids;
      evidence_ids = some p.evidence_ids;
      root_cause_candidates = some [];
      resolution_steps = some [];
      approval_refs = some [];
      sla_policy = p.sla_policy;
      acknowledged_at = none;
      resolved_at = none;
      restored_at = none;
      closed_at = none;
      response_due_at = p.response_due_at;
      resolution_due_at = p.resolution_due_at;
      created_by = call.principal.user_id;
    }

created_entry : IncidentCall → Incident → IncidentTimelineEntry
created_entry call c = record {
  id = call.readings.entry_id;
  tenant_id = c.tenant_id;
  project_id = c.project_id;
  incident_id = c.id;
  occurred_at = call.readings.entry_at;
  entry_type = EntryType.status_change;
  title = "故障记录已创建";
  description = c.description;
  evidence_ids = c.evidence_ids;
  metadata_json =
      field "status" (text "open") (field "severity" (text (severity_text c.severity)) end);
  created_by = call.principal.user_id;
}

-- The primary key and the unique number are checked by the database on `flush`.
unfoldable pub create_incident_tx :
    IncidentCall → Directory → IncidentCreate → IncidentDb → Result (Incident × IncidentDb)
unfolding new_incident created_entry
create_incident_tx call dir p s = do
  let caller = call.principal
  needed ← require_permission "incident:write" caller
  ensure_project_scope caller needed p.project_id
  get_project_in_tenant dir caller.tenant_id p.project_id
  require_evidence_refs dir caller.tenant_id p.project_id p.evidence_ids
  assets ←
      validate_incident_links dir caller.tenant_id p.project_id p.source_event_id p.asset_ids
        p.alert_ids p.change_ids
  ensure_assets_scope caller needed assets
  require_active_user_refs dir caller.tenant_id (with_owner p.participant_ids p.owner_id)
  let incident = new_incident call p
  guard (not (has_incident incident.id s.incidents)) (app_error "IntegrityError" 500)
  guard (not (incident_number_taken caller.tenant_id incident.incident_number s.incidents))
      (app_error "IntegrityError" 500)
  let added = record s {
    incidents = incident ∷ s.incidents;
    timeline = created_entry call incident ∷ s.timeline;
  }
  ok (
    incident,
    audit_incident call "incident.created" "incident" incident.project_id incident.id
        (field "incident_number" (text incident.incident_number)
          (field "severity" (text (severity_text incident.severity)) end))
        added,
  )

unfoldable pub create_incident :
    IncidentCall → Directory → IncidentCreate → IncidentDb → Result Incident × IncidentDb
unfolding create_incident_tx finish
create_incident call dir p s = finish validate_incident (create_incident_tx call dir p s) s

unfoldable pub add_timeline_entry_tx :
    IncidentCall
    → Directory
    → ℕ
    → TimelineEntryCreate
    → IncidentDb
    → Result (IncidentTimelineEntry × IncidentDb)
add_timeline_entry_tx call dir id p s = do
  let caller = call.principal
  needed ← require_permission "incident:write" caller
  incident ← get_incident_in_scope caller.tenant_id id s
  ensure_project_scope caller needed incident.project_id
  require_evidence_refs dir caller.tenant_id incident.project_id p.evidence_ids
  let entry : IncidentTimelineEntry = record {
    id = call.readings.entry_id;
    tenant_id = incident.tenant_id;
    project_id = incident.project_id;
    incident_id = incident.id;
    occurred_at = p.occurred_at;
    entry_type = p.entry_type;
    title = call.runtime.strip p.title;
    description = call.runtime.strip p.description;
    evidence_ids = some p.evidence_ids;
    metadata_json = p.metadata;
    created_by = caller.user_id;
  }
  ok (
    entry,
    audit_incident call "incident.timeline.added" "incident" incident.project_id incident.id
        (field "entry_id" (text (call.runtime.uuid_text entry.id))
          (field "entry_type" (text (entry_type_text entry.entry_type)) end))
        (record s { timeline = entry ∷ s.timeline }),
  )

unfoldable pub add_timeline_entry :
    IncidentCall
    → Directory
    → ℕ
    → TimelineEntryCreate
    → IncidentDb
    → Result IncidentTimelineEntry × IncidentDb
unfolding add_timeline_entry_tx finish
add_timeline_entry call dir id p s = finish ok (add_timeline_entry_tx call dir id p s) s
