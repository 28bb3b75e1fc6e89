-- ===== src/Incident/Update.antt =====
-- apps/api/src/aiops_x_api/modules/incident/api.py: `update_incident`.
use Prim.Native.String.{String, ◌++◌}
use aiops_x_enterprise_new.Prelude.{
  ℕ, ◌==◌, Bool, true, false, not, ◌&&◌, some, List, [], ◌∷◌, some_of, if◌then◌else◌,
}
use aiops_x_enterprise_new.Core.Errors.{Result, ok, app_error, guard, ◌>>=◌, ◌>>◌}
use aiops_x_enterprise_new.Core.Json.{Items, nil, text, array, end, field}
use aiops_x_enterprise_new.Core.Patch.{
  Patch, value, patched_json, patched_column, effective_ids, sent_ids, listed, given,
}
use aiops_x_enterprise_new.Identity.Scope.{
  RequiredAccess, require_permission, ensure_project_scope, ensure_assets_scope,
}
use aiops_x_enterprise_new.References.{Directory, require_evidence_refs, require_active_user_refs}
use aiops_x_enterprise_new.Incident.Models.{
  Incident, IncidentStatus, IncidentSeverity, IncidentTimelineEntry, EntryType, IncidentUpdate,
  IncidentPostmortem, IncidentDb,
}
use aiops_x_enterprise_new.Incident.Policy.{
  equal_status, validate_transition, is_final_text, incident_status_text,
}
use aiops_x_enterprise_new.Incident.Effects.{
  IncidentCall, get_incident_in_scope, put_incident, validate_incident_links, audit_incident,
  validate_incident, finish,
}
use aiops_x_enterprise_new.Incident.Draft.{with_owner}

-- The columns that the database requires, after the assignments.
pub record Columns : Type 0 where
  pub title : String
  pub description : String
  pub severity : IncidentSeverity
  pub status : IncidentStatus

unfoldable pub patched_columns : IncidentUpdate → Incident → Result Columns
patched_columns u c = do
  title ← patched_column u.title c.title
  description ← patched_column u.description c.description
  severity ← patched_column u.severity c.severity
  status ← patched_column u.status c.status
  ok (record { title = title; description = description; severity = severity; status = status })

unfoldable pub patched_incident : IncidentUpdate → Columns → Incident → Incident
patched_incident u columns c = record c {
  title = columns.title;
  description = columns.description;
  severity = columns.severity;
  status = columns.status;
  owner_id = patched_json u.owner_id c.owner_id;
  participant_ids = patched_json u.participant_ids c.participant_ids;
  impact_scope = patched_json u.impact_scope c.impact_scope;
  asset_ids = patched_json u.asset_ids c.asset_ids;
  alert_ids = patched_json u.alert_ids c.alert_ids;
  change_ids = patched_json u.change_ids c.change_ids;
  evidence_ids = patched_json u.evidence_ids c.evidence_ids;
  root_cause_candidates = patched_json u.root_cause_candidates c.root_cause_candidates;
  resolution_steps = patched_json u.resolution_steps c.resolution_steps;
  approval_refs = patched_json u.approval_refs c.approval_refs;
  restored_at = patched_json u.restored_at c.restored_at;
}

-- `if payload.status is not None: validate_transition(old_status, payload.status)`.
abbrev pub check_status : Patch IncidentStatus → IncidentStatus → Result (Unit {0})
check_status (value target) old = validate_transition old target
check_status _ old = ok tt

-- The select of a postmortem of the incident that is approved or published.
abbrev pub has_approved_postmortem : ℕ → List IncidentPostmortem → Bool
has_approved_postmortem incident rows =
    some_of
      (λ (p : IncidentPostmortem). p.incident_id == incident && is_final_text p.content.status) rows

abbrev pub is_acknowledgement : IncidentStatus → Bool
is_acknowledgement IncidentStatus.acknowledged = true
is_acknowledgement _ = false

abbrev pub is_resolution : IncidentStatus → Bool
is_resolution IncidentStatus.resolved = true
is_resolution _ = false

abbrev pub is_closure : IncidentStatus → Bool
is_closure IncidentStatus.closed = true
is_closure _ = false

-- The instants that a move to another state sets.
unfoldable pub stamped : ℕ → IncidentStatus → Incident → Incident
stamped now target c = record c {
  acknowledged_at =
      if is_acknowledgement target && not (given c.acknowledged_at)
      then some now
      else c.acknowledged_at;
  resolved_at = if is_resolution target then some now else c.resolved_at;
  closed_at = if is_closure target then some now else c.closed_at;
}

status_entry : IncidentCall → IncidentStatus → Incident → IncidentTimelineEntry
status_entry call old c = record {
  id = call.readings.entry_id;
  tenant_id = c.tenant_id;
  project_id = c.project_id;
  incident_id = c.id;
  occurred_at = call.readings.now;
  entry_type = EntryType.status_change;
  title = "状态变更为 " ++ incident_status_text c.status;
  description = "";
  evidence_ids = some [];
  metadata_json =
      field "from" (text (incident_status_text old))
        (field "to" (text (incident_status_text c.status)) end);
  created_by = call.principal.user_id;
}

-- `payload.status is not None and payload.status != old_status`; the new state is in the row.
abbrev pub is_move : IncidentStatus → Incident → Bool
is_move old c = not (equal_status c.status old)

unfoldable pub moved_incident : ℕ → IncidentStatus → Incident → Incident
unfolding stamped
moved_incident now old c = if is_move old c then stamped now c.status c else c

-- `sorted(changes)`: the names of the fields that were sent, in the order of the alphabet.
sent_fields : IncidentUpdate → Items
sent_fields u = listed "alert_ids" u.alert_ids (
    listed "approval_refs" u.approval_refs (
      listed "asset_ids" u.asset_ids (
        listed "change_ids" u.change_ids (
          listed "description" u.description (
            listed "evidence_ids" u.evidence_ids (
              listed "impact_scope" u.impact_scope (
                listed "owner_id" u.owner_id (
                  listed "participant_ids" u.participant_ids (
                    listed "resolution_steps" u.resolution_steps (
                      listed "restored_at" u.restored_at (
                        listed "root_cause_candidates" u.root_cause_candidates (
                          listed "severity" u.severity
                            (listed "status" u.status (listed "title" u.title nil))))))))))))))

-- What is checked before the row is written.
unfoldable pub check_update :
    IncidentCall → Directory → RequiredAccess → IncidentUpdate → Incident → Result Columns
check_update call dir needed u incident = do
  let caller = call.principal
  ensure_project_scope caller needed incident.project_id
  require_evidence_refs dir caller.tenant_id incident.project_id (sent_ids u.evidence_ids)
  asset_ids ← effective_ids u.asset_ids incident.asset_ids
  alert_ids ← effective_ids u.alert_ids incident.alert_ids
  change_ids ← effective_ids u.change_ids incident.change_ids
  assets ←
      validate_incident_links dir caller.tenant_id incident.project_id incident.source_event_id
        asset_ids alert_ids change_ids
  ensure_assets_scope caller needed assets
  participants ← effective_ids u.participant_ids incident.participant_ids
  require_active_user_refs dir caller.tenant_id
      (with_owner participants (patched_json u.owner_id incident.owner_id))
  check_status u.status incident.status
  patched_columns u incident

unfoldable pub apply_update :
    IncidentCall
    → IncidentUpdate
    → IncidentStatus
    → Incident
    → IncidentDb
    → Result (Incident × IncidentDb)
unfolding moved_incident status_entry sent_fields
apply_update call u old_status patched s = do
  guard
      (not (
        is_move old_status patched
        && (is_closure patched.status && not (has_approved_postmortem patched.id s.postmortems))))
      (app_error "AIOPS_8110" 409)
  let changed = moved_incident call.readings.now old_status patched
  ok (
    changed,
    audit_incident call "incident.updated" "incident" changed.project_id changed.id
        (field "changed_fields" (array (sent_fields u))
          (field "old_status" (text (incident_status_text old_status)) end))
        (record s {
          incidents = put_incident changed s.incidents;
          timeline =
              if is_move old_status patched
              then status_entry call old_status patched ∷ s.timeline
              else s.timeline;
        }),
  )

unfoldable pub update_incident_tx :
    IncidentCall → Directory → ℕ → IncidentUpdate → IncidentDb → Result (Incident × IncidentDb)
unfolding check_update apply_update patched_incident
update_incident_tx call dir id u s = do
  let caller = call.principal
  needed ← require_permission "incident:write" caller
  incident ← get_incident_in_scope caller.tenant_id id s
  columns ← check_update call dir needed u incident
  apply_update call u incident.status (patched_incident u columns incident) s

unfoldable pub update_incident :
    IncidentCall → Directory → ℕ → IncidentUpdate → IncidentDb → Result Incident × IncidentDb
unfolding update_incident_tx finish
update_incident call dir id u s = finish validate_incident (update_incident_tx call dir id u s) s
