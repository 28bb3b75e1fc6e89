-- ===== src/Tests/Incident.antt =====
-- Runs of incidents.
use mathlib.Core.List.{Memᴰ}
use aiops_x_enterprise_new.Prelude.{
  ℕ, ◌==◌, ◌≡◌, refl, ap, true, false, none, some, List, [], ◌∷◌, ◌⊎◌,
}
use aiops_x_enterprise_new.Core.Errors.{ok, err, app_error}
use aiops_x_enterprise_new.Core.Json.{end, merge, set_field}
use aiops_x_enterprise_new.Core.Patch.{Patch}
use aiops_x_enterprise_new.Identity.Principal.{AccessLevel, Principal}
use aiops_x_enterprise_new.Incident.Models.{
  Incident, IncidentDb, IncidentCreate, IncidentUpdate, IncidentSeverity, IncidentStatus,
  IncidentPostmortem, PostmortemUpsert, PostmortemStatus, GeneratedBy,
}
use aiops_x_enterprise_new.Incident.Policy.{
  is_final_text, validate_transition, approved_requires_content, allowed_transitions,
  human_incident_number,
}
use aiops_x_enterprise_new.Incident.Effects.{
  IncidentCall, find_incident, get_incident_in_scope, validate_incident_links, audit_incident,
  put_incident, finish, validate_incident,
}
use aiops_x_enterprise_new.Incident.Draft.{create_incident, new_incident, create_incident_tx}
use aiops_x_enterprise_new.Incident.Update.{
  is_closure, update_incident_tx, update_incident, patched_columns, apply_update, check_update,
  moved_incident, patched_incident, stamped,
}
use aiops_x_enterprise_new.Incident.Postmortem.{
  may, upsert_postmortem_tx, upsert_postmortem, check_approval, put_postmortem, sealed, written,
}
use aiops_x_enterprise_new.Incident.Soundness.{IsSoundIncidents}
use aiops_x_enterprise_new.Incident.Steps.{
  IncidentStep, Runs, no_incidents, IncidentStep-IsSound, no_incidents-IsSound,
}
use aiops_x_enterprise_new.Incident.Closing.{IsReviewed, closed_after_review}
use aiops_x_enterprise_new.Incident.Authorship.{SameAuthor, approver_is_not_author}
use aiops_x_enterprise_new.Identity.Scope.{
  require_permission, ensure_project_scope, ensure_assets_scope, access_for_permission,
  ensure_asset_scope,
}
use aiops_x_enterprise_new.References.{
  get_project_in_tenant, require_evidence_refs, require_event_ref, require_asset_refs,
  require_alert_refs, require_change_refs, require_active_user_refs, require_refs,
}
use aiops_x_enterprise_new.Audit.Append.{
  append_audit, effective_tenant, first_chars, latest, new_entry,
}
use aiops_x_enterprise_new.Tests.Fixtures.{
  runtime, request, user, audit_readings, empty_audit, directory,
}

abbrev call_at : ℕ → Principal → IncidentCall
call_at now p = record {
  runtime = runtime;
  principal = p;
  request = request;
  readings = record {
    now = now;
    incident_id = now;
    number_at = now;
    number_id = now;
    entry_id = now;
    entry_at = now;
    postmortem_id = now;
    audit = audit_readings now;
  };
}

abbrev operator : Principal
operator =
    user 1 AccessLevel.operator ("incident:write" ∷ "postmortem:write" ∷ "postmortem:approve" ∷ [])

abbrev reviewer : Principal
reviewer = user 2 AccessLevel.operator ("postmortem:write" ∷ "postmortem:approve" ∷ [])

abbrev outage : IncidentCreate
outage = record {
  project_id = 3;
  source_event_id = none;
  title = "outage";
  description = "";
  severity = IncidentSeverity.critical;
  owner_id = some 1;
  participant_ids = 2 ∷ [];
  impact_scope = end;
  asset_ids = [];
  alert_ids = [];
  change_ids = [];
  evidence_ids = [];
  sla_policy = end;
  response_due_at = none;
  resolution_due_at = none;
}

abbrev to : IncidentStatus → IncidentUpdate
to status = record {
  title = Patch.unset;
  description = Patch.unset;
  severity = Patch.unset;
  status = Patch.value status;
  owner_id = Patch.unset;
  participant_ids = Patch.unset;
  impact_scope = Patch.unset;
  asset_ids = Patch.unset;
  alert_ids = Patch.unset;
  change_ids = Patch.unset;
  evidence_ids = Patch.unset;
  root_cause_candidates = Patch.unset;
  resolution_steps = Patch.unset;
  approval_refs = Patch.unset;
  restored_at = Patch.unset;
}

abbrev report : PostmortemStatus → PostmortemUpsert
report status = record {
  status = status;
  summary = "a switch failed";
  customer_impact = "";
  root_cause = "power";
  trigger = "";
  detection = "";
  response = "";
  resolution = "";
  lessons_learned = "";
  action_items = end ∷ [];
  evidence_ids = [];
  report_object_ref = none;
  generated_by = GeneratedBy.human;
}

abbrev s0 : IncidentDb
s0 = no_incidents empty_audit

abbrev s1 : IncidentDb
s1 = (create_incident (call_at 1 operator) directory outage s0).1

abbrev s2 : IncidentDb
s2 = (update_incident (call_at 2 operator) directory 1 (to IncidentStatus.investigating) s1).1

abbrev s3 : IncidentDb
s3 = (update_incident (call_at 3 operator) directory 1 (to IncidentStatus.resolved) s2).1

abbrev s4 : IncidentDb
s4 = (upsert_postmortem (call_at 4 operator) directory 1 (report PostmortemStatus.draft) s3).1

abbrev s5 : IncidentDb
s5 = (upsert_postmortem (call_at 5 reviewer) directory 1 (report PostmortemStatus.approved) s4).1

abbrev s6 : IncidentDb
s6 = (update_incident (call_at 6 operator) directory 1 (to IncidentStatus.closed) s5).1

-- The author takes the approval back after the incident has been closed.
abbrev s7 : IncidentDb
s7 = (upsert_postmortem (call_at 7 operator) directory 1 (report PostmortemStatus.draft) s6).1

abbrev row_or : Incident → List Incident → Incident
row_or d [] = d
row_or d (c ∷ rest) = c

abbrev row_of : IncidentDb → Incident
row_of s = row_or (new_incident (call_at 1 operator) outage) s.incidents

abbrev report_or : IncidentPostmortem → List IncidentPostmortem → IncidentPostmortem
report_or d [] = d
report_or d (p ∷ rest) = p

abbrev blank : IncidentPostmortem
blank = record {
  id = 0;
  tenant_id = 0;
  project_id = 0;
  incident_id = 0;
  content = report PostmortemStatus.draft;
  approved_by = none;
  approved_at = none;
  created_by = 0;
}

abbrev run_4 : Runs runtime s0 s4
run_4 =
    Runs.next
      (Runs.next
        (Runs.next
          (Runs.next Runs.here (IncidentStep.create (call_at 1 operator) directory outage refl))
          (IncidentStep.update (call_at 2 operator) directory 1 (to IncidentStatus.investigating)
            refl))
        (IncidentStep.update (call_at 3 operator) directory 1 (to IncidentStatus.resolved) refl))
      (IncidentStep.write (call_at 4 operator) directory 1 (report PostmortemStatus.draft) refl)

abbrev run : Runs runtime s0 s5
run =
    Runs.next run_4
      (IncidentStep.write (call_at 5 reviewer) directory 1 (report PostmortemStatus.approved) refl)

life :
    ((row_of s2).status ≡ IncidentStatus.investigating)
    × (find_incident 7 1 s5.incidents ≡ some (row_of s5))
    × ((row_of s5).status ≡ IncidentStatus.resolved)
    × (update_incident_tx (call_at 6 operator) directory 1 (to IncidentStatus.closed) s5
        ≡ ok (row_of s6, s6))
    × ((row_of s6).status ≡ IncidentStatus.closed)
    × (upsert_postmortem_tx (call_at 5 reviewer) directory 1 (report PostmortemStatus.approved) s4
        ≡ ok (report_or blank s5.postmortems, s5))
    × ((report_or blank s5.postmortems).content.status ≡ PostmortemStatus.approved)
    × ((row_of s7).status ≡ IncidentStatus.closed)
    × ((report_or blank s7.postmortems).content.status ≡ PostmortemStatus.draft)
unfolding create_incident update_incident upsert_postmortem require_permission get_incident_in_scope
    ensure_project_scope get_project_in_tenant require_evidence_refs validate_incident_links
    require_event_ref require_asset_refs require_alert_refs require_change_refs ensure_assets_scope
    require_active_user_refs audit_incident validate_transition patched_columns put_incident
    approved_requires_content append_audit effective_tenant first_chars latest new_entry merge
    set_field access_for_permission ensure_asset_scope create_incident_tx new_incident finish
    validate_incident allowed_transitions human_incident_number check_approval put_postmortem sealed
    upsert_postmortem_tx written apply_update check_update moved_incident patched_incident stamped
    update_incident_tx require_refs
life = (refl, refl, refl, refl, refl, refl, refl, refl, refl)

-- The author of a postmortem does not approve it.
own_refused :
    upsert_postmortem_tx (call_at 5 operator) directory 1 (report PostmortemStatus.approved) s4
    ≡ err (app_error "AIOPS_8113" 403)
unfolding create_incident update_incident upsert_postmortem require_permission get_incident_in_scope
    ensure_project_scope get_project_in_tenant require_evidence_refs validate_incident_links
    require_event_ref require_asset_refs require_alert_refs require_change_refs ensure_assets_scope
    require_active_user_refs audit_incident validate_transition patched_columns put_incident
    approved_requires_content append_audit effective_tenant first_chars latest new_entry merge
    set_field access_for_permission ensure_asset_scope create_incident_tx new_incident finish
    validate_incident allowed_transitions human_incident_number check_approval put_postmortem sealed
    upsert_postmortem_tx written apply_update check_update moved_incident patched_incident stamped
    update_incident_tx require_refs
own_refused = refl

IncidentStep-IsSound_example : IsSoundIncidents runtime s1
IncidentStep-IsSound_example =
    IncidentStep-IsSound (IncidentStep.create (call_at 1 operator) directory outage refl)
      (no_incidents-IsSound runtime empty_audit)

closed_after_review_example :
    (p : IncidentPostmortem) × Memᴰ p s5.postmortems × IsReviewed runtime (row_of s5).id p
closed_after_review_example =
    closed_after_review runtime empty_audit s5 s6 (call_at 6 operator) directory 1
      (to IncidentStatus.closed) (row_of s5) (row_of s6) run life.3 life.1 (ap is_closure life.2)
      (ap is_closure life.4)

abbrev drafted : IncidentPostmortem
drafted = report_or blank s4.postmortems

drafted_there : Memᴰ drafted s4.postmortems
unfolding create_incident update_incident upsert_postmortem require_permission get_incident_in_scope
    ensure_project_scope get_project_in_tenant require_evidence_refs validate_incident_links
    require_event_ref require_asset_refs require_alert_refs require_change_refs ensure_assets_scope
    require_active_user_refs audit_incident validate_transition patched_columns put_incident
    approved_requires_content append_audit effective_tenant first_chars latest new_entry merge
    set_field access_for_permission ensure_asset_scope create_incident_tx new_incident finish
    validate_incident allowed_transitions human_incident_number check_approval put_postmortem sealed
    upsert_postmortem_tx written apply_update check_update moved_incident patched_incident stamped
    update_incident_tx require_refs
drafted_there = Memᴰ.head refl

approved_5 :
    upsert_postmortem_tx
      (call_at 5 reviewer)
      directory
      drafted.incident_id
      (report PostmortemStatus.approved)
      s4
    ≡ ok (report_or blank s5.postmortems, s5)
unfolding create_incident update_incident upsert_postmortem require_permission get_incident_in_scope
    ensure_project_scope get_project_in_tenant require_evidence_refs validate_incident_links
    require_event_ref require_asset_refs require_alert_refs require_change_refs ensure_assets_scope
    require_active_user_refs audit_incident validate_transition patched_columns put_incident
    approved_requires_content append_audit effective_tenant first_chars latest new_entry merge
    set_field access_for_permission ensure_asset_scope create_incident_tx new_incident finish
    validate_incident allowed_transitions human_incident_number check_approval put_postmortem sealed
    upsert_postmortem_tx written apply_update check_update moved_incident patched_incident stamped
    update_incident_tx require_refs
approved_5 = refl

approver_is_not_author_example :
    let x = report_or blank s5.postmortems in
    SameAuthor drafted x
    × (may "postmortem:approve" reviewer ≡ true)
    × (x.approved_by ≡ some 2)
    × (((drafted.created_by == 2) ≡ false) ⊎ (may "postmortem:self-approve" reviewer ≡ true))
approver_is_not_author_example =
    approver_is_not_author runtime empty_audit s4 s4 s5 (call_at 5 reviewer) directory
      (report PostmortemStatus.approved) drafted (report_or blank s5.postmortems) run_4
      drafted_there Runs.here approved_5 (ap is_final_text life.6)
