-- ===== src/Incident/Outcomes.antt =====
-- What a handler of apps/api/src/aiops_x_api/modules/incident/api.py that succeeds has found and
-- has written: one lemma for each, after which the handlers stay shut.
use aiops_x_enterprise_new.Prelude.{
  ℕ, ◌≡◌, refl, false, not, ◌&&◌, none, some, ◌∷◌, arith, inl, inr, Option-cases,
}
use aiops_x_enterprise_new.Core.Errors.{ok, app_error, required, >>=-eq-ok, required-eq-ok}
use aiops_x_enterprise_new.Identity.Scope.{RequiredAccess, require_permission}
use aiops_x_enterprise_new.References.{Directory}
use aiops_x_enterprise_new.Incident.Models.{
  Incident, IncidentStatus, IncidentTimelineEntry, IncidentPostmortem, PostmortemUpsert,
  IncidentCreate, IncidentUpdate, TimelineEntryCreate, IncidentDb,
}
use aiops_x_enterprise_new.Incident.Policy.{approved_requires_content}
use aiops_x_enterprise_new.Incident.Effects.{
  IncidentCall, find_incident, get_incident_in_scope, put_incident, has_incident, postmortem_of,
  audit_incident,
}
use aiops_x_enterprise_new.Incident.Draft.{new_incident, create_incident_tx, add_timeline_entry_tx}
use aiops_x_enterprise_new.Incident.Update.{
  Columns, patched_columns, patched_incident, check_status, moved_incident, is_move, is_closure,
  has_approved_postmortem, check_update, apply_update, update_incident_tx,
}
use aiops_x_enterprise_new.Incident.Postmortem.{
  written, sealed, check_approval, put_postmortem, upsert_postmortem_tx,
}

pub record CreatesIncident (call : IncidentCall) (p : IncidentCreate) (s s' : IncidentDb)
    (c' : Incident) : Type 0 where
  pub row : c' ≡ new_incident call p
  pub fresh : has_incident call.readings.incident_id s.incidents ≡ false
  pub incidents : s'.incidents ≡ c' ∷ s.incidents
  pub postmortems : s'.postmortems ≡ s.postmortems

pub create_incident_tx-ok :
    (call : IncidentCall) (dir : Directory) (p : IncidentCreate) (s s' : IncidentDb) (c' : Incident)
    → create_incident_tx call dir p s ≡ ok (c', s')
    → CreatesIncident call p s s' c'
unfolding audit_incident create_incident_tx new_incident
create_incident_tx-ok call dir p s s' c' h = ground arith

pub record UpdatesIncident (call : IncidentCall) (u : IncidentUpdate) (id : ℕ) (s s' : IncidentDb)
    (c new c' : Incident) : Type 0 where
  pub columns : Columns
  pub found : find_incident call.principal.tenant_id id s.incidents ≡ some c
  pub allowed : check_status u.status c.status ≡ ok tt
  pub columns_ok : patched_columns u c ≡ ok columns
  pub patched : new ≡ patched_incident u columns c
  pub approved :
      (is_move c.status new
        && (is_closure new.status && not (has_approved_postmortem new.id s.postmortems)))
      ≡ false
  pub row : c' ≡ moved_incident call.readings.now c.status new
  pub incidents : s'.incidents ≡ put_incident c' s.incidents
  pub postmortems : s'.postmortems ≡ s.postmortems

pub record WritesPostmortem (call : IncidentCall) (id : ℕ) (p : PostmortemUpsert)
    (s s' : IncidentDb) (c : Incident) (w : IncidentPostmortem) : Type 0 where
  pub found : find_incident call.principal.tenant_id id s.incidents ≡ some c
  pub content : approved_requires_content call.runtime p ≡ ok tt
  pub allowed :
      check_approval call.principal (written call p c (postmortem_of c.id s.postmortems)) ≡ ok tt
  pub row : w ≡ sealed call (written call p c (postmortem_of c.id s.postmortems))
  pub incidents : s'.incidents ≡ s.incidents
  pub postmortems : s'.postmortems ≡ put_postmortem w s.postmortems

check_update-ok :
    (call : IncidentCall) (dir : Directory) (needed : RequiredAccess) (u : IncidentUpdate)
    (c : Incident) (columns : Columns)
    → check_update call dir needed u c ≡ ok columns
    → (check_status u.status c.status ≡ ok tt) × (patched_columns u c ≡ ok columns)
unfolding check_update
check_update-ok call dir needed u c columns h = ground arith

pub record Applies (call : IncidentCall) (old : IncidentStatus) (new c' : Incident)
    (s s' : IncidentDb) : Type 0 where
  pub approved :
      (is_move old new
        && (is_closure new.status && not (has_approved_postmortem new.id s.postmortems)))
      ≡ false
  pub row : c' ≡ moved_incident call.readings.now old new
  pub incidents : s'.incidents ≡ put_incident c' s.incidents
  pub postmortems : s'.postmortems ≡ s.postmortems

apply_update-ok :
    (call : IncidentCall) (u : IncidentUpdate) (old : IncidentStatus) (new c' : Incident)
    (s s' : IncidentDb)
    → apply_update call u old new s ≡ ok (c', s')
    → Applies call old new c' s s'
unfolding apply_update audit_incident
apply_update-ok call u old new c' s s' h = ground arith

pub update_incident_tx-ok :
    (call : IncidentCall) (dir : Directory) (id : ℕ) (u : IncidentUpdate) (s s' : IncidentDb)
    (c' : Incident)
    → update_incident_tx call dir id u s ≡ ok (c', s')
    → (c : Incident) × (new : Incident) × UpdatesIncident call u id s s' c new c'
unfolding update_incident_tx get_incident_in_scope
update_incident_tx-ok call dir id u s s' c' h =
    let (needed, granted, h1) =
      >>=-eq-ok (require_permission "incident:write" call.principal) _ h in
    let (c, found, h2) =
      >>=-eq-ok
        (required (find_incident call.principal.tenant_id id s.incidents)
          (app_error "AIOPS_8104" 404))
        _ h1 in
    let (columns, checked, h3) = >>=-eq-ok (check_update call dir needed u c) _ h2 in
    let checks = check_update-ok call dir needed u c columns checked in
    let new : Incident = patched_incident u columns c in
    let done = apply_update-ok call u c.status new c' s s' h3 in
    (
      c,
      new,
      record {
        columns = columns;
        found = required-eq-ok _ _ found;
        allowed = checks.0;
        columns_ok = checks.1;
        patched = refl;
        approved = done.approved;
        row = done.row;
        incidents = done.incidents;
        postmortems = done.postmortems;
      },
    )

postmortem_missing :
    (call : IncidentCall) (dir : Directory) (id : ℕ) (p : PostmortemUpsert) (s s' : IncidentDb)
    (w : IncidentPostmortem)
    → find_incident call.principal.tenant_id id s.incidents ≡ none
    → upsert_postmortem_tx call dir id p s ≡ ok (w, s')
    → ⊥
unfolding get_incident_in_scope upsert_postmortem_tx
postmortem_missing call dir id p s s' w e h = ground arith

postmortem_found :
    (call : IncidentCall) (dir : Directory) (id : ℕ) (p : PostmortemUpsert) (s s' : IncidentDb)
    (c : Incident) (w : IncidentPostmortem)
    → find_incident call.principal.tenant_id id s.incidents ≡ some c
    → upsert_postmortem_tx call dir id p s ≡ ok (w, s')
    → WritesPostmortem call id p s s' c w
unfolding get_incident_in_scope audit_incident upsert_postmortem_tx
postmortem_found call dir id p s s' c w e h = ground arith

pub upsert_postmortem_tx-ok :
    (call : IncidentCall) (dir : Directory) (id : ℕ) (p : PostmortemUpsert) (s s' : IncidentDb)
    (w : IncidentPostmortem)
    → upsert_postmortem_tx call dir id p s ≡ ok (w, s')
    → (c : Incident) × WritesPostmortem call id p s s' c w
upsert_postmortem_tx-ok call dir id p s s' w h =
    elim (Option-cases (find_incident call.principal.tenant_id id s.incidents)) [
      | inl e ↦ absurd (postmortem_missing call dir id p s s' w e h)
      | inr (c, e) ↦ (c, postmortem_found call dir id p s s' c w e h)
    ]

pub add_timeline_entry_tx-ok :
    (call : IncidentCall) (dir : Directory) (id : ℕ) (p : TimelineEntryCreate) (s s' : IncidentDb)
    (e : IncidentTimelineEntry)
    → add_timeline_entry_tx call dir id p s ≡ ok (e, s')
    → (s'.incidents ≡ s.incidents) × (s'.postmortems ≡ s.postmortems)
unfolding audit_incident add_timeline_entry_tx
add_timeline_entry_tx-ok call dir id p s s' e h = ground arith
