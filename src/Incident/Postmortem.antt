-- ===== src/Incident/Postmortem.antt =====
-- apps/api/src/aiops_x_api/modules/incident/api.py: `upsert_postmortem`.
use Prim.Native.String.{String}
use aiops_x_enterprise_new.Prelude.{
  ℕ, ◌==◌, Bool, true, not, ◌&&◌, Option, none, some, List, [], ◌∷◌, length, if◌then◌else◌,
}
use aiops_x_enterprise_new.Prelude.Texts.{has_text}
use aiops_x_enterprise_new.Core.Errors.{Result, ok, err, app_error, ◌>>=◌, ◌>>◌}
use aiops_x_enterprise_new.Core.Json.{text, number, end, field}
use aiops_x_enterprise_new.Identity.Principal.{Principal}
use aiops_x_enterprise_new.Identity.Scope.{require_permission, ensure_project_scope}
use aiops_x_enterprise_new.References.{Directory, require_evidence_refs}
use aiops_x_enterprise_new.Incident.Models.{
  Incident, IncidentPostmortem, PostmortemUpsert, IncidentDb,
}
use aiops_x_enterprise_new.Incident.Policy.{
  is_final_text, approved_requires_content, postmortem_status_text, generated_by_text,
}
use aiops_x_enterprise_new.Incident.Effects.{
  IncidentCall, get_incident_in_scope, postmortem_of, audit_incident, finish,
}

-- `{"*", permission}.intersection(principal.permissions)`.
abbrev pub may : String → Principal → Bool
may permission p = if has_text "*" p.permissions then true else has_text permission p.permissions

-- The row that is written to: a new one if the incident has none.
unfoldable pub written :
    IncidentCall → PostmortemUpsert → Incident → Option IncidentPostmortem → IncidentPostmortem
written call p c none = record {
  id = call.readings.postmortem_id;
  tenant_id = c.tenant_id;
  project_id = c.project_id;
  incident_id = c.id;
  content = p;
  approved_by = none;
  approved_at = none;
  created_by = call.principal.user_id;
}
written call p c (some old) = record old { content = p }

-- Who approves, and when; every other text has no approval.
unfoldable pub sealed : IncidentCall → IncidentPostmortem → IncidentPostmortem
sealed call p =
    if is_final_text p.content.status
    then record p {
      approved_by = some call.principal.user_id;
      approved_at = some call.readings.now;
    }
    else record p { approved_by = none; approved_at = none }

unfoldable pub check_approval : Principal → IncidentPostmortem → Result (Unit {0})
check_approval caller p =
    if not (is_final_text p.content.status)
    then ok tt
    else if not (may "postmortem:approve" caller)
    then err (app_error "AIOPS_8112" 403)
    else if p.created_by == caller.user_id && not (may "postmortem:self-approve" caller)
    then err (app_error "AIOPS_8113" 403)
    else ok tt

-- The row of the incident is written back, or added.
unfoldable pub put_postmortem :
    IncidentPostmortem → List IncidentPostmortem → List IncidentPostmortem
put_postmortem p [] = p ∷ []
put_postmortem p (x ∷ rest) =
    let others = put_postmortem p rest in
    if x.incident_id == p.incident_id then p ∷ rest else x ∷ others

unfoldable pub upsert_postmortem_tx :
    IncidentCall
    → Directory
    → ℕ
    → PostmortemUpsert
    → IncidentDb
    → Result (IncidentPostmortem × IncidentDb)
unfolding written sealed check_approval
upsert_postmortem_tx call dir id p s = do
  let caller = call.principal
  needed ← require_permission "postmortem:write" caller
  approved_requires_content call.runtime p
  incident ← get_incident_in_scope caller.tenant_id id s
  ensure_project_scope caller needed incident.project_id
  require_evidence_refs dir caller.tenant_id incident.project_id p.evidence_ids
  let draft = written call p incident (postmortem_of incident.id s.postmortems)
  check_approval caller draft
  let postmortem = sealed call draft
  ok (
    postmortem,
    audit_incident call "incident.postmortem.updated" "postmortem" incident.project_id postmortem.id
        (field "incident_id" (text (call.runtime.uuid_text incident.id)) (
          field "status" (text (postmortem_status_text postmortem.content.status)) (
            field "generated_by" (text (generated_by_text postmortem.content.generated_by))
              (field "evidence_count" (number (length postmortem.content.evidence_ids)) end))))
        (record s { postmortems = put_postmortem postmortem s.postmortems }),
  )

unfoldable pub upsert_postmortem :
    IncidentCall
    → Directory
    → ℕ
    → PostmortemUpsert
    → IncidentDb
    → Result IncidentPostmortem × IncidentDb
unfolding upsert_postmortem_tx finish
upsert_postmortem call dir id p s = finish ok (upsert_postmortem_tx call dir id p s) s
