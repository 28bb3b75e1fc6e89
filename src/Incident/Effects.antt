-- ===== src/Incident/Effects.antt =====
-- What the handlers of apps/api/src/aiops_x_api/modules/incident/api.py share: lookups, the links
-- of an incident to other rows, its audit entry, and the end of the transaction.
use Prim.Native.String.{String}
use aiops_x_enterprise_new.Prelude.{
  ℕ, ◌==◌, Bool, ◌&&◌, Option, none, some, List, [], ◌∷◌, some_of, if◌then◌else◌,
}
use aiops_x_enterprise_new.Core.Errors.{Result, ok, err, app_error, required, ◌>>=◌, ◌>>◌}
use aiops_x_enterprise_new.Core.Json.{Fields}
use aiops_x_enterprise_new.Core.Patch.{given}
use aiops_x_enterprise_new.Core.Runtime.{Runtime}
use aiops_x_enterprise_new.Identity.Principal.{Principal}
use aiops_x_enterprise_new.Identity.Scope.{AssetScope}
use aiops_x_enterprise_new.References.{
  Directory, require_event_ref, require_asset_refs, require_alert_refs, require_change_refs,
}
use aiops_x_enterprise_new.Audit.Append.{RequestState, AuditReadings, append_audit}
use aiops_x_enterprise_new.Incident.Models.{Incident, IncidentPostmortem, IncidentDb}

-- What one request reads from the clock and from `uuid4()`.
pub record IncidentReadings : Type 0 where
  pub now : ℕ
  pub incident_id : ℕ
  pub number_at : ℕ
  pub number_id : ℕ
  pub entry_id : ℕ
  pub entry_at : ℕ
  pub postmortem_id : ℕ
  pub audit : AuditReadings

pub record IncidentCall : Type 0 where
  pub runtime : Runtime
  pub principal : Principal
  pub request : RequestState
  pub readings : IncidentReadings

abbrev pub find_incident : ℕ → ℕ → List Incident → Option Incident
find_incident tenant id [] = none
find_incident tenant id (c ∷ rest) =
    let found = find_incident tenant id rest in
    if c.id == id && c.tenant_id == tenant then some c else found

unfoldable pub get_incident_in_scope : ℕ → ℕ → IncidentDb → Result Incident
get_incident_in_scope tenant id s =
    required (find_incident tenant id s.incidents) (app_error "AIOPS_8104" 404)

-- The row of a changed object is written back.
unfoldable pub put_incident : Incident → List Incident → List Incident
put_incident c [] = []
put_incident c (x ∷ rest) = (if x.id == c.id then c else x) ∷ put_incident c rest

abbrev pub has_incident : ℕ → List Incident → Bool
has_incident id rows = some_of (λ (c : Incident). c.id == id) rows

-- An incident has one postmortem at most.
abbrev pub postmortem_of : ℕ → List IncidentPostmortem → Option IncidentPostmortem
postmortem_of incident [] = none
postmortem_of incident (p ∷ rest) =
    let found = postmortem_of incident rest in if p.incident_id == incident then some p else found

unfoldable pub validate_incident_links :
    Directory → ℕ → ℕ → Option ℕ → List ℕ → List ℕ → List ℕ → Result (List AssetScope)
validate_incident_links d tenant project source_event asset_ids alert_ids change_ids = do
  require_event_ref d tenant project source_event
  assets ← require_asset_refs d tenant project asset_ids
  require_alert_refs d tenant project alert_ids
  require_change_refs d tenant project change_ids
  ok assets

-- The `append_audit` call of a handler.
unfoldable pub audit_incident :
    IncidentCall → String → String → ℕ → ℕ → Fields → IncidentDb → IncidentDb
audit_incident call action resource project id metadata s = record s {
  audit =
      append_audit call.runtime call.readings.audit call.request
        (record {
          action = action;
          resource_type = resource;
          outcome = "success";
          principal = some call.principal;
          actor_id = none;
          actor_type = none;
          tenant_id = none;
          project_id = some project;
          resource_id = some (call.runtime.uuid_text id);
          metadata = metadata;
          producer = "aiops-x-api";
        })
        s.audit;
}

-- `IncidentResponse.model_validate(incident)`: a list or an object that is `null` does not
-- validate.
unfoldable pub validate_incident : Incident → Result Incident
validate_incident c =
    if given c.participant_ids
      && (given c.impact_scope
          && (given c.asset_ids
              && (given c.alert_ids
                  && (given c.change_ids
                      && (given c.evidence_ids
                          && (given c.root_cause_candidates
                              && (given c.resolution_steps && given c.approval_refs)))))))
    then ok c
    else err (app_error "ResponseValidationError" 500)

-- `async with session.begin()`, and what is done with the row after the commit.
unfoldable pub finish {ℓ κ} :
    {A : Type ℓ} {B : Type κ}
    → (A → Result B)
    → Result (A × IncidentDb)
    → IncidentDb
    → Result B × IncidentDb
finish respond (err e) s = (err e, s)
finish respond (ok (a, s')) s = (respond a, s')
