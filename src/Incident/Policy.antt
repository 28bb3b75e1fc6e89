-- ===== src/Incident/Policy.antt =====
-- apps/api/src/aiops_x_api/modules/incident: the transition table of application.py, the rules of
-- schemas.py, and the words that rows and audit entries hold.
use Prim.Native.String.{String, ◌++◌}
use aiops_x_enterprise_new.Prelude.{
  ℕ, Bool, true, false, not, ◌&&◌, ◌==◌, List, [], ◌∷◌, some, some_of, str_eq, if◌then◌else◌,
}
use aiops_x_enterprise_new.Core.Errors.{Result, ok, err, app_error}
use aiops_x_enterprise_new.Core.Runtime.{Runtime}
use aiops_x_enterprise_new.Core.Patch.{filled}
use aiops_x_enterprise_new.Incident.Models.{
  IncidentSeverity, IncidentStatus, EntryType, PostmortemStatus, GeneratedBy, PostmortemUpsert,
}

abbrev pub incident_status_no : IncidentStatus → ℕ
incident_status_no IncidentStatus.opened = 0
incident_status_no IncidentStatus.acknowledged = 1
incident_status_no IncidentStatus.investigating = 2
incident_status_no IncidentStatus.mitigated = 3
incident_status_no IncidentStatus.resolved = 4
incident_status_no IncidentStatus.closed = 5
incident_status_no IncidentStatus.cancelled = 6

abbrev pub equal_status : IncidentStatus → IncidentStatus → Bool
equal_status a b = incident_status_no a == incident_status_no b

-- `ALLOWED_TRANSITIONS`.
unfoldable pub allowed_transitions : IncidentStatus → List IncidentStatus
allowed_transitions IncidentStatus.opened =
    IncidentStatus.acknowledged ∷ IncidentStatus.investigating ∷ IncidentStatus.cancelled ∷ []
allowed_transitions IncidentStatus.acknowledged =
    IncidentStatus.investigating ∷ IncidentStatus.mitigated ∷ IncidentStatus.cancelled ∷ []
allowed_transitions IncidentStatus.investigating =
    IncidentStatus.mitigated ∷ IncidentStatus.resolved ∷ IncidentStatus.cancelled ∷ []
allowed_transitions IncidentStatus.mitigated =
    IncidentStatus.investigating ∷ IncidentStatus.resolved ∷ []
allowed_transitions IncidentStatus.resolved =
    IncidentStatus.investigating ∷ IncidentStatus.closed ∷ []
allowed_transitions IncidentStatus.closed = []
allowed_transitions IncidentStatus.cancelled = []

unfoldable pub validate_transition : IncidentStatus → IncidentStatus → Result (Unit {0})
unfolding allowed_transitions
validate_transition current target =
    if equal_status target current
    then ok tt
    else if not (some_of (λ s. equal_status s target) (allowed_transitions current))
    then err (app_error "AIOPS_8109" 409)
    else ok tt

unfoldable pub human_incident_number : Runtime → ℕ → ℕ → String
human_incident_number rt at id = "INC-" ++ rt.date_text at ++ "-" ++ rt.uuid_short id

abbrev pub is_final_text : PostmortemStatus → Bool
is_final_text PostmortemStatus.approved = true
is_final_text PostmortemStatus.published = true
is_final_text _ = false

abbrev pub by_machine : GeneratedBy → Bool
by_machine GeneratedBy.ai_assisted = true
by_machine GeneratedBy.human = false

-- `bool(text.strip())`.
abbrev pub has_words : Runtime → String → Bool
has_words rt s = not (str_eq (rt.strip s) "")

unfoldable pub approved_requires_content : Runtime → PostmortemUpsert → Result (Unit {0})
approved_requires_content rt p =
    if is_final_text p.status
      && not (has_words rt p.summary && (has_words rt p.root_cause && filled (some p.action_items)))
    then err (app_error "RequestValidationError" 422)
    else if by_machine p.generated_by && not (filled (some p.evidence_ids))
    then err (app_error "RequestValidationError" 422)
    else ok tt

abbrev pub incident_status_text : IncidentStatus → String
incident_status_text IncidentStatus.opened = "open"
incident_status_text IncidentStatus.acknowledged = "acknowledged"
incident_status_text IncidentStatus.investigating = "investigating"
incident_status_text IncidentStatus.mitigated = "mitigated"
incident_status_text IncidentStatus.resolved = "resolved"
incident_status_text IncidentStatus.closed = "closed"
incident_status_text IncidentStatus.cancelled = "cancelled"

abbrev pub severity_text : IncidentSeverity → String
severity_text IncidentSeverity.info = "info"
severity_text IncidentSeverity.warning = "warning"
severity_text IncidentSeverity.critical = "critical"
severity_text IncidentSeverity.emergency = "emergency"

abbrev pub entry_type_text : EntryType → String
entry_type_text EntryType.observation = "observation"
entry_type_text EntryType.action = "action"
entry_type_text EntryType.decision = "decision"
entry_type_text EntryType.status_change = "status_change"
entry_type_text EntryType.communication = "communication"
entry_type_text EntryType.evidence = "evidence"

abbrev pub postmortem_status_text : PostmortemStatus → String
postmortem_status_text PostmortemStatus.draft = "draft"
postmortem_status_text PostmortemStatus.in_review = "in_review"
postmortem_status_text PostmortemStatus.approved = "approved"
postmortem_status_text PostmortemStatus.published = "published"

abbrev pub generated_by_text : GeneratedBy → String
generated_by_text GeneratedBy.human = "human"
generated_by_text GeneratedBy.ai_assisted = "ai_assisted"
