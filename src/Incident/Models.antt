-- ===== src/Incident/Models.antt =====
-- apps/api/src/aiops_x_api/modules/incident: the rows of infrastructure/models.py and the request
-- bodies of schemas.py. The columns `created_at` and `updated_at` are the database's own.
use Prim.Native.String.{String}
use aiops_x_enterprise_new.Prelude.{ℕ, Option, List}
use aiops_x_enterprise_new.Core.Json.{Fields}
use aiops_x_enterprise_new.Core.Patch.{JsonList, Patch}
use aiops_x_enterprise_new.Audit.Models.{AuditStore}

pub data IncidentSeverity : Type 0 where
  info warning critical emergency : IncidentSeverity

pub data IncidentStatus : Type 0 where
  opened acknowledged investigating mitigated resolved closed cancelled : IncidentStatus

pub record Incident : Type 0 where
  pub id : ℕ
  pub incident_number : String
  pub tenant_id : ℕ
  pub project_id : ℕ
  pub source_event_id : Option ℕ
  pub title : String
  pub description : String
  pub severity : IncidentSeverity
  pub status : IncidentStatus
  pub owner_id : Option ℕ
  pub participant_ids : JsonList ℕ
  pub impact_scope : Option Fields
  pub asset_ids : JsonList ℕ
  pub alert_ids : JsonList ℕ
  pub change_ids : JsonList ℕ
  pub evidence_ids : JsonList ℕ
  pub root_cause_candidates : JsonList Fields
  pub resolution_steps : JsonList Fields
  pub approval_refs : JsonList String
  pub sla_policy : Fields
  pub acknowledged_at : Option ℕ
  pub resolved_at : Option ℕ
  pub restored_at : Option ℕ
  pub closed_at : Option ℕ
  pub response_due_at : Option ℕ
  pub resolution_due_at : Option ℕ
  pub created_by : ℕ

pub data EntryType : Type 0 where
  observation action decision status_change communication evidence : EntryType

pub record IncidentTimelineEntry : Type 0 where
  pub id : ℕ
  pub tenant_id : ℕ
  pub project_id : ℕ
  pub incident_id : ℕ
  pub occurred_at : ℕ
  pub entry_type : EntryType
  pub title : String
  pub description : String
  pub evidence_ids : JsonList ℕ
  pub metadata_json : Fields
  pub created_by : ℕ

pub data PostmortemStatus : Type 0 where
  draft in_review approved published : PostmortemStatus

pub data GeneratedBy : Type 0 where
  human ai_assisted : GeneratedBy

-- The fields of a postmortem that its writer sets: the body of `PUT …/postmortem`.
pub record PostmortemUpsert : Type 0 where
  pub status : PostmortemStatus
  pub summary : String
  pub customer_impact : String
  pub root_cause : String
  pub trigger : String
  pub detection : String
  pub response : String
  pub resolution : String
  pub lessons_learned : String
  pub action_items : List Fields
  pub evidence_ids : List ℕ
  pub report_object_ref : Option String
  pub generated_by : GeneratedBy

pub record IncidentPostmortem : Type 0 where
  pub id : ℕ
  pub tenant_id : ℕ
  pub project_id : ℕ
  pub incident_id : ℕ
  pub content : PostmortemUpsert
  pub approved_by : Option ℕ
  pub approved_at : Option ℕ
  pub created_by : ℕ

-- The tables that the handlers write, the newest row first.
pub record IncidentDb : Type 0 where
  pub incidents : List Incident
  pub timeline : List IncidentTimelineEntry
  pub postmortems : List IncidentPostmortem
  pub audit : AuditStore

pub record IncidentCreate : Type 0 where
  pub project_id : ℕ
  pub source_event_id : Option ℕ
  pub title : String
  pub description : String
  pub severity : IncidentSeverity
  pub owner_id : Option ℕ
  pub participant_ids : List ℕ
  pub impact_scope : Fields
  pub asset_ids : List ℕ
  pub alert_ids : List ℕ
  pub change_ids : List ℕ
  pub evidence_ids : List ℕ
  pub sla_policy : Fields
  pub response_due_at : Option ℕ
  pub resolution_due_at : Option ℕ

pub record IncidentUpdate : Type 0 where
  pub title : Patch String
  pub description : Patch String
  pub severity : Patch IncidentSeverity
  pub status : Patch IncidentStatus
  pub owner_id : Patch ℕ
  pub participant_ids : Patch (List ℕ)
  pub impact_scope : Patch Fields
  pub asset_ids : Patch (List ℕ)
  pub alert_ids : Patch (List ℕ)
  pub change_ids : Patch (List ℕ)
  pub evidence_ids : Patch (List ℕ)
  pub root_cause_candidates : Patch (List Fields)
  pub resolution_steps : Patch (List Fields)
  pub approval_refs : Patch (List String)
  pub restored_at : Patch ℕ

pub record TimelineEntryCreate : Type 0 where
  pub occurred_at : ℕ
  pub entry_type : EntryType
  pub title : String
  pub description : String
  pub evidence_ids : List ℕ
  pub metadata : Fields
