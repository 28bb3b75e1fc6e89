-- ===== src/Change/Models.antt =====
-- apps/api/src/aiops_x_api/modules/change: the rows of infrastructure/models.py and the request
-- bodies of schemas.py. The columns `created_at` and `updated_at` are the database's own.
use Prim.Native.String.{String}
use aiops_x_enterprise_new.Prelude.{ℕ, Bool, Option, List}
use aiops_x_enterprise_new.Audit.Models.{AuditStore}
use aiops_x_enterprise_new.Core.Json.{Fields}
use aiops_x_enterprise_new.Core.Patch.{JsonList, Patch}

pub data RiskLevel : Type 0 where
  r0 r1 r2 r3 r4 : RiskLevel

pub data ChangeType : Type 0 where
  standard normal emergency : ChangeType

pub data ChangeStatus : Type 0 where
  draft pending_approval approved scheduled in_progress validating : ChangeStatus
  completed failed rolled_back rejected cancelled : ChangeStatus

-- A list of JSON objects: the plans of a change.
abbrev pub Plan : Type 0
Plan = List Fields

pub record ChangeRequest : Type 0 where
  pub id : ℕ
  pub change_number : String
  pub tenant_id : ℕ
  pub project_id : ℕ
  pub title : String
  pub description : String
  pub change_type : ChangeType
  pub risk_level : RiskLevel
  pub status : ChangeStatus
  pub gxp_impact : Bool
  pub affected_asset_ids : JsonList ℕ
  pub incident_ids : JsonList ℕ
  pub evidence_ids : JsonList ℕ
  pub implementation_plan : JsonList Fields
  pub precheck_plan : JsonList Fields
  pub validation_plan : JsonList Fields
  pub success_criteria : JsonList Fields
  pub rollback_plan : JsonList Fields
  pub impact_analysis : Option Fields
  pub approval_policy_snapshot : Fields
  pub required_approvals : ℕ
  pub scheduled_start : Option ℕ
  pub scheduled_end : Option ℕ
  pub configuration_backup_ref : Option String
  pub automation_job_id : Option ℕ
  pub requested_by : ℕ
  pub submitted_at : Option ℕ
  pub approved_at : Option ℕ
  pub started_at : Option ℕ
  pub completed_at : Option ℕ
  pub failure_reason : Option String

pub data Decision : Type 0 where
  approved rejected : Decision

pub record ChangeApprovalDecision : Type 0 where
  pub id : ℕ
  pub change_id : ℕ
  pub tenant_id : ℕ
  pub decision : Decision
  pub approver_id : ℕ
  pub comment : String
  pub decided_at : ℕ

pub record ChangeTimelineEntry : Type 0 where
  pub id : ℕ
  pub change_id : ℕ
  pub tenant_id : ℕ
  pub occurred_at : ℕ
  pub status : ChangeStatus
  pub title : String
  pub details : Fields
  pub created_by : ℕ

-- The tables that the handlers write, the newest row first.
pub record ChangeDb : Type 0 where
  pub changes : List ChangeRequest
  pub decisions : List ChangeApprovalDecision
  pub timeline : List ChangeTimelineEntry
  pub audit : AuditStore

pub record ChangeCreate : Type 0 where
  pub project_id : ℕ
  pub title : String
  pub description : String
  pub change_type : ChangeType
  pub risk_level : RiskLevel
  pub gxp_impact : Bool
  pub affected_asset_ids : List ℕ
  pub incident_ids : List ℕ
  pub evidence_ids : List ℕ
  pub implementation_plan : Plan
  pub precheck_plan : Plan
  pub validation_plan : Plan
  pub success_criteria : Plan
  pub rollback_plan : Plan
  pub impact_analysis : Fields
  pub scheduled_start : Option ℕ
  pub scheduled_end : Option ℕ
  pub configuration_backup_ref : Option String

pub record ChangeUpdate : Type 0 where
  pub title : Patch String
  pub description : Patch String
  pub affected_asset_ids : Patch (List ℕ)
  pub incident_ids : Patch (List ℕ)
  pub evidence_ids : Patch (List ℕ)
  pub implementation_plan : Patch Plan
  pub precheck_plan : Patch Plan
  pub validation_plan : Patch Plan
  pub success_criteria : Patch Plan
  pub rollback_plan : Patch Plan
  pub impact_analysis : Patch Fields
  pub scheduled_start : Patch ℕ
  pub scheduled_end : Patch ℕ
  pub configuration_backup_ref : Patch String

pub record ApprovalDecisionCreate : Type 0 where
  pub decision : Decision
  pub comment : String

-- `status` of a `ChangeStatusUpdate` is one of these.
pub data TargetStatus : Type 0 where
  scheduled in_progress validating completed failed rolled_back cancelled : TargetStatus

pub record ChangeStatusUpdate : Type 0 where
  pub status : TargetStatus
  pub failure_reason : Option String
  pub automation_job_id : Option ℕ
