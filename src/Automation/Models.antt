-- ===== src/Automation/Models.antt =====
-- apps/api/src/aiops_x_api/modules/automation: the rows of infrastructure/models.py and the request
-- bodies of schemas.py. The columns `created_at` and `updated_at` are the database's own.
use aiops_x_enterprise_new.Prelude.{ℕ, String, Bool, Option, List}
use aiops_x_enterprise_new.Core.Json.{Fields}
use aiops_x_enterprise_new.Change.Models.{RiskLevel, Decision}

pub data JobStatus : Type 0 where
  awaiting_approval queued running succeeded failed rejected canceled : JobStatus

pub data JobApproval : Type 0 where
  not_required pending approved rejected : JobApproval

pub data ApprovalStatus : Type 0 where
  pending approved rejected : ApprovalStatus

pub record Runbook : Type 0 where
  pub id : ℕ
  pub tenant_id : ℕ
  pub project_id : ℕ
  pub slug : String
  pub name : String
  pub description : String
  pub status : String
  pub current_version : ℕ
  pub created_by : ℕ

pub record RunbookVersion : Type 0 where
  pub id : ℕ
  pub runbook_id : ℕ
  pub version : ℕ
  pub action_id : String
  pub asset_types : List String
  pub input_schema : Fields
  pub risk_level : RiskLevel
  pub required_permissions : List String
  pub timeout_seconds : ℕ
  pub retry_policy : Fields
  pub idempotent : Bool
  pub pre_checks : List Fields
  pub execution_steps : List Fields
  pub post_checks : List Fields
  pub success_conditions : List String
  pub failure_conditions : List String
  pub rollback_steps : List Fields
  pub approval_policy : Fields
  pub maintenance_window_required : Bool
  pub output_redaction_rules : List String
  pub checksum : String
  pub created_by : ℕ

pub record AutomationJob : Type 0 where
  pub id : ℕ
  pub job_id : String
  pub tenant_id : ℕ
  pub project_id : ℕ
  pub asset_id : ℕ
  pub agent_id : ℕ
  pub event_id : Option ℕ
  pub runbook_id : ℕ
  pub runbook_version_id : ℕ
  pub runbook_version : ℕ
  pub action_id : String
  pub risk_level : RiskLevel
  pub status : JobStatus
  pub approval_status : JobApproval
  pub inputs : Fields
  pub sanitized_output : Fields
  pub policy_snapshot : Fields
  pub idempotency_key : String
  pub requested_by : ℕ
  pub started_at : Option ℕ
  pub completed_at : Option ℕ
  pub duration_ms : Option ℕ
  pub error_code : Option String
  pub error_message : Option String

pub record ApprovalRequest : Type 0 where
  pub id : ℕ
  pub approval_id : String
  pub tenant_id : ℕ
  pub project_id : ℕ
  pub job_id : ℕ
  pub risk_level : RiskLevel
  pub status : ApprovalStatus
  pub required_approvals : ℕ
  pub requester_id : ℕ
  pub expires_at : ℕ
  pub resolved_at : Option ℕ

pub record ApprovalDecision : Type 0 where
  pub id : ℕ
  pub approval_request_id : ℕ
  pub approver_id : ℕ
  pub decision : Decision
  pub comment : String
  pub decided_at : ℕ

pub record AutomationJobCreate : Type 0 where
  pub runbook_id : ℕ
  pub runbook_version : ℕ
  pub asset_id : ℕ
  pub event_id : Option ℕ
  pub inputs : Fields

pub record ApprovalDecisionCreate : Type 0 where
  pub decision : Decision
  pub comment : String

-- modules/operations/infrastructure/models.py: what the contracts of that module read and write.
pub record OperationsEvent : Type 0 where
  pub id : ℕ
  pub tenant_id : ℕ
  pub project_id : ℕ
  pub primary_asset_id : ℕ

pub record MaintenanceWindow : Type 0 where
  pub tenant_id : ℕ
  pub project_id : ℕ
  pub asset_id : Option ℕ
  pub starts_at : ℕ
  pub ends_at : ℕ
  pub enabled : Bool

pub record EventTimelineEntry : Type 0 where
  pub id : ℕ
  pub tenant_id : ℕ
  pub project_id : ℕ
  pub event_id : ℕ
  pub occurred_at : ℕ
  pub category : String
  pub title : String
  pub description : String
  pub source_type : String
  pub source_id : Option String
  pub evidence_refs : List Fields
  pub metadata_json : Fields
