-- ===== src/Agents/Models.antt =====
-- apps/api/src/aiops_x_api/modules/agent_control: the rows of infrastructure/models.py, the request
-- bodies of schemas.py, and what modules/cmdb/application.py keeps of an asset's agent.
use aiops_x_enterprise_new.Prelude.{ℕ, String, Option}
use aiops_x_enterprise_new.Core.Json.{Fields}
use aiops_x_enterprise_new.Change.Models.{RiskLevel}

pub data TaskStatus : Type 0 where
  queued running succeeded failed canceled : TaskStatus

pub data AgentStatus : Type 0 where
  registered online disabled : AgentStatus

pub record AgentRegistrationToken : Type 0 where
  pub id : ℕ
  pub tenant_id : ℕ
  pub project_id : ℕ
  pub asset_id : ℕ
  pub token_hash : String
  pub token_prefix : String
  pub expires_at : ℕ
  pub used_at : Option ℕ
  pub created_by : ℕ

pub record EdgeAgent : Type 0 where
  pub id : ℕ
  pub tenant_id : ℕ
  pub project_id : ℕ
  pub asset_id : ℕ
  pub name : String
  pub hostname : String
  pub platform : String
  pub architecture : String
  pub version : String
  pub status : AgentStatus
  pub health_status : String
  pub capabilities : Fields
  pub certificate_serial : String
  pub certificate_fingerprint : String
  pub certificate_not_after : ℕ
  pub previous_certificate_serial : Option String
  pub previous_certificate_fingerprint : Option String
  pub previous_certificate_not_after : Option ℕ
  pub last_renewal_csr_fingerprint : Option String
  pub last_heartbeat_at : Option ℕ
  pub disabled_at : Option ℕ
  pub disabled_by : Option ℕ
  pub disable_reason : Option String

pub record AgentTask : Type 0 where
  pub id : ℕ
  pub tenant_id : ℕ
  pub project_id : ℕ
  pub asset_id : ℕ
  pub agent_id : ℕ
  pub automation_job_id : Option ℕ
  pub action_id : String
  pub parameters : Fields
  pub risk_level : RiskLevel
  pub status : TaskStatus
  pub idempotency_key : String
  pub created_by : ℕ
  pub expires_at : ℕ
  pub started_at : Option ℕ
  pub completed_at : Option ℕ
  pub duration_ms : Option ℕ
  pub sanitized_output : Fields
  pub error_code : Option String
  pub error_message : Option String
  pub created_at : ℕ

pub record RegistrationTokenCreate : Type 0 where
  pub project_id : ℕ
  pub asset_id : ℕ
  pub expires_in_seconds : ℕ

pub record AgentEnrollmentRequest : Type 0 where
  pub registration_token : String
  pub name : String
  pub hostname : String
  pub platform : String
  pub architecture : String
  pub version : String
  pub csr_pem : String
  pub capabilities : Fields

pub record AgentHeartbeatRequest : Type 0 where
  pub hostname : String
  pub platform : String
  pub architecture : String
  pub version : String
  pub health_status : String
  pub capabilities : Fields

pub record AgentTaskCreate : Type 0 where
  pub action_id : String
  pub parameters : Fields
  pub expires_in_seconds : ℕ

-- `Literal["succeeded", "failed"]`.
pub data ResultStatus : Type 0 where
  succeeded failed : ResultStatus

pub record AgentTaskResult : Type 0 where
  pub status : ResultStatus
  pub duration_ms : ℕ
  pub sanitized_output : Fields
  pub error_code : Option String
  pub error_message : Option String

-- The columns of an asset that the handlers of agents and jobs read or write.
pub record Asset : Type 0 where
  pub id : ℕ
  pub tenant_id : ℕ
  pub project_id : ℕ
  pub asset_type : String
  pub gxp_classification : String
  pub hostname : Option String
  pub agent_status : String
  pub last_connected_at : Option ℕ
