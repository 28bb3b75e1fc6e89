-- ===== src/Audit/Models.antt =====
-- apps/api/src/aiops_x_api/modules/audit/infrastructure/models.py: the rows of the audit log and of
-- the event outbox.
use aiops_x_enterprise_new.Prelude.{ℕ, String, Option, List}
use aiops_x_enterprise_new.Core.Json.{Json, Fields}

pub record AuditLog : Type 0 where
  pub id : ℕ
  pub tenant_id : Option ℕ
  pub project_id : Option ℕ
  pub actor_type : String
  pub actor_id : String
  pub action : String
  pub resource_type : String
  pub resource_id : Option String
  pub request_id : String
  pub trace_id : String
  pub outcome : String
  pub metadata_json : Fields
  pub partition_key : String
  pub sequence_no : ℕ
  pub previous_hash : String
  pub entry_hash : String
  pub archived_at : Option ℕ
  pub archive_object_ref : Option String
  pub created_at : ℕ

pub data OutboxStatus : Type 0 where
  pending published : OutboxStatus

pub record EventOutbox : Type 0 where
  pub id : ℕ
  pub tenant_id : ℕ
  pub project_id : Option ℕ
  pub event_type : String
  pub subject : String
  pub payload : Json
  pub status : OutboxStatus
  pub attempts : ℕ
  pub next_attempt_at : ℕ
  pub last_error : Option String
  pub published_at : Option ℕ
  pub created_at : ℕ

-- The two tables, the newest row first.
pub record AuditStore : Type 0 where
  pub logs : List AuditLog
  pub outbox : List EventOutbox
