-- ===== src/Agents/Database.antt =====
-- The tables that the handlers of apps/api/src/aiops_x_api/modules/automation and of agent_control
-- share, a call of such a handler, its audit entries and the end of its transaction.
use aiops_x_enterprise_new.Prelude.{
  ℕ, String, ◌==◌, Bool, true, false, Option, none, some, List, str_eq,
}
use aiops_x_enterprise_new.Core.Errors.{Result, ok, err, app_error, required, ◌>>=◌}
use aiops_x_enterprise_new.Core.Json.{Fields}
use aiops_x_enterprise_new.Core.Runtime.{Runtime}
use aiops_x_enterprise_new.Core.Table.{find_row, find_where, put_row}
use aiops_x_enterprise_new.Identity.Principal.{Principal}
use aiops_x_enterprise_new.Audit.Models.{AuditStore}
use aiops_x_enterprise_new.Audit.Append.{RequestState, AuditReadings, append_audit}
use aiops_x_enterprise_new.Automation.Models.{
  Runbook, RunbookVersion, AutomationJob, ApprovalRequest, ApprovalDecision, OperationsEvent,
  MaintenanceWindow, EventTimelineEntry,
}
use aiops_x_enterprise_new.Agents.Models.{AgentRegistrationToken, EdgeAgent, AgentTask, Asset}

-- What the handlers write.
pub record ControlDb : Type 0 where
  pub jobs : List AutomationJob
  pub approvals : List ApprovalRequest
  pub decisions : List ApprovalDecision
  pub tasks : List AgentTask
  pub tokens : List AgentRegistrationToken
  pub agents : List EdgeAgent
  pub assets : List Asset
  pub timeline : List EventTimelineEntry
  pub audit : AuditStore

-- What they only read.
pub record Catalog : Type 0 where
  pub runbooks : List Runbook
  pub versions : List RunbookVersion
  pub events : List OperationsEvent
  pub windows : List MaintenanceWindow

-- What one request reads from the clock and from `uuid4()`: `now` once, `later` whenever the
-- handler
-- or the database asks again.
pub record ControlReadings : Type 0 where
  pub now : ℕ
  pub later : ℕ
  pub number_at : ℕ
  pub number_id : ℕ
  pub approval_number_at : ℕ
  pub approval_number_id : ℕ
  pub row_id : ℕ
  pub approval_row_id : ℕ
  pub task_row_id : ℕ
  pub timeline_id : ℕ
  pub audit : AuditReadings
  pub second_audit : AuditReadings

-- What a request brings, whoever sends it: a user or an agent.
pub record ControlCall : Type 0 where
  pub runtime : Runtime
  pub request : RequestState
  pub readings : ControlReadings

abbrev pub job_row : ℕ → ControlDb → Option AutomationJob
job_row i s = find_row (λ (x : AutomationJob). x.id) i s.jobs

abbrev pub approval_row : ℕ → ControlDb → Option ApprovalRequest
approval_row i s = find_row (λ (x : ApprovalRequest). x.id) i s.approvals

abbrev pub task_row : ℕ → ControlDb → Option AgentTask
task_row i s = find_row (λ (x : AgentTask). x.id) i s.tasks

abbrev pub agent_row : ℕ → ControlDb → Option EdgeAgent
agent_row i s = find_row (λ (x : EdgeAgent). x.id) i s.agents

abbrev pub put_job : AutomationJob → ControlDb → ControlDb
put_job x s = record s { jobs = put_row (λ (y : AutomationJob). y.id) x s.jobs }

abbrev pub put_approval : ApprovalRequest → ControlDb → ControlDb
put_approval x s = record s { approvals = put_row (λ (y : ApprovalRequest). y.id) x s.approvals }

abbrev pub put_task : AgentTask → ControlDb → ControlDb
put_task x s = record s { tasks = put_row (λ (y : AgentTask). y.id) x s.tasks }

abbrev pub put_agent : EdgeAgent → ControlDb → ControlDb
put_agent x s = record s { agents = put_row (λ (y : EdgeAgent). y.id) x s.agents }

-- The `append_audit` call of a user's request.
unfoldable pub audit_user :
    ControlCall → Principal → String → String → ℕ → ℕ → Fields → ControlDb → ControlDb
audit_user call p action resource_type project id metadata s = record s {
  audit =
      append_audit call.runtime call.readings.audit call.request
        (record {
          action = action;
          resource_type = resource_type;
          outcome = "success";
          principal = some p;
          actor_id = none;
          actor_type = none;
          tenant_id = none;
          project_id = some project;
          resource_id = some (call.runtime.uuid_text id);
          metadata = metadata;
          producer = "aiops-x-api";
        })
        s.audit;
}

-- The `append_audit` call of an agent's request.
unfoldable pub audit_agent :
    ControlCall
    → AuditReadings
    → ℕ
    → String
    → String
    → String
    → ℕ
    → ℕ
    → ℕ
    → Fields
    → ControlDb
    → ControlDb
audit_agent call readings agent action resource_type outcome tenant project id metadata s =
    record s {
      audit =
          append_audit call.runtime readings call.request
            (record {
              action = action;
              resource_type = resource_type;
              outcome = outcome;
              principal = none;
              actor_id = some (call.runtime.uuid_text agent);
              actor_type = some "agent";
              tenant_id = some tenant;
              project_id = some project;
              resource_id = some (call.runtime.uuid_text id);
              metadata = metadata;
              producer = "aiops-x-api";
            })
            s.audit;
    }

-- modules/cmdb/application.py: `get_asset_for_scope`, which `_asset_model_for_scope` repeats.
unfoldable pub get_asset_for_scope : ℕ → ℕ → ControlDb → Result Asset
get_asset_for_scope tenant id s =
    required (find_where (λ (x : Asset). x.id) (λ (x : Asset). x.tenant_id == tenant) id s.assets)
      (app_error "AIOPS_3104" 404)

abbrev patched_hostname : Option String → Option String → Option String
patched_hostname none old = old
patched_hostname (some h) old = some h

abbrev connected_at : Bool → ℕ → Option ℕ → Option ℕ
connected_at true now old = some now
connected_at false now old = old

-- `update_asset_agent_state`; the view that it returns is not used.
unfoldable pub update_asset_agent_state :
    ℕ → ℕ → ℕ → String → Option String → ControlDb → Result ControlDb
unfolding get_asset_for_scope
update_asset_agent_state now tenant id agent_status hostname s = do
  asset ← get_asset_for_scope tenant id s
  ok (record s {
    assets =
        put_row (λ (x : Asset). x.id)
          (record asset {
            agent_status = agent_status;
            last_connected_at =
                connected_at (str_eq agent_status "online") now asset.last_connected_at;
            hostname = patched_hostname hostname asset.hostname;
          })
          s.assets;
  })

-- `async with session.begin()`: an error rolls everything back, otherwise the writes are kept.
unfoldable pub settle {ℓ} : {A : Type ℓ} → Result (A × ControlDb) → ControlDb → Result A × ControlDb
settle (err e) s = (err e, s)
settle (ok (a, s')) s = (ok a, s')
