-- ===== src/Tests/Requests.antt =====
-- Requests of users and agents, and the tables after each of them in turn.
use aiops_x_enterprise_new.Prelude.{ℕ, Bool, true, false, none, some, [], ◌∷◌}
use aiops_x_enterprise_new.Core.Errors.{ok}
use aiops_x_enterprise_new.Core.Json.{text, array, nil, item, Fields, end, field}
use aiops_x_enterprise_new.Identity.Principal.{AccessLevel, Principal}
use aiops_x_enterprise_new.Change.Models.{Decision, RiskLevel}
use aiops_x_enterprise_new.Automation.Models
use aiops_x_enterprise_new.Automation.Models.{
  Runbook, RunbookVersion, AutomationJob, AutomationJobCreate, ApprovalRequest,
}
use aiops_x_enterprise_new.Agents.Models.{
  Asset, RegistrationTokenCreate, AgentEnrollmentRequest, AgentHeartbeatRequest, AgentTaskResult,
  ResultStatus,
}
use aiops_x_enterprise_new.Agents.Database.{ControlDb, Catalog, ControlCall}
use aiops_x_enterprise_new.Agents.Access.{Pki, AgentPrincipal}
use aiops_x_enterprise_new.Agents.Enrolment.{
  TokenSource, create_registration_token, enroll_agent, heartbeat,
}
use aiops_x_enterprise_new.Automation.Requests.{create_automation_job}
use aiops_x_enterprise_new.Automation.Approvals.{decide_approval}
use aiops_x_enterprise_new.Agents.Tasks.{next_task}
use aiops_x_enterprise_new.Agents.Results.{submit_task_result}
use aiops_x_enterprise_new.Automation.Invariant.{IsSoundControl}
use aiops_x_enterprise_new.Agents.Steps.{
  ControlStep, ControlRuns, ControlRuns-IsSound, no_jobs, no_jobs-IsSound,
}
use aiops_x_enterprise_new.Tests.Fixtures.{runtime, request, user, audit_readings, empty_audit}

-- The request at an instant, which is also the identifier of the row that it adds.
abbrev pub at : ℕ → ControlCall
at now = record {
  runtime = runtime;
  request = request;
  readings = record {
    now = now;
    later = now;
    number_at = now;
    number_id = now;
    approval_number_at = now;
    approval_number_id = now;
    row_id = now;
    approval_row_id = now;
    task_row_id = now;
    timeline_id = now;
    audit = audit_readings now;
    second_audit = audit_readings now;
  };
}

abbrev pub operator : Principal
operator = user 1 AccessLevel.operator ("agent:write" ∷ "job:write" ∷ [])

abbrev pub approver : Principal
approver = user 2 AccessLevel.approver ("approval:decide" ∷ [])

abbrev pub host : Asset
host = record {
  id = 4;
  tenant_id = 7;
  project_id = 3;
  asset_type = "linux";
  gxp_classification = "none";
  hostname = none;
  agent_status = "not_installed";
  last_connected_at = none;
}

abbrev pub disk_usage : Fields
disk_usage = field "actions" (array (item (text "system.disk_usage") nil)) end

abbrev pub root_only : Fields
root_only = field "paths" (array (item (text "/") nil)) end

abbrev pub catalog : Catalog
catalog = record {
  runbooks =
      record {
        id = 1;
        tenant_id = 7;
        project_id = 3;
        slug = "";
        name = "";
        description = "";
        status = "published";
        current_version = 1;
        created_by = 1;
      }
      ∷ [];
  versions =
      record {
        id = 1;
        runbook_id = 1;
        version = 1;
        action_id = "system.disk_usage";
        asset_types = "linux" ∷ [];
        input_schema = end;
        risk_level = RiskLevel.r2;
        required_permissions = [];
        timeout_seconds = 60;
        retry_policy = end;
        idempotent = true;
        pre_checks = [];
        execution_steps = [];
        post_checks = [];
        success_conditions = [];
        failure_conditions = [];
        rollback_steps = [];
        approval_policy = end;
        maintenance_window_required = false;
        output_redaction_rules = [];
        checksum = "";
        created_by = 1;
      }
      ∷ [];
  events = [];
  windows = [];
}

abbrev pub source : TokenSource
source = record { raw_token = "axt_secret"; token_hash = λ t. t }

-- A certificate that lasts until 100, under the serial number "c".
abbrev pub pki : Pki
pki = record {
  issue_agent_certificate =
      λ csr id. ok (record { serial = "c"; not_after = 100; fingerprint = "f" });
  csr_fingerprint = λ csr. ok csr;
  normalize_certificate_serial = λ v. some v;
  verify_proxy_certificate = λ certificate serial. ok certificate;
  sign_task = λ document. ok "signature";
  task_signing_certificate_pem = ok "pem";
}

abbrev pub enrolment : AgentEnrollmentRequest
enrolment = record {
  registration_token = "axt_secret";
  name = "";
  hostname = "h";
  platform = "linux";
  architecture = "";
  version = "";
  csr_pem = "";
  capabilities = disk_usage;
}

abbrev beat : AgentHeartbeatRequest
beat = record {
  hostname = "h";
  platform = "linux";
  architecture = "";
  version = "";
  health_status = "healthy";
  capabilities = disk_usage;
}

abbrev pub agent : AgentPrincipal
agent = record {
  agent_id = 2;
  tenant_id = 7;
  project_id = 3;
  asset_id = 4;
  certificate_serial = "c";
  is_current_certificate = true;
}

abbrev job_body : AutomationJobCreate
job_body = record {
  runbook_id = 1;
  runbook_version = 1;
  asset_id = 4;
  event_id = none;
  inputs = root_only;
}

abbrev pub approve : Models.ApprovalDecisionCreate
approve = record { decision = Decision.approved; comment = "" }

abbrev done : AgentTaskResult
done = record {
  status = ResultStatus.succeeded;
  duration_ms = 5;
  sanitized_output = end;
  error_code = none;
  error_message = none;
}

abbrev pub invitation : RegistrationTokenCreate
invitation = record { project_id = 3; asset_id = 4; expires_in_seconds = 900 }

abbrev pub free_lock : ℕ → Bool
free_lock i = false

abbrev c0 : ControlDb
c0 = no_jobs (host ∷ []) empty_audit

abbrev pub c1 : ControlDb
c1 = (create_registration_token (at 1) source operator invitation c0).1

abbrev pub c2 : ControlDb
c2 = (enroll_agent (at 2) source pki enrolment c1).1

abbrev pub c3 : ControlDb
c3 = (heartbeat (at 3) agent 2 beat c2).1

abbrev pub c4 : ControlDb
c4 = (create_automation_job (at 4) operator catalog "key" job_body c3).1

abbrev pub c5 : ControlDb
c5 = (decide_approval (at 5) approver catalog 4 approve c4).1

abbrev pub c6 : ControlDb
c6 = (next_task (at 6) pki agent free_lock 2 c5).1

abbrev pub c7 : ControlDb
c7 = (submit_task_result (at 7) agent 2 5 done c6).1

runs4 : ControlRuns c0 c4
runs4 =
    ControlRuns.next
      (ControlRuns.next
        (ControlRuns.next
          (ControlRuns.next ControlRuns.here (ControlStep.invite (at 1) source operator invitation))
          (ControlStep.enrol (at 2) source pki enrolment))
        (ControlStep.beat (at 3) agent 2 beat))
      (ControlStep.request_job (at 4) operator catalog "key" job_body)

pub runs5 : ControlRuns c0 c5
runs5 = ControlRuns.next runs4 (ControlStep.decide (at 5) approver catalog 4 approve)

pub sound4 : IsSoundControl c4
sound4 = ControlRuns-IsSound runs4 (no_jobs-IsSound (host ∷ []) empty_audit)
