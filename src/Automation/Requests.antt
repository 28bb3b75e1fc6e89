-- ===== src/Automation/Requests.antt =====
-- apps/api/src/aiops_x_api/modules/automation/api.py: `create_automation_job`, with what it
-- calls of
-- agent_control/contracts.py and operations/contracts.py.
use Prim.Native.String.{String, ◌++◌}
use aiops_x_enterprise_new.Prelude.{
  ℕ, ◌+◌, ◌==◌, Bool, true, false, not, ◌&&◌, ◌||◌, Option, none, some, [], ◌∷◌, some_of, leb,
  if◌then◌else◌, str_eq,
}
use aiops_x_enterprise_new.Prelude.Texts.{has_text}
use aiops_x_enterprise_new.Core.Errors.{Result, ok, app_error, guard, required, ◌>>=◌, ◌>>◌}
use aiops_x_enterprise_new.Core.Json.{Json, null, number, text, Fields, end, field}
use aiops_x_enterprise_new.Core.Runtime.{Runtime}
use aiops_x_enterprise_new.Core.Patch.{given}
use aiops_x_enterprise_new.Core.Table.{find_where, first_where}
use aiops_x_enterprise_new.Identity.Principal.{Principal}
use aiops_x_enterprise_new.Identity.Scope.{require_permission, ensure_project_scope}
use aiops_x_enterprise_new.Change.Models.{RiskLevel}
use aiops_x_enterprise_new.Change.Policy.{risk_text}
use aiops_x_enterprise_new.Automation.Models.{
  JobStatus, JobApproval, ApprovalStatus, Runbook, RunbookVersion, AutomationJob, ApprovalRequest,
  AutomationJobCreate, OperationsEvent, MaintenanceWindow,
}
use aiops_x_enterprise_new.Agents.Models.{AgentStatus, EdgeAgent, Asset}
use aiops_x_enterprise_new.Agents.Database.{
  ControlDb, Catalog, ControlCall, job_row, approval_row, audit_user, get_asset_for_scope, settle,
}
use aiops_x_enterprise_new.Automation.Inputs.{validate_inputs, require_all_permissions, has_action}
use aiops_x_enterprise_new.Automation.Jobs.{
  risk_order, enqueue_automation_task, append_automation_timeline,
}

abbrev pub is_online : AgentStatus → Bool
is_online AgentStatus.online = true
is_online _ = false

unfoldable pub require_online_agent_for_asset : ℕ → ℕ → ControlDb → Result EdgeAgent
require_online_agent_for_asset tenant asset s =
    required
      (first_where
        (λ (a : EdgeAgent). a.asset_id == asset && (a.tenant_id == tenant && is_online a.status))
        s.agents)
      (app_error "AIOPS_4201" 409)

unfoldable pub require_automation_event :
    ℕ → ℕ → Option ℕ → ℕ → Catalog → Result (Option OperationsEvent)
require_automation_event tenant project none asset c = ok none
require_automation_event tenant project (some event) asset c = do
  found ←
      required
        (find_where (λ (e : OperationsEvent). e.id)
          (λ (e : OperationsEvent).
            e.tenant_id == tenant && (e.project_id == project && e.primary_asset_id == asset))
          event c.events)
        (app_error "AIOPS_5104" 404)
  ok (some found)

-- Of this asset, or of every asset of its project.
abbrev covers_asset : Option ℕ → ℕ → Bool
covers_asset none asset = true
covers_asset (some a) asset = a == asset

unfoldable pub maintenance_window_allows : ℕ → ℕ → ℕ → Bool → ℕ → Catalog → Bool
maintenance_window_allows tenant project asset needed now c =
    not needed
    || some_of
        (λ (w : MaintenanceWindow).
          (w.tenant_id == tenant && w.project_id == project)
          && ((w.enabled && (leb w.starts_at now && leb now w.ends_at))
              && covers_asset w.asset_id asset))
        c.windows

-- What the checks have found.
pub record JobFacts : Type 0 where
  pub runbook : Runbook
  pub version : RunbookVersion
  pub inputs : Fields
  pub asset : Asset
  pub agent : EdgeAgent
  pub event : Option OperationsEvent

abbrev is_r4 : RiskLevel → Bool
is_r4 RiskLevel.r4 = true
is_r4 _ = false

unfoldable pub check_job :
    ControlCall → Principal → Catalog → AutomationJobCreate → ControlDb → Result JobFacts
check_job call caller c p s = do
  needed ← require_permission "job:write" caller
  runbook ←
      required
        (find_where (λ (r : Runbook). r.id)
          (λ (r : Runbook). r.tenant_id == caller.tenant_id && str_eq r.status "published")
          p.runbook_id c.runbooks)
        (app_error "AIOPS_6004" 404)
  ensure_project_scope caller needed runbook.project_id
  guard (runbook.current_version == p.runbook_version) (app_error "AIOPS_6005" 409)
  version ←
      required
        (first_where
          (λ (v : RunbookVersion). v.runbook_id == runbook.id && v.version == p.runbook_version)
          c.versions)
        (app_error "AIOPS_6006" 404)
  guard (not (is_r4 version.risk_level)) (app_error "AIOPS_6104" 403)
  require_all_permissions caller version.required_permissions
  inputs ← validate_inputs version.input_schema p.inputs
  asset ← get_asset_for_scope caller.tenant_id p.asset_id s
  guard (asset.project_id == runbook.project_id) (app_error "AIOPS_3104" 404)
  guard (has_text asset.asset_type version.asset_types) (app_error "AIOPS_6101" 409)
  agent ← require_online_agent_for_asset caller.tenant_id asset.id s
  reported ← has_action version.action_id agent.capabilities
  guard reported (app_error "AIOPS_4202" 409)
  event ← require_automation_event caller.tenant_id runbook.project_id p.event_id asset.id c
  guard
      (maintenance_window_allows asset.tenant_id asset.project_id asset.id
        version.maintenance_window_required call.readings.now c)
      (app_error "AIOPS_6102" 409)
  ok (record {
    runbook = runbook;
    version = version;
    inputs = inputs;
    asset = asset;
    agent = agent;
    event = event;
  })

abbrev pub approval_required : RiskLevel → Bool
approval_required risk = leb (risk_order RiskLevel.r2) (risk_order risk)

-- `_human_id`.
unfoldable pub human_id : Runtime → String → ℕ → ℕ → String
human_id rt prefix at id = prefix ++ ("-" ++ (rt.date_text at ++ ("-" ++ rt.uuid_short id)))

unfoldable pub new_job : ControlCall → Principal → String → JobFacts → AutomationJob
unfolding human_id
new_job call caller key f =
    let needs = approval_required f.version.risk_level in
    record {
      id = call.readings.row_id;
      job_id = human_id call.runtime "JOB" call.readings.number_at call.readings.number_id;
      tenant_id = caller.tenant_id;
      project_id = f.runbook.project_id;
      asset_id = f.asset.id;
      agent_id = f.agent.id;
      event_id = elim f.event [ none ↦ none | some e ↦ some e.id ];
      runbook_id = f.runbook.id;
      runbook_version_id = f.version.id;
      runbook_version = f.version.version;
      action_id = f.version.action_id;
      risk_level = f.version.risk_level;
      status = if needs then JobStatus.awaiting_approval else JobStatus.queued;
      approval_status = if needs then JobApproval.pending else JobApproval.not_required;
      inputs = f.inputs;
      sanitized_output = end;
      policy_snapshot = field "runbook_checksum" (text f.version.checksum) (
          field "runbook_status" (text f.runbook.status) (
            field "asset_type" (text f.asset.asset_type) (
              field "asset_gxp_classification" (text f.asset.gxp_classification) (
                field "agent_capability_verified" (Json.boolean true) (
                  field "permission_verified" (Json.boolean true) (
                    field "maintenance_window_required"
                      (Json.boolean f.version.maintenance_window_required)
                      (field "maintenance_window_verified" (Json.boolean true)
                        (field "approval_required" (Json.boolean needs) end))))))));
      idempotency_key = key;
      requested_by = caller.user_id;
      started_at = none;
      completed_at = none;
      duration_ms = none;
      error_code = none;
      error_message = none;
    }

unfoldable pub new_approval : ControlCall → AutomationJob → ApprovalRequest
unfolding human_id
new_approval call job = record {
  id = call.readings.approval_row_id;
  approval_id =
      human_id call.runtime "APR" call.readings.approval_number_at call.readings.approval_number_id;
  tenant_id = job.tenant_id;
  project_id = job.project_id;
  job_id = job.id;
  risk_level = job.risk_level;
  status = ApprovalStatus.pending;
  required_approvals = if is_r4 job.risk_level then 2 else 1;
  requester_id = job.requested_by;
  expires_at = call.readings.now + 86400;
  resolved_at = none;
}

unfoldable pub insert_approval : ApprovalRequest → ControlDb → Result ControlDb
insert_approval a s = do
  guard (not (given (approval_row a.id s))) (app_error "IntegrityError" 500)
  guard (not (some_of (λ (b : ApprovalRequest). str_eq b.approval_id a.approval_id) s.approvals))
      (app_error "IntegrityError" 500)
  ok (record s { approvals = a ∷ s.approvals })

abbrev event_text : Runtime → Option ℕ → Json
event_text rt none = null
event_text rt (some e) = text (rt.uuid_text e)

abbrev pub announce : ControlCall → Option OperationsEvent → AutomationJob → ControlDb → ControlDb
announce call none job s = s
announce call (some e) job s =
    append_automation_timeline call e.id job "queued" "已发起只读巡检 Runbook" call.readings.now [] s

-- The rows of a job whose checks have passed.
unfoldable pub add_job :
    ControlCall → Principal → String → JobFacts → ControlDb → Result (AutomationJob × ControlDb)
unfolding new_job new_approval insert_approval enqueue_automation_task append_automation_timeline
add_job call caller key f s = do
  let job = new_job call caller key f
  guard (not (given (job_row job.id s))) (app_error "IntegrityError" 500)
  guard (not (some_of (λ (j : AutomationJob). str_eq j.job_id job.job_id) s.jobs))
      (app_error "IntegrityError" 500)
  let added = record s { jobs = job ∷ s.jobs }
  let follow =
      if approval_required job.risk_level
      then insert_approval (new_approval call job) added
      else enqueue_automation_task call f.version.timeout_seconds job added
  done ← follow
  ok (
    job,
    audit_user call caller "automation.job.requested" "automation_job" job.project_id job.id
        (field "job_id" (text job.job_id) (
          field "runbook_id" (text (call.runtime.uuid_text f.runbook.id)) (
            field "runbook_version" (number f.version.version) (
              field "risk_level" (text (risk_text f.version.risk_level))
                (field "event_id" (event_text call.runtime job.event_id) end)))))
        (announce call f.event job done),
  )

unfoldable pub duplicate_job : ℕ → String → ControlDb → Option AutomationJob
duplicate_job tenant key s =
    first_where (λ (j : AutomationJob). j.tenant_id == tenant && str_eq j.idempotency_key key)
      s.jobs

-- A repeated request is answered with the job of the first.
unfoldable pub create_automation_job_tx :
    ControlCall
    → Principal
    → Catalog
    → String
    → AutomationJobCreate
    → ControlDb
    → Result (AutomationJob × ControlDb)
unfolding duplicate_job check_job add_job
create_automation_job_tx call caller c key p s = do
  needed ← require_permission "job:write" caller
  elim (duplicate_job caller.tenant_id key s) [
    | some job ↦ ok (job, s)
    | none ↦ check_job call caller c p s >>= λ f. add_job call caller key f s
  ]

unfoldable pub create_automation_job :
    ControlCall
    → Principal
    → Catalog
    → String
    → AutomationJobCreate
    → ControlDb
    → Result AutomationJob × ControlDb
unfolding create_automation_job_tx settle
create_automation_job call caller c key p s =
    settle (create_automation_job_tx call caller c key p s) s
