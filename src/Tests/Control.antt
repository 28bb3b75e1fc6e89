-- ===== src/Tests/Control.antt =====
-- Runs of the requests of users and agents.
use aiops_x_enterprise_new.Prelude.{ℕ, ◌≡◌, refl, true, false, Option, none, some, [], ◌∷◌, some_of}
use aiops_x_enterprise_new.Core.Errors.{ok, err, app_error}
use aiops_x_enterprise_new.Core.Json.{Items, Fields, Json, text, array, nil, item, end, field}
use aiops_x_enterprise_new.Core.Table.{find_row, put_row}
use aiops_x_enterprise_new.Identity.Scope.{require_permission, ensure_project_scope, asset_in_scope}
use aiops_x_enterprise_new.Automation.Models.{AutomationJob, ApprovalRequest}
use aiops_x_enterprise_new.Agents.Models.{
  AgentRegistrationToken, AgentTask, EdgeAgent, AgentEnrollmentRequest, TaskStatus,
}
use aiops_x_enterprise_new.Agents.Database.{ControlCall, task_row, audit_user, audit_agent}
use aiops_x_enterprise_new.Agents.Access.{Pki, ProxyHeaders, get_current_agent, require_agent_scope}
use aiops_x_enterprise_new.Agents.Enrolment.{
  create_registration_token, enroll_agent, enroll_agent_tx, heartbeat, is_bound, new_token,
  new_agent,
}
use aiops_x_enterprise_new.Automation.Requests.{
  approval_required, create_automation_job, require_online_agent_for_asset,
  require_automation_event, maintenance_window_allows,
}
use aiops_x_enterprise_new.Automation.Approvals.{decide_approval}
use aiops_x_enterprise_new.Agents.Tasks.{due_task, next_task, new_task}
use aiops_x_enterprise_new.Agents.Results.{submit_task_result}
use aiops_x_enterprise_new.Automation.Invariant.{IsSoundControl}
use aiops_x_enterprise_new.Automation.Inputs.{
  schema_required, validate_inputs, validate_parameters, get_field, require_all_permissions,
  validated_capabilities, has_action,
}
use aiops_x_enterprise_new.Automation.Bounds.{
  IsPathList, AllItems, IsGiven, ArePaths, accepted_inputs, accepted_parameters,
}
use aiops_x_enterprise_new.Automation.Ties.{job_key, task_key, mirrors}
use aiops_x_enterprise_new.Automation.Release.{
  IsApprovedByOthers, executed_after_approval, task_mirrors_job,
}
use aiops_x_enterprise_new.Agents.Steps.{
  ControlStep, ControlStep-IsSound, ControlRuns-IsSound, no_jobs-IsSound,
}
use aiops_x_enterprise_new.Agents.Availability.{IsFetched, fetch_succeeds}
use aiops_x_enterprise_new.Agents.Binding.{enrolled_once}
use aiops_x_enterprise_new.Agents.Authentication.{IsSentBy, authenticated}
use aiops_x_enterprise_new.Tests.Fixtures.{empty_audit}
use aiops_x_enterprise_new.Tests.Requests.{
  at, operator, approver, host, disk_usage, root_only, catalog, source, pki, enrolment, agent,
  approve, invitation, free_lock, c1, c2, c3, c4, c5, c6, c7, runs5, sound4,
}

abbrev status_of : Option AgentTask → Option TaskStatus
status_of none = none
status_of (some t) = some t.status

-- The life of a task: it is queued by the approval, handed out, and reported.
life :
    (status_of (task_row 5 c4) ≡ none)
    × (status_of (task_row 5 c5) ≡ some TaskStatus.queued)
    × (status_of (task_row 5 c6) ≡ some TaskStatus.running)
    × (status_of (task_row 5 c7) ≡ some TaskStatus.succeeded)
unfolding require_permission ensure_project_scope validated_capabilities audit_user
    create_registration_token enroll_agent put_row asset_in_scope audit_agent get_current_agent
    require_agent_scope heartbeat create_automation_job decide_approval next_task submit_task_result
    require_all_permissions validate_inputs require_online_agent_for_asset has_action
    require_automation_event maintenance_window_allows
life = (refl, refl, refl, refl)

-- The token and the agent of the run.
abbrev invited : AgentRegistrationToken
invited = new_token (at 1) source operator invitation

abbrev enrolled : EdgeAgent
enrolled =
    new_agent (at 2) enrolment invited (record { serial = "c"; not_after = 100; fingerprint = "f" })
      disk_usage

-- A task to fall back on, and the task of the run.
abbrev no_task : AgentTask
no_task =
    new_task (at 0) operator "" enrolled
      (record { action_id = ""; parameters = end; expires_in_seconds = 0 }) end

abbrev row_or : Option AgentTask → AgentTask
row_or none = no_task
row_or (some t) = t

abbrev task5 : AgentTask
task5 = row_or (task_row 5 c5)

found5 : task_row 5 c5 ≡ some task5
unfolding require_permission ensure_project_scope validated_capabilities audit_user
    create_registration_token enroll_agent put_row asset_in_scope audit_agent get_current_agent
    require_agent_scope heartbeat create_automation_job decide_approval next_task submit_task_result
    require_all_permissions validate_inputs require_online_agent_for_asset has_action
    require_automation_event maintenance_window_allows
found5 = refl

risky5 : approval_required task5.risk_level ≡ true
unfolding require_permission ensure_project_scope validated_capabilities audit_user
    create_registration_token enroll_agent put_row asset_in_scope audit_agent get_current_agent
    require_agent_scope heartbeat create_automation_job decide_approval next_task submit_task_result
    require_all_permissions validate_inputs require_online_agent_for_asset has_action
    require_automation_event maintenance_window_allows
risky5 = refl

own5 : task5.automation_job_id ≡ some 4
unfolding require_permission ensure_project_scope validated_capabilities audit_user
    create_registration_token enroll_agent put_row asset_in_scope audit_agent get_current_agent
    require_agent_scope heartbeat create_automation_job decide_approval next_task submit_task_result
    require_all_permissions validate_inputs require_online_agent_for_asset has_action
    require_automation_event maintenance_window_allows
own5 = refl

enrolled_ok : enroll_agent_tx (at 2) source pki enrolment c1 ≡ ok (enrolled, c2)
unfolding require_permission ensure_project_scope validated_capabilities audit_user
    create_registration_token enroll_agent
enrolled_ok = refl

abbrev headers : ProxyHeaders
headers = record {
  verify_status = some "SUCCESS";
  certificate_serial = some "c";
  escaped_certificate = some "f";
}

known : get_current_agent pki 6 headers c3 ≡ ok agent
unfolding put_row require_permission asset_in_scope validated_capabilities audit_user audit_agent
    get_current_agent require_agent_scope create_registration_token enroll_agent heartbeat
known = refl

root_parameters : validate_parameters root_only ≡ ok root_only
unfolding validate_parameters
root_parameters = refl

executed_after_approval_example :
    (j : AutomationJob) × (a : ApprovalRequest) × (task5.automation_job_id ≡ some j.id)
    × IsApprovedByOthers c5 j a
executed_after_approval_example =
    executed_after_approval (host ∷ []) empty_audit c5 5 task5 runs5 found5 risky5

ControlStep-IsSound_example : IsSoundControl c5
ControlStep-IsSound_example =
    ControlStep-IsSound (ControlStep.decide (at 5) approver catalog 4 approve) sound4

task_mirrors_job_example :
    (j : AutomationJob) × (find_row job_key 4 c5.jobs ≡ some j)
    × (mirrors task5.status j.status ≡ true)
    × (task5.risk_level ≡ j.risk_level)
    × ((i' : ℕ) (t' : AgentTask)
        → find_row task_key i' c5.tasks ≡ some t'
        → t'.automation_job_id ≡ some 4
        → i' ≡ 5)
task_mirrors_job_example = task_mirrors_job (host ∷ []) empty_audit c5 5 4 task5 runs5 found5 own5

fetch_succeeds_example :
    IsFetched (at 6) pki (due_task 2 6 free_lock c5) c5 (next_task (at 6) pki agent free_lock 2 c5)
fetch_succeeds_example =
    fetch_succeeds (at 6) pki agent free_lock c5
      (ControlRuns-IsSound runs5 (no_jobs-IsSound (host ∷ []) empty_audit)) refl

enrolled_once_example :
    (new : EdgeAgent) × (c2.agents ≡ new ∷ c1.agents)
    × (some_of (is_bound new.tenant_id new.asset_id) c1.agents ≡ false)
    × ((call' : ControlCall) (pki' : Pki) (b' : AgentEnrollmentRequest)
        → b'.registration_token ≡ "axt_secret"
        → enroll_agent call' source pki' b' c2 ≡ (err (app_error "AIOPS_4103" 401), c2))
enrolled_once_example = enrolled_once (at 2) source pki enrolment c1 c2 enrolled enrolled_ok

authenticated_example : IsSentBy pki 6 headers c3.agents agent
authenticated_example = authenticated pki 6 headers c3 agent known

-- The schema asks for the paths.
abbrev paths_schema : Fields
paths_schema = field "required" (array (item (text "paths") nil)) end

paths_accepted : validate_inputs paths_schema root_only ≡ ok root_only
unfolding validate_inputs
paths_accepted = refl

accepted_inputs_example :
    (root_only ≡ root_only)
    × ((names : Items) × (schema_required (get_field "required" paths_schema) ≡ ok names)
        × AllItems (IsGiven root_only) names)
    × ArePaths (get_field "paths" root_only)
accepted_inputs_example = accepted_inputs paths_schema root_only root_only paths_accepted

accepted_parameters_example : (w : Json) × (root_only ≡ field "paths" w end) × IsPathList w
accepted_parameters_example = accepted_parameters root_only root_only root_parameters
