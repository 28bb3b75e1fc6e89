-- ===== src/Agents/Results.antt =====
-- apps/api/src/aiops_x_api/modules/agent_control/api.py: `submit_task_result`. The metrics are left
-- out.
use aiops_x_enterprise_new.Prelude.{
  ℕ, String, ◌==◌, false, Option, none, some, [], ◌∷◌, leb, if◌then◌else◌,
}
use aiops_x_enterprise_new.Core.Errors.{Result, ok, app_error, guard, required, ◌>>=◌, ◌>>◌}
use aiops_x_enterprise_new.Core.Json.{Json, null, number, text, object, end, field}
use aiops_x_enterprise_new.Core.Table.{find_where}
use aiops_x_enterprise_new.Automation.Models.{AutomationJob}
use aiops_x_enterprise_new.Automation.Jobs.{complete_automation_job, append_automation_timeline}
use aiops_x_enterprise_new.Agents.Models.{TaskStatus, AgentTask, ResultStatus, AgentTaskResult}
use aiops_x_enterprise_new.Agents.Database.{ControlDb, ControlCall, put_task, audit_agent, settle}
use aiops_x_enterprise_new.Agents.Access.{AgentPrincipal, require_agent_scope}
use aiops_x_enterprise_new.Agents.Tasks.{is_running, is_reported}

abbrev pub task_result : ResultStatus → TaskStatus
task_result ResultStatus.succeeded = TaskStatus.succeeded
task_result ResultStatus.failed = TaskStatus.failed

unfoldable pub reported_task : ℕ → AgentTaskResult → AgentTask → AgentTask
reported_task now p t = record t {
  status = task_result p.status;
  duration_ms = some p.duration_ms;
  sanitized_output = p.sanitized_output;
  error_code = p.error_code;
  error_message = p.error_message;
  completed_at = some now;
}

abbrev result_text : ResultStatus → String
result_text ResultStatus.succeeded = "succeeded"
result_text ResultStatus.failed = "failed"

abbrev result_title : ResultStatus → String
result_title ResultStatus.succeeded = "Runbook 执行成功"
result_title ResultStatus.failed = "Runbook 执行失败"

abbrev result_outcome : ResultStatus → String
result_outcome ResultStatus.succeeded = "success"
result_outcome ResultStatus.failed = "failure"

unfoldable pub report_event :
    ControlCall → AgentTaskResult → AgentTask → AutomationJob → Option ℕ → ControlDb → ControlDb
report_event call p t job none s = s
report_event call p t job (some e) s =
    append_automation_timeline call e job (result_text p.status) (result_title p.status)
      call.readings.later
      (field "type" (text "agent_task_result") (
          field "task_id" (text (call.runtime.uuid_text t.id)) (
            field "duration_ms" (number p.duration_ms)
              (field "sanitized_output" (object p.sanitized_output) end)))
        ∷ [])
      s

-- `complete_automation_job`, if the task is of a job, and the event's timeline.
unfoldable pub complete_job_of :
    ControlCall
    → AgentTaskResult
    → AgentTask
    → Option ℕ
    → ControlDb
    → Result (Option AutomationJob × ControlDb)
unfolding report_event complete_automation_job
complete_job_of call p t none s = ok (none, s)
complete_job_of call p t (some k) s = complete_automation_job k p.status t s >>= λ r.
    ok (some r.0, report_event call p t r.0 r.0.event_id r.1)

abbrev event_json : ControlCall → Option ℕ → Json
event_json call none = null
event_json call (some e) = text (call.runtime.uuid_text e)

unfoldable pub audit_result :
    ControlCall → ℕ → AgentTaskResult → AgentTask → Option AutomationJob → ControlDb → ControlDb
audit_result call agent p t job s =
    let s' =
      audit_agent call call.readings.audit agent "agent.task.completed" "agent_task"
        (result_outcome p.status) t.tenant_id t.project_id t.id
        (field "action_id" (text t.action_id) (field "duration_ms" (number p.duration_ms) end)) s in
    elim job [
      | none ↦ s'
      | some j ↦
          audit_agent call call.readings.second_audit agent "automation.job.completed"
            "automation_job" (result_outcome p.status) j.tenant_id j.project_id j.id
            (field "job_id" (text j.job_id) (
              field "event_id" (event_json call j.event_id) (
                field "runbook_version" (number j.runbook_version)
                  (field "duration_ms" (number p.duration_ms) end))))
            s'
    ]

unfoldable pub apply_result :
    ControlCall → ℕ → AgentTaskResult → AgentTask → ControlDb → Result (AgentTask × ControlDb)
unfolding complete_job_of audit_result reported_task
apply_result call agent p t s = do
  let done = reported_task call.readings.later p t
  (job, s') ← complete_job_of call p done t.automation_job_id (put_task done s)
  ok (done, audit_result call agent p done job s')

-- A result that is reported again changes nothing.
unfoldable pub submit_task_result_tx :
    ControlCall
    → AgentPrincipal
    → ℕ
    → ℕ
    → AgentTaskResult
    → ControlDb
    → Result (AgentTask × ControlDb)
unfolding apply_result
submit_task_result_tx call a agent_id task_id p s = do
  guard (leb p.duration_ms 900000) (app_error "RequestValidationError" 422)
  require_agent_scope a agent_id false
  task ←
      required
        (find_where (λ (t : AgentTask). t.id) (λ (t : AgentTask). t.agent_id == agent_id) task_id
          s.tasks)
        (app_error "AIOPS_4204" 404)
  let report =
      guard (is_running task.status) (app_error "AIOPS_4205" 409)
      >> apply_result call a.agent_id p task s
  if is_reported task.status then ok (task, s) else report

unfoldable pub submit_task_result :
    ControlCall
    → AgentPrincipal
    → ℕ
    → ℕ
    → AgentTaskResult
    → ControlDb
    → Result AgentTask × ControlDb
unfolding submit_task_result_tx settle
submit_task_result call a agent_id task_id p s =
    settle (submit_task_result_tx call a agent_id task_id p s) s
