-- ===== src/Automation/Jobs.antt =====
-- apps/api/src/aiops_x_api/modules/automation/contracts.py: how the tasks of agents move a job;
-- agent_control/contracts.py: `enqueue_automation_task`; operations/contracts.py:
-- `append_automation_timeline`.
use Prim.Native.String.{String, ◌++◌}
use aiops_x_enterprise_new.Prelude.{
  ℕ, ◌+◌, ◌==◌, Bool, true, false, not, ◌&&◌, Option, none, some, List, ◌∷◌, some_of, if◌then◌else◌,
  str_eq,
}
use aiops_x_enterprise_new.Core.Errors.{Result, ok, app_error, guard, required, ◌>>=◌, ◌>>◌}
use aiops_x_enterprise_new.Core.Json.{number, text, Fields, end, field}
use aiops_x_enterprise_new.Core.Patch.{given}
use aiops_x_enterprise_new.Change.Models.{RiskLevel}
use aiops_x_enterprise_new.Change.Policy.{risk_text}
use aiops_x_enterprise_new.Automation.Models.{JobStatus, AutomationJob}
use aiops_x_enterprise_new.Agents.Models.{TaskStatus, AgentTask, ResultStatus}
use aiops_x_enterprise_new.Agents.Database.{ControlDb, ControlCall, job_row, task_row, put_job}

-- `RISK_ORDER`.
abbrev pub risk_order : RiskLevel → ℕ
risk_order RiskLevel.r0 = 0
risk_order RiskLevel.r1 = 1
risk_order RiskLevel.r2 = 2
risk_order RiskLevel.r3 = 3
risk_order RiskLevel.r4 = 4

abbrev pub is_queued : JobStatus → Bool
is_queued JobStatus.queued = true
is_queued _ = false

unfoldable pub canceled_job : ℕ → AutomationJob → AutomationJob
canceled_job now job = record job {
  status = JobStatus.canceled;
  completed_at = some now;
  error_code = some "AGENT_DISABLED";
  error_message = some "Agent 已由管理员停用";
}

unfoldable pub cancel_queued_automation_job : ℕ → ℕ → ControlDb → ControlDb
unfolding canceled_job
cancel_queued_automation_job job_id now s = elim (job_row job_id s) [
  | none ↦ s
  | some job ↦ if is_queued job.status then put_job (canceled_job now job) s else s
]

abbrev pub started_job : ℕ → AutomationJob → AutomationJob
started_job now job = record job { status = JobStatus.running; started_at = some now }

unfoldable pub start_automation_job : ℕ → ℕ → ControlDb → Result (AutomationJob × ControlDb)
start_automation_job job_id now s = do
  job ← required (job_row job_id s) (app_error "AIOPS_6205" 409)
  guard (is_queued job.status) (app_error "AIOPS_6205" 409)
  ok (started_job now job, put_job (started_job now job) s)

abbrev pub job_result : ResultStatus → JobStatus
job_result ResultStatus.succeeded = JobStatus.succeeded
job_result ResultStatus.failed = JobStatus.failed

-- What a finished task reports, which is written to its job as it is.
unfoldable pub completed_job : ResultStatus → AgentTask → AutomationJob → AutomationJob
completed_job status task job = record job {
  status = job_result status;
  started_at = task.started_at;
  completed_at = task.completed_at;
  duration_ms = task.duration_ms;
  sanitized_output = task.sanitized_output;
  error_code = task.error_code;
  error_message = task.error_message;
}

unfoldable pub complete_automation_job :
    ℕ → ResultStatus → AgentTask → ControlDb → Result (AutomationJob × ControlDb)
unfolding completed_job
complete_automation_job job_id status task s = do
  job ← required (job_row job_id s) (app_error "AIOPS_6204" 409)
  ok (completed_job status task job, put_job (completed_job status task job) s)

abbrev pub is_job_task : ℕ → AgentTask → Bool
is_job_task job t = elim t.automation_job_id [ none ↦ false | some j ↦ j == job ]

-- A job has one task at most.
abbrev job_taken : Option ℕ → List AgentTask → Bool
job_taken none tasks = false
job_taken (some job) tasks = some_of (is_job_task job) tasks

-- The primary key and the two unique constraints of the table are checked by the database.
unfoldable pub insert_task : AgentTask → ControlDb → Result ControlDb
insert_task task s = do
  guard (not (given (task_row task.id s))) (app_error "IntegrityError" 500)
  guard
      (not (
        some_of
          (λ (t : AgentTask).
            t.tenant_id == task.tenant_id && str_eq t.idempotency_key task.idempotency_key)
          s.tasks))
      (app_error "IntegrityError" 500)
  guard (not (job_taken task.automation_job_id s.tasks)) (app_error "IntegrityError" 500)
  ok (record s { tasks = task ∷ s.tasks })

unfoldable pub job_task : ControlCall → ℕ → AutomationJob → AgentTask
job_task call timeout_seconds job = record {
  id = call.readings.task_row_id;
  tenant_id = job.tenant_id;
  project_id = job.project_id;
  asset_id = job.asset_id;
  agent_id = job.agent_id;
  automation_job_id = some job.id;
  action_id = job.action_id;
  parameters = job.inputs;
  risk_level = job.risk_level;
  status = TaskStatus.queued;
  idempotency_key = "automation-job:" ++ call.runtime.uuid_text job.id;
  created_by = job.requested_by;
  expires_at = call.readings.later + timeout_seconds;
  started_at = none;
  completed_at = none;
  duration_ms = none;
  sanitized_output = end;
  error_code = none;
  error_message = none;
  created_at = call.readings.later;
}

unfoldable pub enqueue_automation_task :
    ControlCall → ℕ → AutomationJob → ControlDb → Result ControlDb
unfolding insert_task job_task
enqueue_automation_task call timeout_seconds job s =
    insert_task (job_task call timeout_seconds job) s

unfoldable pub append_automation_timeline :
    ControlCall → ℕ → AutomationJob → String → String → ℕ → List Fields → ControlDb → ControlDb
append_automation_timeline call event job status title occurred_at evidence_refs s = record s {
  timeline =
      record {
        id = call.readings.timeline_id;
        tenant_id = job.tenant_id;
        project_id = job.project_id;
        event_id = event;
        occurred_at = occurred_at;
        category = "automation";
        title = title;
        description = job.job_id ++ (" / " ++ job.action_id);
        source_type = "automation_job";
        source_id = some (call.runtime.uuid_text job.id);
        evidence_refs = evidence_refs;
        metadata_json = field "job_id" (text job.job_id) (
            field "runbook_id" (text (call.runtime.uuid_text job.runbook_id)) (
              field "runbook_version" (number job.runbook_version) (
                field "risk_level" (text (risk_text job.risk_level))
                  (field "status" (text status) end))));
      }
      ∷ s.timeline;
}
