-- ===== src/Agents/Tasks.antt =====
-- apps/api/src/aiops_x_api/modules/agent_control/api.py: `create_task`, `next_task` and
-- `submit_task_result`.
use aiops_x_enterprise_new.Prelude.{
  ℕ, String, ◌+◌, ◌==◌, Bool, true, false, not, ◌&&◌, Option, none, some, List, [], ◌∷◌, ltb, leb,
  if◌then◌else◌, str_eq,
}
use aiops_x_enterprise_new.Core.Errors.{Result, ok, app_error, guard, required, ◌>>=◌, ◌>>◌}
use aiops_x_enterprise_new.Core.Json.{text, object, Fields, end, field}
use aiops_x_enterprise_new.Core.Runtime.{Runtime}
use aiops_x_enterprise_new.Core.Table.{find_row, find_where, first_where, keys_where}
use aiops_x_enterprise_new.Identity.Principal.{Principal}
use aiops_x_enterprise_new.Identity.Scope.{require_permission, ensure_project_scope}
use aiops_x_enterprise_new.Change.Models.{RiskLevel}
use aiops_x_enterprise_new.Automation.Models.{AutomationJob}
use aiops_x_enterprise_new.Automation.Inputs.{validate_parameters, has_action}
use aiops_x_enterprise_new.Automation.Jobs.{start_automation_job, insert_task}
use aiops_x_enterprise_new.Automation.Requests.{is_online}
use aiops_x_enterprise_new.Agents.Models.{TaskStatus, EdgeAgent, AgentTask, AgentTaskCreate}
use aiops_x_enterprise_new.Agents.Database.{
  ControlDb, ControlCall, put_task, audit_user, audit_agent, settle,
}
use aiops_x_enterprise_new.Agents.Access.{Pki, AgentPrincipal, require_agent_scope}

abbrev pub is_waiting : TaskStatus → Bool
is_waiting TaskStatus.queued = true
is_waiting _ = false

abbrev pub is_running : TaskStatus → Bool
is_running TaskStatus.running = true
is_running _ = false

abbrev pub is_reported : TaskStatus → Bool
is_reported TaskStatus.succeeded = true
is_reported TaskStatus.failed = true
is_reported _ = false

unfoldable pub new_task :
    ControlCall → Principal → String → EdgeAgent → AgentTaskCreate → Fields → AgentTask
new_task call caller key agent p parameters = record {
  id = call.readings.row_id;
  tenant_id = agent.tenant_id;
  project_id = agent.project_id;
  asset_id = agent.asset_id;
  agent_id = agent.id;
  automation_job_id = none;
  action_id = p.action_id;
  parameters = parameters;
  risk_level = RiskLevel.r0;
  status = TaskStatus.queued;
  idempotency_key = key;
  created_by = caller.user_id;
  expires_at = call.readings.now + p.expires_in_seconds;
  started_at = none;
  completed_at = none;
  duration_ms = none;
  sanitized_output = end;
  error_code = none;
  error_message = none;
  created_at = call.readings.later;
}

unfoldable pub check_task : Principal → ℕ → AgentTaskCreate → ControlDb → Result EdgeAgent
check_task caller agent_id p s = do
  needed ← require_permission "job:write" caller
  agent ←
      required
        (find_where (λ (a : EdgeAgent). a.id)
          (λ (a : EdgeAgent). a.tenant_id == caller.tenant_id && is_online a.status) agent_id
          s.agents)
        (app_error "AIOPS_4201" 409)
  ensure_project_scope caller needed agent.project_id
  reported ← has_action p.action_id agent.capabilities
  guard reported (app_error "AIOPS_4202" 409)
  ok agent

abbrev pub duplicate_task : ℕ → String → ControlDb → Option AgentTask
duplicate_task tenant key s =
    first_where (λ (t : AgentTask). t.tenant_id == tenant && str_eq t.idempotency_key key) s.tasks

unfoldable pub add_task :
    ControlCall
    → Principal
    → String
    → EdgeAgent
    → AgentTaskCreate
    → Fields
    → ControlDb
    → Result (AgentTask × ControlDb)
unfolding new_task insert_task
add_task call caller key agent p parameters s = do
  let task = new_task call caller key agent p parameters
  s' ← insert_task task s
  ok (
    task,
    audit_user call caller "agent.task.queued" "agent_task" task.project_id task.id
        (field "agent_id" (text (call.runtime.uuid_text agent.id))
          (field "action_id" (text task.action_id) (field "risk_level" (text "R0") end)))
        s',
  )

-- The schema of the body comes first; a repeated request is answered with the task of the first.
unfoldable pub create_task_tx :
    ControlCall
    → Principal
    → ℕ
    → String
    → AgentTaskCreate
    → ControlDb
    → Result (AgentTask × ControlDb)
unfolding check_task add_task
create_task_tx call caller agent_id key p s = do
  guard (str_eq p.action_id "system.disk_usage") (app_error "RequestValidationError" 422)
  guard (leb 30 p.expires_in_seconds && leb p.expires_in_seconds 900)
      (app_error "RequestValidationError" 422)
  parameters ← validate_parameters p.parameters
  needed ← require_permission "job:write" caller
  elim (duplicate_task caller.tenant_id key s) [
    | some task ↦ ok (task, s)
    | none ↦ check_task caller agent_id p s >>= λ a. add_task call caller key a p parameters s
  ]

unfoldable pub create_task :
    ControlCall
    → Principal
    → ℕ
    → String
    → AgentTaskCreate
    → ControlDb
    → Result AgentTask × ControlDb
unfolding create_task_tx settle
create_task call caller agent_id key p s = settle (create_task_tx call caller agent_id key p s) s

-- `AgentTask.agent_id == agent_id, status == "queued", expires_at > now`, unless another
-- transaction has locked the row.
unfoldable pub is_task_due : ℕ → ℕ → (ℕ → Bool) → AgentTask → Bool
is_task_due agent_id now locked t =
    (t.agent_id == agent_id && (is_waiting t.status && ltb now t.expires_at)) && not (locked t.id)

abbrev pub earlier : Option AgentTask → Option AgentTask → Option AgentTask
earlier none later = later
earlier (some t) none = some t
earlier (some t) (some u) = if leb t.created_at u.created_at then some t else some u

-- The row of the least `created_at` among those of the given keys.
unfoldable pub earliest : List ℕ → List AgentTask → Option AgentTask
earliest [] tasks = none
earliest (i ∷ is) tasks = earlier (find_row (λ (t : AgentTask). t.id) i tasks) (earliest is tasks)

unfoldable pub due_task : ℕ → ℕ → (ℕ → Bool) → ControlDb → Option AgentTask
unfolding earliest is_task_due keys_where
due_task agent_id now locked s =
    earliest (keys_where (λ (t : AgentTask). t.id) (is_task_due agent_id now locked) s.tasks)
      s.tasks

-- The dict that is serialised and signed.
unfoldable pub task_document : Runtime → AgentTask → Fields
task_document rt t = field "action_id" (text t.action_id) (
    field "expires_at" (text (rt.iso_z_text t.expires_at))
      (field "parameters" (object t.parameters) (field "task_id" (text (rt.uuid_text t.id)) end)))

pub record AgentTaskEnvelope : Type 0 where
  pub task_id : ℕ
  pub document : Fields
  pub signature : String

abbrev pub dispatched : ℕ → AgentTask → AgentTask
dispatched now t = record t { status = TaskStatus.running; started_at = some now }

-- `start_automation_job`, if the task is of a job.
unfoldable pub start_job_of : Option ℕ → ℕ → ControlDb → Result (Option AutomationJob × ControlDb)
unfolding start_automation_job
start_job_of none now s = ok (none, s)
start_job_of (some k) now s = start_automation_job k now s >>= λ r. ok (some r.0, r.1)

unfoldable pub audit_dispatch :
    ControlCall → ℕ → AgentTask → Option AutomationJob → ControlDb → ControlDb
audit_dispatch call agent t job s =
    let s' =
      audit_agent call call.readings.audit agent "agent.task.dispatched" "agent_task" "success"
        t.tenant_id t.project_id t.id (field "action_id" (text t.action_id) end) s in
    elim job [
      | none ↦ s'
      | some j ↦
          audit_agent call call.readings.second_audit agent "automation.job.dispatched"
            "automation_job" "success" j.tenant_id j.project_id j.id
            (field "job_id" (text j.job_id)
              (field "agent_task_id" (text (call.runtime.uuid_text t.id)) end))
            s'
    ]

unfoldable pub dispatch :
    ControlCall → Pki → ℕ → AgentTask → ControlDb → Result (Option AgentTaskEnvelope × ControlDb)
unfolding start_job_of audit_dispatch task_document
dispatch call pki agent t s = do
  (job, s') ←
      start_job_of t.automation_job_id call.readings.now
        (put_task (dispatched call.readings.now t) s)
  signature ← pki.sign_task (task_document call.runtime t)
  ok (
    some
        (record { task_id = t.id; document = task_document call.runtime t; signature = signature }),
    audit_dispatch call agent (dispatched call.readings.now t) job s',
  )

unfoldable pub next_task_tx :
    ControlCall
    → Pki
    → AgentPrincipal
    → (ℕ → Bool)
    → ℕ
    → ControlDb
    → Result (Option AgentTaskEnvelope × ControlDb)
unfolding dispatch due_task
next_task_tx call pki a locked agent_id s = do
  require_agent_scope a agent_id false
  elim (due_task agent_id call.readings.now locked s) [
    | none ↦ ok (none, s)
    | some t ↦ dispatch call pki a.agent_id t s
  ]

unfoldable pub next_task :
    ControlCall
    → Pki
    → AgentPrincipal
    → (ℕ → Bool)
    → ℕ
    → ControlDb
    → Result (Option AgentTaskEnvelope) × ControlDb
unfolding next_task_tx settle
next_task call pki a locked agent_id s = settle (next_task_tx call pki a locked agent_id s) s
