-- ===== src/Agents/Withdrawal.antt =====
-- apps/api/src/aiops_x_api/modules/agent_control/api.py: `renew_agent_certificate` and
-- `disable_agent`.
use Prim.Native.String.{String}
use aiops_x_enterprise_new.Prelude.{
  ℕ, ◌+◌, ◌==◌, Bool, true, not, ◌&&◌, ◌||◌, Option, none, some, List, [], ◌∷◌, some_of, leb,
  length, if◌then◌else◌, str_eq,
}
use aiops_x_enterprise_new.Core.Errors.{Result, ok, app_error, guard, required, ◌>>=◌, ◌>>◌}
use aiops_x_enterprise_new.Core.Json.{Json, number, text, end, field}
use aiops_x_enterprise_new.Core.Table.{find_where, keys_where}
use aiops_x_enterprise_new.Identity.Principal.{Principal}
use aiops_x_enterprise_new.Identity.Scope.{require_permission, ensure_project_scope}
use aiops_x_enterprise_new.Automation.Jobs.{cancel_queued_automation_job}
use aiops_x_enterprise_new.Agents.Models.{TaskStatus, AgentStatus, AgentTask, EdgeAgent}
use aiops_x_enterprise_new.Agents.Database.{
  ControlDb, ControlCall, agent_row, put_task, put_agent, audit_user, audit_agent,
  update_asset_agent_state, settle,
}
use aiops_x_enterprise_new.Agents.Access.{
  with_signing_certificate, Certificate, Pki, AgentPrincipal, holds, is_disabled,
  require_agent_scope,
}
use aiops_x_enterprise_new.Agents.Tasks.{is_waiting, is_running}

-- The new certificate; what it replaces is kept once.
unfoldable pub renewed : Bool → String → Certificate → EdgeAgent → EdgeAgent
renewed renewing_current csr_fingerprint c a =
    let kept =
      if renewing_current
      then record a {
        previous_certificate_serial = some a.certificate_serial;
        previous_certificate_fingerprint = some a.certificate_fingerprint;
        previous_certificate_not_after = some a.certificate_not_after;
        last_renewal_csr_fingerprint = some csr_fingerprint;
      }
      else a in
    record kept {
      certificate_serial = c.serial;
      certificate_fingerprint = c.fingerprint;
      certificate_not_after = c.not_after;
    }

-- The unique columns of the certificate.
abbrev certificate_taken : EdgeAgent → ControlDb → Bool
certificate_taken a s =
    some_of
      (λ (b : EdgeAgent).
        not (b.id == a.id)
        && (str_eq b.certificate_serial a.certificate_serial
            || str_eq b.certificate_fingerprint a.certificate_fingerprint))
      s.agents

abbrev pub renews_current : AgentPrincipal → EdgeAgent → Bool
renews_current p a = str_eq a.certificate_serial p.certificate_serial

abbrev pub retries_previous : AgentPrincipal → EdgeAgent → Bool
retries_previous p a = holds a.previous_certificate_serial p.certificate_serial

-- The agent that may renew, and the fingerprint of its request. `window` is
-- `timedelta(hours=settings.agent_certificate_renewal_window_hours)`.
unfoldable pub check_renewal :
    ControlCall → Pki → ℕ → AgentPrincipal → ℕ → String → ControlDb → Result (EdgeAgent × String)
check_renewal call pki window p agent_id csr_pem s = do
  require_agent_scope p agent_id true
  agent ← required (agent_row agent_id s) (app_error "AIOPS_4001" 401)
  guard (not (is_disabled agent.status)) (app_error "AIOPS_4001" 401)
  guard (renews_current p agent || retries_previous p agent) (app_error "AIOPS_4001" 401)
  guard
      (not (
        renews_current p agent
        && not (leb agent.certificate_not_after (call.readings.now + window))))
      (app_error "AIOPS_4105" 409)
  fingerprint ← pki.csr_fingerprint csr_pem
  guard
      (not (retries_previous p agent && not (holds agent.last_renewal_csr_fingerprint fingerprint)))
      (app_error "AIOPS_4106" 409)
  ok (agent, fingerprint)

unfoldable pub renew_agent_certificate_tx :
    ControlCall → Pki → ℕ → AgentPrincipal → ℕ → String → ControlDb → Result (EdgeAgent × ControlDb)
unfolding check_renewal renewed
renew_agent_certificate_tx call pki window p agent_id csr_pem s = do
  (agent, fingerprint) ← check_renewal call pki window p agent_id csr_pem s
  certificate ← pki.issue_agent_certificate csr_pem agent.id
  let new = renewed (renews_current p agent) fingerprint certificate agent
  guard (not (certificate_taken new s)) (app_error "IntegrityError" 500)
  ok (
    new,
    audit_agent call call.readings.audit agent.id "agent.certificate.renewed" "agent" "success"
        agent.tenant_id agent.project_id agent.id
        (field "certificate_not_after" (text (call.runtime.iso_text certificate.not_after))
          (field "retry_via_previous_certificate" (Json.boolean (retries_previous p agent)) end))
        (put_agent new s),
  )

unfoldable pub renew_agent_certificate :
    ControlCall
    → Pki
    → ℕ
    → AgentPrincipal
    → ℕ
    → String
    → ControlDb
    → Result (EdgeAgent × String) × ControlDb
unfolding renew_agent_certificate_tx settle
renew_agent_certificate call pki window p agent_id csr_pem s =
    with_signing_certificate pki
      (settle (renew_agent_certificate_tx call pki window p agent_id csr_pem s) s)

unfoldable pub canceled_task : ℕ → AgentTask → AgentTask
canceled_task now t = record t {
  status = TaskStatus.canceled;
  completed_at = some now;
  error_code = some "AGENT_DISABLED";
  error_message = some "Agent 已由管理员停用";
}

abbrev pub cancel_job_of : Option ℕ → ℕ → ControlDb → ControlDb
cancel_job_of none now s = s
cancel_job_of (some j) now s = cancel_queued_automation_job j now s

unfoldable pub cancel_task : Option AgentTask → ℕ → ControlDb → ControlDb
unfolding canceled_task
cancel_task none now s = s
cancel_task (some t) now s =
    cancel_job_of t.automation_job_id now (put_task (canceled_task now t) s)

abbrev pub is_queued_of : ℕ → AgentTask → Bool
is_queued_of agent t = t.agent_id == agent && is_waiting t.status

abbrev pub queued_row : ℕ → ℕ → ControlDb → Option AgentTask
queued_row agent i s = find_where (λ (t : AgentTask). t.id) (is_queued_of agent) i s.tasks

-- `for task in queued_tasks`: each task, and its job if that is still queued.
unfoldable pub cancel_tasks : ℕ → ℕ → List ℕ → ControlDb → ControlDb
unfolding cancel_task
cancel_tasks agent now [] s = s
cancel_tasks agent now (i ∷ is) s =
    cancel_tasks agent now is (cancel_task (queued_row agent i s) now s)

unfoldable pub queued_tasks : ℕ → ControlDb → List ℕ
unfolding keys_where
queued_tasks agent s = keys_where (λ (t : AgentTask). t.id) (is_queued_of agent) s.tasks

unfoldable pub disabled_agent : ControlCall → Principal → String → EdgeAgent → EdgeAgent
disabled_agent call caller reason a = record a {
  status = AgentStatus.disabled;
  health_status = "unknown";
  disabled_at = some call.readings.now;
  disabled_by = some caller.user_id;
  disable_reason = some (call.runtime.strip reason);
}

unfoldable pub withdraw :
    ControlCall → Principal → String → EdgeAgent → ControlDb → Result (EdgeAgent × ControlDb)
unfolding queued_tasks cancel_tasks disabled_agent update_asset_agent_state
withdraw call caller reason agent s = do
  guard (not (some_of (λ (t : AgentTask). t.agent_id == agent.id && is_running t.status) s.tasks))
      (app_error "AIOPS_4301" 409)
  let queued = queued_tasks agent.id s
  let new = disabled_agent call caller reason agent
  told ←
      update_asset_agent_state call.readings.later caller.tenant_id agent.asset_id "not_installed"
        none (put_agent new (cancel_tasks agent.id call.readings.now queued s))
  ok (
    new,
    audit_user call caller "agent.disabled" "agent" agent.project_id agent.id
        (field "asset_id" (text (call.runtime.uuid_text agent.asset_id)) (
          field "reason" (text (call.runtime.strip reason))
            (field "canceled_task_count" (number (length queued)) end)))
        told,
  )

unfoldable pub disable_agent_tx :
    ControlCall → Principal → ℕ → String → ControlDb → Result (EdgeAgent × ControlDb)
unfolding withdraw
disable_agent_tx call caller agent_id reason s = do
  needed ← require_permission "agent:write" caller
  agent ←
      required
        (find_where (λ (a : EdgeAgent). a.id) (λ (a : EdgeAgent). a.tenant_id == caller.tenant_id)
          agent_id s.agents)
        (app_error "AIOPS_4004" 404)
  ensure_project_scope caller needed agent.project_id
  if is_disabled agent.status then ok (agent, s) else withdraw call caller reason agent s

unfoldable pub disable_agent :
    ControlCall → Principal → ℕ → String → ControlDb → Result EdgeAgent × ControlDb
unfolding disable_agent_tx settle
disable_agent call caller agent_id reason s =
    settle (disable_agent_tx call caller agent_id reason s) s
