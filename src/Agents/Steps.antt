-- ===== src/Agents/Steps.antt =====
-- The requests to apps/api/src/aiops_x_api/modules/automation and agent_control, one after the
-- other,
-- and that each keeps the invariant of the tables.
use aiops_x_enterprise_new.Prelude.{
  ℕ, String, Bool, ◌≡◌, refl, inl, inr, ◌⊎◌, Option-cases, subst, List, [], leb, ◌&&◌, str_eq,
}
use aiops_x_enterprise_new.Core.Errors.{Result, ok, err, ◌>>=◌, >>=-eq-ok, >>-eq-ok, guard}
use aiops_x_enterprise_new.Core.Json.{Fields}
use aiops_x_enterprise_new.Identity.Principal.{Principal}
use aiops_x_enterprise_new.Identity.Scope.{require_permission}
use aiops_x_enterprise_new.Audit.Models.{AuditStore}
use aiops_x_enterprise_new.Automation.Models.{AutomationJobCreate, ApprovalDecisionCreate}
use aiops_x_enterprise_new.Automation.Inputs.{validate_parameters}
use aiops_x_enterprise_new.Automation.Requests.{create_automation_job_tx, create_automation_job}
use aiops_x_enterprise_new.Automation.Approvals.{decide_approval_tx, decide_approval}
use aiops_x_enterprise_new.Automation.Invariant.{IsSoundControl, Tables-IsSoundControl}
use aiops_x_enterprise_new.Automation.Soundness.{
  create_automation_job_tx-IsSound, decide_approval_tx-IsSound,
}
use aiops_x_enterprise_new.Agents.Models.{
  AgentTask, EdgeAgent, Asset, RegistrationTokenCreate, AgentEnrollmentRequest,
  AgentHeartbeatRequest, AgentTaskCreate, AgentTaskResult,
}
use aiops_x_enterprise_new.Agents.Database.{ControlDb, Catalog, ControlCall, settle}
use aiops_x_enterprise_new.Agents.Tables.{Tables, Tables-trans, returned_state}
use aiops_x_enterprise_new.Agents.Access.{Pki, AgentPrincipal}
use aiops_x_enterprise_new.Agents.Enrolment.{
  TokenSource, create_registration_token_tx, create_registration_token, check_enrolment,
  enroll_agent_tx, enroll_agent, heartbeat_tx, heartbeat,
}
use aiops_x_enterprise_new.Agents.Withdrawal.{
  renew_agent_certificate_tx, renew_agent_certificate, disable_agent_tx, disable_agent,
}
use aiops_x_enterprise_new.Agents.Tasks.{
  create_task_tx, create_task, check_task, add_task, duplicate_task, next_task_tx, next_task,
}
use aiops_x_enterprise_new.Agents.Results.{submit_task_result_tx, submit_task_result}
use aiops_x_enterprise_new.Agents.Soundness.{add_task-IsSound}
use aiops_x_enterprise_new.Agents.Dispatch.{next_task_tx-IsSound, submit_task_result_tx-IsSound}
use aiops_x_enterprise_new.Agents.Cancelling.{disable_agent_tx-IsSound}
use aiops_x_enterprise_new.Agents.Registration.{
  create_registration_token_tx-Tables, insert_agent-Tables, register_agent-ok,
  apply_heartbeat-Tables, heartbeat_tx-ok, renew_agent_certificate_tx-Tables,
}

-- What a request to create a task has done: nothing, or a task has been added.
pub create_task_tx-ok :
    (call : ControlCall) (p : Principal) (id : ℕ) (key : String) (b : AgentTaskCreate)
    (s s' : ControlDb) (t : AgentTask)
    → create_task_tx call p id key b s ≡ ok (t, s')
    → (s ≡ s')
      ⊎ ((a : EdgeAgent) × (parameters : Fields) × (validate_parameters b.parameters
            ≡ ok parameters)
          × (check_task p id b s ≡ ok a)
          × (add_task call p key a b parameters s ≡ ok (t, s')))
unfolding create_task_tx
create_task_tx-ok call p id key b s s' t h =
    let (named, h1) = >>-eq-ok (guard (str_eq b.action_id "system.disk_usage") _) _ h in
    let (bounded, h2) =
      >>-eq-ok (guard (leb 30 b.expires_in_seconds && leb b.expires_in_seconds 900) _) _ h1 in
    let (parameters, valid, h3) = >>=-eq-ok (validate_parameters b.parameters) _ h2 in
    let (needed, allowed, h4) = >>=-eq-ok (require_permission "job:write" p) _ h3 in
    elim (Option-cases (duplicate_task p.tenant_id key s)) [
      | inr (old, known) ↦ inl (returned_state (rw known at h4))
      | inl new ↦
          let opened : (check_task p id b s >>= λ a. add_task call p key a b parameters s)
              ≡ ok (t, s') =
            rw new at h4 in
          let (a, checked, added) = >>=-eq-ok (check_task p id b s) _ opened in
          inr (a, parameters, valid, checked, added)
    ]

create_task_tx-IsSound :
    (call : ControlCall) (p : Principal) (id : ℕ) (key : String) (b : AgentTaskCreate)
    (s s' : ControlDb) (t : AgentTask)
    → create_task_tx call p id key b s ≡ ok (t, s')
    → IsSoundControl s
    → IsSoundControl s'
create_task_tx-IsSound call p id key b s s' t h sound =
    elim (create_task_tx-ok call p id key b s s' t h) [
      | inl same ↦ subst IsSoundControl same sound
      | inr (a, parameters, valid, checked, added) ↦
          add_task-IsSound call p key a b parameters s s' t added sound
    ]

enroll_agent_tx-Tables :
    (call : ControlCall) (src : TokenSource) (pki : Pki) (b : AgentEnrollmentRequest)
    (s s' : ControlDb) (a : EdgeAgent)
    → enroll_agent_tx call src pki b s ≡ ok (a, s')
    → Tables s' s
unfolding enroll_agent_tx
enroll_agent_tx-Tables call src pki b s s' a h =
    let (f, checked, registered) = >>=-eq-ok (check_enrolment call src pki b s) _ h in
    let (added, w) = register_agent-ok call b f s s' a registered in
    Tables-trans w.tables (insert_agent-Tables f.agent s added w.inserted)

-- One request to the two modules, by any user or agent, whether it succeeds or not.
pub data ControlStep (s : ControlDb) : ControlDb → Type 0 where
  request_job :
      (call : ControlCall) (p : Principal) (c : Catalog) (key : String) (b : AutomationJobCreate)
      → ControlStep s (create_automation_job call p c key b s).1
  decide :
      (call : ControlCall) (p : Principal) (c : Catalog) (id : ℕ) (b : ApprovalDecisionCreate)
      → ControlStep s (decide_approval call p c id b s).1
  assign :
      (call : ControlCall) (p : Principal) (id : ℕ) (key : String) (b : AgentTaskCreate)
      → ControlStep s (create_task call p id key b s).1
  fetch :
      (call : ControlCall) (pki : Pki) (a : AgentPrincipal) (locked : ℕ → Bool) (id : ℕ)
      → ControlStep s (next_task call pki a locked id s).1
  report :
      (call : ControlCall) (a : AgentPrincipal) (id task : ℕ) (b : AgentTaskResult)
      → ControlStep s (submit_task_result call a id task b s).1
  invite :
      (call : ControlCall) (src : TokenSource) (p : Principal) (b : RegistrationTokenCreate)
      → ControlStep s (create_registration_token call src p b s).1
  enrol :
      (call : ControlCall) (src : TokenSource) (pki : Pki) (b : AgentEnrollmentRequest)
      → ControlStep s (enroll_agent call src pki b s).1
  renew :
      (call : ControlCall) (pki : Pki) (window : ℕ) (a : AgentPrincipal) (id : ℕ) (csr : String)
      → ControlStep s (renew_agent_certificate call pki window a id csr s).1
  beat :
      (call : ControlCall) (a : AgentPrincipal) (id : ℕ) (b : AgentHeartbeatRequest)
      → ControlStep s (heartbeat call a id b s).1
  disable :
      (call : ControlCall) (p : Principal) (id : ℕ) (reason : String)
      → ControlStep s (disable_agent call p id reason s).1

-- Any number of requests, one after the other.
pub data ControlRuns (s : ControlDb) : ControlDb → Type 0 where
  here : ControlRuns s s
  next : {t u : ControlDb} → ControlRuns s t → ControlStep t u → ControlRuns s u

-- A transaction that is rolled back changes nothing.
pub settle-keeps {ℓ κ} :
    {A : Type ℓ} (P : ControlDb → Type κ) (r : Result (A × ControlDb)) (s : ControlDb)
    → ((a : A) (s' : ControlDb) → r ≡ ok (a, s') → P s')
    → P s
    → P (settle r s).1
unfolding settle
settle-keeps P (err e) s keep h = h
settle-keeps P (ok (a, s')) s keep h = keep a s' refl

-- Every request keeps the invariant of the tables, whoever sends it and whether it succeeds or
-- not: no job of risk R2 or more is released without an approval that was granted by as many
-- users as it asks for, none of whom is its requester or is counted twice; and each task of a
-- job is in the state of its job, which has no other task.
pub ControlStep-IsSound : {s t : ControlDb} → ControlStep s t → IsSoundControl s → IsSoundControl t
unfolding create_automation_job decide_approval create_task next_task submit_task_result
    create_registration_token enroll_agent renew_agent_certificate heartbeat disable_agent
    heartbeat_tx
ControlStep-IsSound {s} (request_job call p c key b) h =
    settle-keeps IsSoundControl (create_automation_job_tx call p c key b s) s
      (λ j s' e. create_automation_job_tx-IsSound call p c key b s s' j e h) h
ControlStep-IsSound {s} (decide call p c id b) h =
    settle-keeps IsSoundControl (decide_approval_tx call p c id b s) s
      (λ a s' e. decide_approval_tx-IsSound call p c id b s s' a e h) h
ControlStep-IsSound {s} (assign call p id key b) h =
    settle-keeps IsSoundControl (create_task_tx call p id key b s) s
      (λ t s' e. create_task_tx-IsSound call p id key b s s' t e h) h
ControlStep-IsSound {s} (fetch call pki a locked id) h =
    settle-keeps IsSoundControl (next_task_tx call pki a locked id s) s
      (λ x s' e. next_task_tx-IsSound call pki a locked id s s' x e h) h
ControlStep-IsSound {s} (report call a id task b) h =
    settle-keeps IsSoundControl (submit_task_result_tx call a id task b s) s
      (λ t s' e. submit_task_result_tx-IsSound call a id task b s s' t e h) h
ControlStep-IsSound {s} (invite call src p b) h =
    settle-keeps IsSoundControl (create_registration_token_tx call src p b s) s
      (λ t s' e.
        Tables-IsSoundControl (create_registration_token_tx-Tables call src p b s s' t e) h)
      h
ControlStep-IsSound {s} (enrol call src pki b) h =
    settle-keeps IsSoundControl (enroll_agent_tx call src pki b s) s
      (λ a s' e. Tables-IsSoundControl (enroll_agent_tx-Tables call src pki b s s' a e) h) h
ControlStep-IsSound {s} (renew call pki window a id csr) h =
    settle-keeps IsSoundControl (renew_agent_certificate_tx call pki window a id csr s) s
      (λ x s' e.
        Tables-IsSoundControl (renew_agent_certificate_tx-Tables call pki window a id csr s s' x e)
          h)
      h
ControlStep-IsSound {s} (beat call a id b) h =
    settle-keeps IsSoundControl (heartbeat_tx call a id b s) s
      (λ x s' e.
        let (new, applied) = heartbeat_tx-ok call a id b s s' x e in
        Tables-IsSoundControl (apply_heartbeat-Tables call new s s' x applied) h)
      h
ControlStep-IsSound {s} (disable call p id reason) h =
    settle-keeps IsSoundControl (disable_agent_tx call p id reason s) s
      (λ a s' e. disable_agent_tx-IsSound call p id reason s s' a e h) h

pub ControlRuns-IsSound : {s t : ControlDb} → ControlRuns s t → IsSoundControl s → IsSoundControl t
ControlRuns-IsSound here h = h
ControlRuns-IsSound (next r st) h = ControlStep-IsSound st (ControlRuns-IsSound r h)

-- No jobs and no agents yet.
abbrev pub no_jobs : List Asset → AuditStore → ControlDb
no_jobs assets audit = record {
  jobs = [];
  approvals = [];
  decisions = [];
  tasks = [];
  tokens = [];
  agents = [];
  assets = assets;
  timeline = [];
  audit = audit;
}

pub no_jobs-IsSound :
    (assets : List Asset) (audit : AuditStore) → IsSoundControl (no_jobs assets audit)
no_jobs-IsSound assets audit = record {
  gated = λ i x e. cc;
  backed = λ i x e. cc;
  asked = λ i x e. cc;
  counted = λ i x e. cc;
  outside = tt;
  one_each = tt;
  one_approval = λ i j a b e f same. cc;
  tied = λ i x e. cc;
  free = λ i x e. cc;
  one_task = λ i j k t u e f et eu. cc;
}
