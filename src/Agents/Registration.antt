-- ===== src/Agents/Registration.antt =====
-- What the requests of apps/api/src/aiops_x_api/modules/agent_control/api.py that concern an agent
-- itself have written: they leave jobs, approvals and tasks alone.
use aiops_x_enterprise_new.Prelude.{ℕ, String, true, false, arith, ◌≡◌, some}
use aiops_x_enterprise_new.Core.Errors.{ok, >>=-eq-ok, >>-eq-ok, required}
use aiops_x_enterprise_new.Identity.Principal.{Principal}
use aiops_x_enterprise_new.Automation.Inputs.{validated_capabilities}
use aiops_x_enterprise_new.Agents.Models.{
  AgentRegistrationToken, EdgeAgent, RegistrationTokenCreate, AgentEnrollmentRequest,
  AgentHeartbeatRequest,
}
use aiops_x_enterprise_new.Agents.Database.{
  ControlDb, ControlCall, get_asset_for_scope, update_asset_agent_state, agent_row, audit_user,
  audit_agent,
}
use aiops_x_enterprise_new.Agents.Tables.{Tables}
use aiops_x_enterprise_new.Agents.Access.{Pki, AgentPrincipal, require_agent_scope}
use aiops_x_enterprise_new.Agents.Enrolment.{
  TokenSource, create_registration_token_tx, heartbeat_tx, apply_heartbeat, validate_heartbeat,
  beaten, token_of_hash, new_agent, insert_agent, spend_token, is_usable, EnrolmentFacts,
  check_enrolment, register_agent,
}
use aiops_x_enterprise_new.Agents.Withdrawal.{renew_agent_certificate_tx}

pub create_registration_token_tx-Tables :
    (call : ControlCall) (src : TokenSource) (p : Principal) (b : RegistrationTokenCreate)
    (s s' : ControlDb) (t : AgentRegistrationToken)
    → create_registration_token_tx call src p b s ≡ ok (t, s')
    → Tables s' s
unfolding create_registration_token_tx audit_user get_asset_for_scope
create_registration_token_tx-Tables call src p b s s' t h = record {
  jobs = ground arith;
  approvals = ground arith;
  decisions = ground arith;
  tasks = ground arith;
}

pub insert_agent-Tables :
    (a : EdgeAgent) (s s' : ControlDb) → insert_agent a s ≡ ok s' → Tables s' s
unfolding insert_agent
insert_agent-Tables a s s' h = record {
  jobs = ground arith;
  approvals = ground arith;
  decisions = ground arith;
  tasks = ground arith;
}

-- What an enrolment has written.
pub record Registers (call : ControlCall) (f : EnrolmentFacts) (s s' added : ControlDb)
    : Type 0 where
  pub inserted : insert_agent f.agent s ≡ ok added
  pub tokens : s'.tokens ≡ (spend_token call.readings.now f.token added).tokens
  pub agents : s'.agents ≡ added.agents
  pub tables : Tables s' added

pub register_agent-ok :
    (call : ControlCall) (b : AgentEnrollmentRequest) (f : EnrolmentFacts) (s s' : ControlDb)
    (a' : EdgeAgent)
    → register_agent call b f s ≡ ok (a', s')
    → (added : ControlDb) × Registers call f s s' added
unfolding register_agent spend_token update_asset_agent_state audit_agent get_asset_for_scope
register_agent-ok call b f s s' a' h =
    let (added, inserted, rest) = >>=-eq-ok (insert_agent f.agent s) _ h in
    (
      added,
      record {
        inserted = inserted;
        tokens = ground arith;
        agents = ground arith;
        tables = record {
          jobs = ground arith;
          approvals = ground arith;
          decisions = ground arith;
          tasks = ground arith;
        };
      },
    )

pub check_enrolment-ok :
    (call : ControlCall) (src : TokenSource) (pki : Pki) (b : AgentEnrollmentRequest)
    (s : ControlDb) (f : EnrolmentFacts)
    → check_enrolment call src pki b s ≡ ok f
    → (token_of_hash (src.token_hash b.registration_token) s ≡ some f.token)
      × (is_usable call.readings.now f.token ≡ true)
      × (f.agent.tenant_id ≡ f.token.tenant_id)
      × (f.agent.asset_id ≡ f.token.asset_id)
unfolding check_enrolment new_agent
check_enrolment-ok call src pki b s f h = (ground arith, ground arith, ground arith, ground arith)

pub apply_heartbeat-Tables :
    (call : ControlCall) (new : EdgeAgent) (s s' : ControlDb) (a : EdgeAgent)
    → apply_heartbeat call new s ≡ ok (a, s')
    → Tables s' s
unfolding apply_heartbeat update_asset_agent_state audit_agent get_asset_for_scope
apply_heartbeat-Tables call new s s' a h = record {
  jobs = ground arith;
  approvals = ground arith;
  decisions = ground arith;
  tasks = ground arith;
}

pub heartbeat_tx-ok :
    (call : ControlCall) (p : AgentPrincipal) (id : ℕ) (b : AgentHeartbeatRequest)
    (s s' : ControlDb) (a : EdgeAgent)
    → heartbeat_tx call p id b s ≡ ok (a, s')
    → (new : EdgeAgent) × (apply_heartbeat call new s ≡ ok (a, s'))
unfolding heartbeat_tx
heartbeat_tx-ok call p id b s s' a h =
    let (valid, h1) = >>-eq-ok (validate_heartbeat b) _ h in
    let (scoped, h2) = >>-eq-ok (require_agent_scope p id false) _ h1 in
    let (old, found, h3) = >>=-eq-ok (required (agent_row id s) _) _ h2 in
    let (capabilities, checked, h4) = >>=-eq-ok (validated_capabilities b.capabilities) _ h3 in
    (beaten call b capabilities old, h4)

pub renew_agent_certificate_tx-Tables :
    (call : ControlCall) (pki : Pki) (window : ℕ) (p : AgentPrincipal) (id : ℕ) (csr : String)
    (s s' : ControlDb) (a : EdgeAgent)
    → renew_agent_certificate_tx call pki window p id csr s ≡ ok (a, s')
    → Tables s' s
unfolding renew_agent_certificate_tx audit_agent
renew_agent_certificate_tx-Tables call pki window p id csr s s' a h = record {
  jobs = ground arith;
  approvals = ground arith;
  decisions = ground arith;
  tasks = ground arith;
}
