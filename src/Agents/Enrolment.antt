-- ===== src/Agents/Enrolment.antt =====
-- apps/api/src/aiops_x_api/modules/agent_control/api.py: `create_registration_token`,
-- `enroll_agent` and `heartbeat`. The metric of agents that are online is left out.
use Prim.Native.String.{String}
use aiops_x_enterprise_new.Prelude.{
  ℕ, ◌+◌, ◌==◌, Bool, true, false, not, ◌&&◌, Option, none, some, [], ◌∷◌, some_of, ltb, leb,
  str_eq,
}
use aiops_x_enterprise_new.Prelude.Texts.{has_text}
use aiops_x_enterprise_new.Core.Errors.{Result, ok, app_error, guard, required, ◌>>=◌, ◌>>◌}
use aiops_x_enterprise_new.Core.Json.{Json, text, array, Fields, end, field}
use aiops_x_enterprise_new.Core.Patch.{given}
use aiops_x_enterprise_new.Core.Table.{find_row, first_where, put_row}
use aiops_x_enterprise_new.Identity.Principal.{Principal}
use aiops_x_enterprise_new.Identity.Scope.{require_permission, ensure_project_scope}
use aiops_x_enterprise_new.Audit.Append.{first_chars}
use aiops_x_enterprise_new.Automation.Inputs.{get_field, all_items, is_text, validated_capabilities}
use aiops_x_enterprise_new.Agents.Models.{
  AgentStatus, AgentRegistrationToken, EdgeAgent, RegistrationTokenCreate, AgentEnrollmentRequest,
  AgentHeartbeatRequest, Asset,
}
use aiops_x_enterprise_new.Agents.Database.{
  ControlDb, ControlCall, agent_row, put_agent, audit_user, audit_agent, get_asset_for_scope,
  update_asset_agent_state, settle,
}
use aiops_x_enterprise_new.Agents.Access.{
  with_signing_certificate, Certificate, Pki, AgentPrincipal, is_disabled, require_agent_scope,
}

-- `generate_opaque_token()` and `token_hash(token)`.
pub record TokenSource : Type 0 where
  pub raw_token : String
  pub token_hash : String → String

-- The agent of an asset that is not disabled.
abbrev pub is_bound : ℕ → ℕ → EdgeAgent → Bool
is_bound tenant asset a =
    a.asset_id == asset && (a.tenant_id == tenant && not (is_disabled a.status))

unfoldable pub new_token :
    ControlCall → TokenSource → Principal → RegistrationTokenCreate → AgentRegistrationToken
unfolding first_chars
new_token call src caller p = record {
  id = call.readings.row_id;
  tenant_id = caller.tenant_id;
  project_id = p.project_id;
  asset_id = p.asset_id;
  token_hash = src.token_hash src.raw_token;
  token_prefix = first_chars 12 src.raw_token;
  expires_at = call.readings.now + p.expires_in_seconds;
  used_at = none;
  created_by = caller.user_id;
}

unfoldable pub create_registration_token_tx :
    ControlCall
    → TokenSource
    → Principal
    → RegistrationTokenCreate
    → ControlDb
    → Result (AgentRegistrationToken × ControlDb)
unfolding new_token
create_registration_token_tx call src caller p s = do
  guard (leb 60 p.expires_in_seconds && leb p.expires_in_seconds 3600)
      (app_error "RequestValidationError" 422)
  needed ← require_permission "agent:write" caller
  ensure_project_scope caller needed p.project_id
  asset ← get_asset_for_scope caller.tenant_id p.asset_id s
  guard (asset.project_id == p.project_id) (app_error "AIOPS_4101" 409)
  guard (not (some_of (is_bound caller.tenant_id asset.id) s.agents)) (app_error "AIOPS_4102" 409)
  let token = new_token call src caller p
  guard (not (given (find_row (λ (t : AgentRegistrationToken). t.id) token.id s.tokens)))
      (app_error "IntegrityError" 500)
  guard
      (not
        (some_of (λ (t : AgentRegistrationToken). str_eq t.token_hash token.token_hash) s.tokens))
      (app_error "IntegrityError" 500)
  ok (
    token,
    audit_user call caller "agent.registration_token.created" "agent_registration_token"
        p.project_id token.id
        (field "asset_id" (text (call.runtime.uuid_text p.asset_id))
          (field "expires_at" (text (call.runtime.iso_text token.expires_at)) end))
        (record s { tokens = token ∷ s.tokens }),
  )

unfoldable pub create_registration_token :
    ControlCall
    → TokenSource
    → Principal
    → RegistrationTokenCreate
    → ControlDb
    → Result AgentRegistrationToken × ControlDb
unfolding create_registration_token_tx settle
create_registration_token call src caller p s =
    settle (create_registration_token_tx call src caller p s) s

abbrev pub token_of_hash : String → ControlDb → Option AgentRegistrationToken
token_of_hash hash s =
    first_where (λ (t : AgentRegistrationToken). str_eq t.token_hash hash) s.tokens

-- Not used yet, and not expired.
abbrev pub is_usable : ℕ → AgentRegistrationToken → Bool
is_usable now t = not (given t.used_at) && ltb now t.expires_at

unfoldable pub new_agent :
    ControlCall → AgentEnrollmentRequest → AgentRegistrationToken → Certificate → Fields → EdgeAgent
new_agent call p t c capabilities = record {
  id = call.readings.row_id;
  tenant_id = t.tenant_id;
  project_id = t.project_id;
  asset_id = t.asset_id;
  name = call.runtime.strip p.name;
  hostname = call.runtime.strip p.hostname;
  platform = call.runtime.strip p.platform;
  architecture = call.runtime.strip p.architecture;
  version = call.runtime.strip p.version;
  status = AgentStatus.registered;
  health_status = "unknown";
  capabilities = capabilities;
  certificate_serial = c.serial;
  certificate_fingerprint = c.fingerprint;
  certificate_not_after = c.not_after;
  previous_certificate_serial = none;
  previous_certificate_fingerprint = none;
  previous_certificate_not_after = none;
  last_renewal_csr_fingerprint = none;
  last_heartbeat_at = none;
  disabled_at = none;
  disabled_by = none;
  disable_reason = none;
}

-- The constraints of the table: its key, one active agent of an asset, and the certificate.
unfoldable pub insert_agent : EdgeAgent → ControlDb → Result ControlDb
insert_agent a s = do
  guard (not (given (agent_row a.id s))) (app_error "IntegrityError" 500)
  guard (not (some_of (is_bound a.tenant_id a.asset_id) s.agents)) (app_error "IntegrityError" 500)
  guard
      (not (some_of (λ (b : EdgeAgent). str_eq b.certificate_serial a.certificate_serial) s.agents))
      (app_error "IntegrityError" 500)
  guard
      (not (
        some_of (λ (b : EdgeAgent). str_eq b.certificate_fingerprint a.certificate_fingerprint)
          s.agents))
      (app_error "IntegrityError" 500)
  ok (record s { agents = a ∷ s.agents })

unfoldable pub spend_token : ℕ → AgentRegistrationToken → ControlDb → ControlDb
spend_token now t s = record s {
  tokens =
      put_row (λ (x : AgentRegistrationToken). x.id) (record t { used_at = some now }) s.tokens;
}

-- What the checks have found, and the row that is made of it.
pub record EnrolmentFacts : Type 0 where
  pub token : AgentRegistrationToken
  pub asset : Asset
  pub agent : EdgeAgent

unfoldable pub check_enrolment :
    ControlCall → TokenSource → Pki → AgentEnrollmentRequest → ControlDb → Result EnrolmentFacts
unfolding new_agent
check_enrolment call src pki p s = do
  token ←
      required (token_of_hash (src.token_hash p.registration_token) s) (app_error "AIOPS_4103" 401)
  guard (is_usable call.readings.now token) (app_error "AIOPS_4103" 401)
  asset ← get_asset_for_scope token.tenant_id token.asset_id s
  certificate ← pki.issue_agent_certificate p.csr_pem call.readings.row_id
  capabilities ← validated_capabilities p.capabilities
  ok (record {
    token = token;
    asset = asset;
    agent = new_agent call p token certificate capabilities;
  })

unfoldable pub register_agent :
    ControlCall
    → AgentEnrollmentRequest
    → EnrolmentFacts
    → ControlDb
    → Result (EdgeAgent × ControlDb)
unfolding insert_agent spend_token update_asset_agent_state
register_agent call p f s = do
  added ← insert_agent f.agent s
  told ←
      update_asset_agent_state call.readings.later f.token.tenant_id f.asset.id "registered"
        (some (call.runtime.strip p.hostname)) (spend_token call.readings.now f.token added)
  ok (
    f.agent,
    audit_agent call call.readings.audit f.agent.id "agent.registered" "agent" "success"
        f.agent.tenant_id f.agent.project_id f.agent.id
        (field "asset_id" (text (call.runtime.uuid_text f.agent.asset_id)) (
          field "platform" (text f.agent.platform) (
            field "architecture" (text f.agent.architecture)
              (field "token_id" (text (call.runtime.uuid_text f.token.id)) end))))
        told,
  )

unfoldable pub enroll_agent_tx :
    ControlCall
    → TokenSource
    → Pki
    → AgentEnrollmentRequest
    → ControlDb
    → Result (EdgeAgent × ControlDb)
unfolding check_enrolment register_agent
enroll_agent_tx call src pki p s = do
  f ← check_enrolment call src pki p s
  register_agent call p f s

unfoldable pub enroll_agent :
    ControlCall
    → TokenSource
    → Pki
    → AgentEnrollmentRequest
    → ControlDb
    → Result (EdgeAgent × String) × ControlDb
unfolding enroll_agent_tx settle
enroll_agent call src pki p s =
    with_signing_certificate pki (settle (enroll_agent_tx call src pki p s) s)

unfoldable pub beaten : ControlCall → AgentHeartbeatRequest → Fields → EdgeAgent → EdgeAgent
beaten call p capabilities a = record a {
  hostname = call.runtime.strip p.hostname;
  platform = call.runtime.strip p.platform;
  architecture = call.runtime.strip p.architecture;
  version = call.runtime.strip p.version;
  health_status = p.health_status;
  capabilities = capabilities;
  status = AgentStatus.online;
  last_heartbeat_at = some call.readings.now;
}

-- A row that the database refuses: a second active agent of an asset.
abbrev pub others_bound : EdgeAgent → ControlDb → Bool
others_bound a s =
    some_of (λ (b : EdgeAgent). not (b.id == a.id) && is_bound a.tenant_id a.asset_id b) s.agents

-- `AgentHeartbeatRequest.validate_capabilities`.
abbrev reports_registered : Option Json → Bool
reports_registered none = true
reports_registered (some (array actions)) = all_items (is_text "system.disk_usage") actions
reports_registered (some _) = false

unfoldable pub validate_heartbeat : AgentHeartbeatRequest → Result (Unit {0})
unfolding get_field
validate_heartbeat p =
    guard
      (has_text p.health_status ("healthy" ∷ "degraded" ∷ [])
        && reports_registered (get_field "actions" p.capabilities))
      (app_error "RequestValidationError" 422)

unfoldable pub apply_heartbeat :
    ControlCall → EdgeAgent → ControlDb → Result (EdgeAgent × ControlDb)
unfolding update_asset_agent_state
apply_heartbeat call new s = do
  guard (not (others_bound new s)) (app_error "IntegrityError" 500)
  told ←
      update_asset_agent_state call.readings.later new.tenant_id new.asset_id "online"
        (some new.hostname) (put_agent new s)
  ok (
    new,
    audit_agent call call.readings.audit new.id "agent.heartbeat.received" "agent" "success"
        new.tenant_id new.project_id new.id
        (field "health_status" (text new.health_status) (field "version" (text new.version) end))
        told,
  )

unfoldable pub heartbeat_tx :
    ControlCall
    → AgentPrincipal
    → ℕ
    → AgentHeartbeatRequest
    → ControlDb
    → Result (EdgeAgent × ControlDb)
unfolding validate_heartbeat beaten apply_heartbeat
heartbeat_tx call a agent_id p s = do
  validate_heartbeat p
  require_agent_scope a agent_id false
  agent ← required (agent_row agent_id s) (app_error "AIOPS_4004" 404)
  capabilities ← validated_capabilities p.capabilities
  apply_heartbeat call (beaten call p capabilities agent) s

unfoldable pub heartbeat :
    ControlCall
    → AgentPrincipal
    → ℕ
    → AgentHeartbeatRequest
    → ControlDb
    → Result EdgeAgent × ControlDb
unfolding heartbeat_tx settle
heartbeat call a agent_id p s = settle (heartbeat_tx call a agent_id p s) s
