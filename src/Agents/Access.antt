-- ===== src/Agents/Access.antt =====
-- apps/api/src/aiops_x_api/modules/agent_control: `get_current_agent` (security.py) and
-- `_require_agent_scope` (api.py). What pki.py does with OpenSSL is a field of `Pki`.
use aiops_x_enterprise_new.Prelude.{
  ℕ, String, ◌==◌, Bool, true, false, not, ◌||◌, Option, none, some, ltb, if◌then◌else◌, str_eq,
}
use aiops_x_enterprise_new.Core.Errors.{Result, ok, err, app_error, guard, required, ◌>>=◌, ◌>>◌}
use aiops_x_enterprise_new.Core.Json.{Fields}
use aiops_x_enterprise_new.Core.Table.{first_where}
use aiops_x_enterprise_new.Agents.Models.{AgentStatus, EdgeAgent}
use aiops_x_enterprise_new.Agents.Database.{ControlDb}

pub record Certificate : Type 0 where
  pub serial : String
  pub not_after : ℕ
  pub fingerprint : String

pub record Pki : Type 0 where
  -- `issue_agent_certificate(csr_pem, agent_id)`.
  pub issue_agent_certificate : String → ℕ → Result Certificate
  -- `csr_fingerprint(csr_pem)`.
  pub csr_fingerprint : String → Result String
  -- `normalize_certificate_serial(value)`; `none` where it raises `ValueError`.
  pub normalize_certificate_serial : String → Option String
  -- The fingerprint of an escaped certificate that `verify_proxy_certificate` accepts under a serial
  -- number, or the error that decoding or verifying it raises.
  pub verify_proxy_certificate : String → String → Result String
  -- `sign_task(canonical_task_payload(document))`, or the error if there is no signing key.
  pub sign_task : Fields → Result String
  -- `task_signing_certificate_pem()`, or the error if there is no such certificate.
  pub task_signing_certificate_pem : Result String

pub record AgentPrincipal : Type 0 where
  pub agent_id : ℕ
  pub tenant_id : ℕ
  pub project_id : ℕ
  pub asset_id : ℕ
  pub certificate_serial : String
  pub is_current_certificate : Bool

-- The headers that the proxy sets.
pub record ProxyHeaders : Type 0 where
  pub verify_status : Option String
  pub certificate_serial : Option String
  pub escaped_certificate : Option String

abbrev pub unauthorized_agent {ℓ} : {A : Type ℓ} → Result A
unauthorized_agent = err (app_error "AIOPS_4001" 401)

abbrev pub holds : Option String → String → Bool
holds none s = false
holds (some t) s = str_eq t s

abbrev pub is_disabled : AgentStatus → Bool
is_disabled AgentStatus.disabled = true
is_disabled _ = false

-- `not value` of an optional header.
abbrev pub present : Option String → Option String
present none = none
present (some s) = if str_eq s "" then none else some s

-- What the response to an enrolment or a renewal still needs when the transaction is over: if there
-- is no signing certificate, then the request fails although its changes are committed.
abbrev pub with_signing_certificate {ℓ} :
    {A : Type ℓ} → Pki → Result A × ControlDb → Result (A × String) × ControlDb
with_signing_certificate pki r =
    (r.0 >>= λ a. pki.task_signing_certificate_pem >>= λ pem. ok (a, pem), r.1)

unfoldable pub agent_of_serial : String → ControlDb → Option EdgeAgent
agent_of_serial serial s =
    first_where
      (λ (a : EdgeAgent).
        str_eq a.certificate_serial serial || holds a.previous_certificate_serial serial)
      s.agents

abbrev pub expected_fingerprint : Bool → EdgeAgent → Option String
expected_fingerprint true a = some a.certificate_fingerprint
expected_fingerprint false a = a.previous_certificate_fingerprint

abbrev pub expected_not_after : Bool → EdgeAgent → Option ℕ
expected_not_after true a = some a.certificate_not_after
expected_not_after false a = a.previous_certificate_not_after

-- Of the current or of the previous certificate: its fingerprint is the stored one, and it has not
-- expired.
unfoldable pub check_certificate : ℕ → Bool → EdgeAgent → Result String → Result (Unit {0})
check_certificate now is_current a verified = do
  expected ← required (expected_fingerprint is_current a) (app_error "AIOPS_4001" 401)
  not_after ← required (expected_not_after is_current a) (app_error "AIOPS_4001" 401)
  fingerprint ← verified
  guard (str_eq fingerprint expected) (app_error "AIOPS_4001" 401)
  guard (ltb now not_after) (app_error "AIOPS_4001" 401)

unfoldable pub get_current_agent : Pki → ℕ → ProxyHeaders → ControlDb → Result AgentPrincipal
unfolding agent_of_serial check_certificate
get_current_agent pki now h s = do
  guard (holds h.verify_status "SUCCESS") (app_error "AIOPS_4001" 401)
  sent ← required (present h.certificate_serial) (app_error "AIOPS_4001" 401)
  escaped ← required (present h.escaped_certificate) (app_error "AIOPS_4001" 401)
  serial ← required (pki.normalize_certificate_serial sent) (app_error "AIOPS_4001" 401)
  agent ← required (agent_of_serial serial s) (app_error "AIOPS_4001" 401)
  guard (not (is_disabled agent.status)) (app_error "AIOPS_4001" 401)
  let is_current = str_eq agent.certificate_serial serial
  check_certificate now is_current agent (pki.verify_proxy_certificate escaped serial)
  ok (record {
    agent_id = agent.id;
    tenant_id = agent.tenant_id;
    project_id = agent.project_id;
    asset_id = agent.asset_id;
    certificate_serial = serial;
    is_current_certificate = is_current;
  })

unfoldable pub require_agent_scope : AgentPrincipal → ℕ → Bool → Result (Unit {0})
require_agent_scope a agent_id allow_previous = do
  guard (a.agent_id == agent_id) (app_error "AIOPS_4003" 403)
  guard (allow_previous || a.is_current_certificate) (app_error "AIOPS_4001" 401)
