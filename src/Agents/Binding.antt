-- ===== src/Agents/Binding.antt =====
-- What an enrolment by `enroll_agent` of
-- apps/api/src/aiops_x_api/modules/agent_control/api.py binds.
use aiops_x_enterprise_new.Prelude.{
  ℕ, String, ==_refl, ◌≡◌, refl, ap, ◌∙◌, true, false, some, List, [], ◌∷◌, arith, some_of, str_eq,
}
use aiops_x_enterprise_new.Core.Errors.{ok, err, >>=-eq-ok, app_error}
use aiops_x_enterprise_new.Core.Patch.{given}
use aiops_x_enterprise_new.Core.Table.{first_where, put_row}
use aiops_x_enterprise_new.Agents.Models.{AgentRegistrationToken, EdgeAgent, AgentEnrollmentRequest}
use aiops_x_enterprise_new.Agents.Database.{ControlDb, ControlCall, settle}
use aiops_x_enterprise_new.Agents.Access.{Pki}
use aiops_x_enterprise_new.Agents.Enrolment.{
  TokenSource, is_bound, token_of_hash, insert_agent, spend_token, check_enrolment, enroll_agent_tx,
  enroll_agent,
}
use aiops_x_enterprise_new.Agents.Registration.{register_agent-ok, check_enrolment-ok}

insert_agent-ok :
    (a : EdgeAgent) (s added : ControlDb)
    → insert_agent a s ≡ ok added
    → (some_of (is_bound a.tenant_id a.asset_id) s.agents ≡ false)
      × (added.agents ≡ a ∷ s.agents)
      × (added.tokens ≡ s.tokens)
unfolding insert_agent
insert_agent-ok a s added h = (ground arith, ground arith, ground arith)

-- The row that is written over is still the first of its hash.
first_of_hash :
    (hash : String) (new : AgentRegistrationToken) (xs : List AgentRegistrationToken)
    {t : AgentRegistrationToken}
    → first_where (λ (x : AgentRegistrationToken). str_eq x.token_hash hash) xs ≡ some t
    → new.id ≡ t.id
    → new.token_hash ≡ t.token_hash
    → first_where
        (λ (x : AgentRegistrationToken). str_eq x.token_hash hash)
        (put_row (λ (x : AgentRegistrationToken). x.id) new xs)
      ≡ some new
unfolding put_row
first_of_hash hash new [] h id same = cc
first_of_hash hash new (x ∷ xs) {t} h id same =
    ground (arith, first_of_hash hash new xs {t = t}, ==_refl t.id)

spent :
    (now : ℕ) (hash : String) (t : AgentRegistrationToken) (s : ControlDb)
    → token_of_hash hash s ≡ some t
    → token_of_hash hash (spend_token now t s) ≡ some (record t { used_at = some now })
unfolding spend_token
spent now hash t s h = first_of_hash hash (record t { used_at = some now }) s.tokens h refl refl

check_refused :
    (call : ControlCall) (src : TokenSource) (pki : Pki) (b : AgentEnrollmentRequest)
    (s : ControlDb) (t : AgentRegistrationToken)
    → token_of_hash (src.token_hash b.registration_token) s ≡ some t
    → given t.used_at ≡ true
    → check_enrolment call src pki b s ≡ err (app_error "AIOPS_4103" 401)
unfolding check_enrolment
check_refused call src pki b s t found used = rw (found, used) refl

refused :
    (call : ControlCall) (src : TokenSource) (pki : Pki) (b : AgentEnrollmentRequest)
    (s : ControlDb) (t : AgentRegistrationToken)
    → token_of_hash (src.token_hash b.registration_token) s ≡ some t
    → given t.used_at ≡ true
    → enroll_agent call src pki b s ≡ (err (app_error "AIOPS_4103" 401), s)
unfolding enroll_agent enroll_agent_tx settle
refused call src pki b s t found used = rw (check_refused call src pki b s t found used) refl

-- An enrolment that succeeds adds one agent, for an asset that has had no active agent, and
-- spends its token: whoever enrols next with that token, whenever and with whatever request, is
-- refused as unauthorized, and nothing is changed.
pub enrolled_once :
    (call : ControlCall) (src : TokenSource) (pki : Pki) (b : AgentEnrollmentRequest)
    (s s' : ControlDb) (a : EdgeAgent)
    → enroll_agent_tx call src pki b s ≡ ok (a, s')
    → (new : EdgeAgent) × (s'.agents ≡ new ∷ s.agents)
      × (some_of (is_bound new.tenant_id new.asset_id) s.agents ≡ false)
      × ((call' : ControlCall) (pki' : Pki) (b' : AgentEnrollmentRequest)
          → b'.registration_token ≡ b.registration_token
          → enroll_agent call' src pki' b' s' ≡ (err (app_error "AIOPS_4103" 401), s'))
unfolding enroll_agent_tx
enrolled_once call src pki b s s' a h =
    let (f, checked, registered) = >>=-eq-ok (check_enrolment call src pki b s) _ h in
    let (token, usable, of_tenant, of_asset) = check_enrolment-ok call src pki b s f checked in
    let (added, w) = register_agent-ok call b f s s' a registered in
    let (unbound, agents, tokens) = insert_agent-ok f.agent s added w.inserted in
    let there : token_of_hash (src.token_hash b.registration_token) added ≡ some f.token =
      ap
        (first_where (λ (x : AgentRegistrationToken).
          str_eq x.token_hash (src.token_hash b.registration_token)))
        tokens
      ∙ token in
    (
      f.agent,
      w.agents ∙ agents,
      unbound,
      λ call' pki' b' same.
          refused call' src pki' b' s' (record f.token { used_at = some call.readings.now })
            (ap (λ r. token_of_hash (src.token_hash r) s') same
              ∙ ap
                  (first_where (λ (x : AgentRegistrationToken).
                    str_eq x.token_hash (src.token_hash b.registration_token)))
                  w.tokens
              ∙ spent call.readings.now (src.token_hash b.registration_token) f.token added there)
            refl,
    )
