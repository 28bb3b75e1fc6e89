-- ===== src/Agents/Authentication.antt =====
-- Who passes `get_current_agent` of
-- apps/api/src/aiops_x_api/modules/agent_control/security.py.
use mathlib.Core.List.{Memᴰ}
use aiops_x_enterprise_new.Prelude.{
  ℕ, String, ◌<◌, ◌≡◌, refl, ap, ◌∙◌, Bool, true, false, not, ◌||◌, Option, none, some, List, arith,
  ltb, if◌then◌else◌, str_eq, eq_iff, subst,
}
use aiops_x_enterprise_new.Core.Errors.{
  Result, ok, >>=-eq-ok, >>-eq-ok, guard, guard-eq-ok, required, required-eq-ok,
}
use aiops_x_enterprise_new.Core.Table.{first_where-found}
use aiops_x_enterprise_new.Agents.Models.{EdgeAgent}
use aiops_x_enterprise_new.Agents.Database.{ControlDb}
use aiops_x_enterprise_new.Agents.Access.{
  Pki, AgentPrincipal, ProxyHeaders, holds, present, is_disabled, agent_of_serial,
  expected_fingerprint, expected_not_after, check_certificate, get_current_agent,
}

-- The certificate of an agent, its current or its previous one, with its fingerprint and its end.
pub record HasCertificate (a : EdgeAgent) (serial fingerprint : String) (not_after : ℕ)
    (is_current : Bool) : Type 0 where
  pub serial_is :
      (if is_current
        then str_eq a.certificate_serial serial
        else holds a.previous_certificate_serial serial)
      ≡ true
  pub fingerprint_is : expected_fingerprint is_current a ≡ some fingerprint
  pub not_after_is : expected_not_after is_current a ≡ some not_after

check_certificate-ok :
    (now : ℕ) (is_current : Bool) (a : EdgeAgent) (verified : Result String)
    → check_certificate now is_current a verified ≡ ok tt
    → (fingerprint : String) × (not_after : ℕ) × (expected_fingerprint is_current a
        ≡ some fingerprint)
      × (expected_not_after is_current a ≡ some not_after)
      × (verified ≡ ok fingerprint)
      × (now < not_after)
unfolding check_certificate
check_certificate-ok now is_current a verified h =
    let (expected, e1, h1) = >>=-eq-ok (required (expected_fingerprint is_current a) _) _ h in
    let (not_after, e2, h2) = >>=-eq-ok (required (expected_not_after is_current a) _) _ h1 in
    let (fingerprint, e3, h3) = >>=-eq-ok verified _ h2 in
    let (same, h4) = >>-eq-ok (guard (str_eq fingerprint expected) _) _ h3 in
    let eq : fingerprint ≡ expected = (eq_iff fingerprint expected).0 (guard-eq-ok _ _ same) in
    let fresh = guard-eq-ok (ltb now not_after) _ h4 in
    (
      expected,
      not_after,
      required-eq-ok _ _ e1,
      required-eq-ok _ _ e2,
      e3 ∙ ap ok eq,
      ground (arith, fresh),
    )

present-some : (o : Option String) {s : String} → present o ≡ some s → o ≡ some s
present-some none h = cc
present-some (some t) h = ground arith

not-true : (b : Bool) → not b ≡ true → b ≡ false
not-true true h = cc
not-true false h = refl

-- The headers are those of an agent: the proxy has verified a certificate, which it hands on with
-- its serial number, and which is verified again.
abbrev pub IsSentBy : Pki → ℕ → ProxyHeaders → List EdgeAgent → AgentPrincipal → Type 0
IsSentBy pki now h agents p =
    (a : EdgeAgent) × (sent escaped fingerprint : String) × (not_after : ℕ) × Memᴰ a agents
    × (holds h.verify_status "SUCCESS" ≡ true)
    × (h.certificate_serial ≡ some sent)
    × (pki.normalize_certificate_serial sent ≡ some p.certificate_serial)
    × (h.escaped_certificate ≡ some escaped)
    × (p.agent_id ≡ a.id)
    × (is_disabled a.status ≡ false)
    × HasCertificate a p.certificate_serial fingerprint not_after p.is_current_certificate
    × (pki.verify_proxy_certificate escaped p.certificate_serial ≡ ok fingerprint)
    × (now < not_after)

sent_by :
    (pki : Pki) (now : ℕ) (h : ProxyHeaders) (agents : List EdgeAgent) (p : AgentPrincipal)
    (a : EdgeAgent) (sent serial escaped : String)
    → holds h.verify_status "SUCCESS" ≡ true
    → h.certificate_serial ≡ some sent
    → pki.normalize_certificate_serial sent ≡ some serial
    → h.escaped_certificate ≡ some escaped
    → Memᴰ a agents
    → is_disabled a.status ≡ false
    → (str_eq a.certificate_serial serial || holds a.previous_certificate_serial serial) ≡ true
    → check_certificate now
        (str_eq a.certificate_serial serial)
        a
        (pki.verify_proxy_certificate escaped serial)
      ≡ ok tt
    → ok (record {
      agent_id = a.id;
      tenant_id = a.tenant_id;
      project_id = a.project_id;
      asset_id = a.asset_id;
      certificate_serial = serial;
      is_current_certificate = str_eq a.certificate_serial serial;
    })
      ≡ ok p
    → IsSentBy pki now h agents p
sent_by pki now h agents p a sent serial escaped success number named handed there active held
      checked returned =
    let current = str_eq a.certificate_serial serial in
    let (fingerprint, not_after, f1, f2, verified, fresh) =
      check_certificate-ok now current a (pki.verify_proxy_certificate escaped serial) checked in
    let who : AgentPrincipal = record {
      agent_id = a.id;
      tenant_id = a.tenant_id;
      project_id = a.project_id;
      asset_id = a.asset_id;
      certificate_serial = serial;
      is_current_certificate = current;
    } in
    let same : who ≡ p = cc in
    subst (IsSentBy pki now h agents) same (
      a,
      sent,
      escaped,
      fingerprint,
      not_after,
      there,
      success,
      number,
      named,
      handed,
      refl,
      active,
      record { serial_is = ground (arith, held); fingerprint_is = f1; not_after_is = f2 },
      verified,
      fresh,
    )

-- Whoever is authenticated as an agent is one of the table that is not disabled: the headers say
-- that the proxy has verified a certificate; its serial number, normalized, is that of the agent's
-- current certificate or of the one before it; and the certificate in the headers verifies under
-- that number, has the fingerprint that is stored with it, and has not expired.
pub authenticated :
    (pki : Pki) (now : ℕ) (h : ProxyHeaders) (s : ControlDb) (p : AgentPrincipal)
    → get_current_agent pki now h s ≡ ok p
    → IsSentBy pki now h s.agents p
unfolding get_current_agent agent_of_serial
authenticated pki now h s p e =
    let (e0, h0) = >>-eq-ok (guard (holds h.verify_status "SUCCESS") _) _ e in
    let (sent, e1, h1) = >>=-eq-ok (required (present h.certificate_serial) _) _ h0 in
    let (escaped, e2, h2) = >>=-eq-ok (required (present h.escaped_certificate) _) _ h1 in
    let (serial, e3, h3) = >>=-eq-ok (required (pki.normalize_certificate_serial sent) _) _ h2 in
    let (a, e4, h4) = >>=-eq-ok (required (agent_of_serial serial s) _) _ h3 in
    let (e5, h5) = >>-eq-ok (guard (not (is_disabled a.status)) _) _ h4 in
    let (e6, returned) =
      >>-eq-ok
        (check_certificate now (str_eq a.certificate_serial serial) a
          (pki.verify_proxy_certificate escaped serial))
        _ h5 in
    let active = guard-eq-ok (not (is_disabled a.status)) _ e5 in
    let (there, held) =
      first_where-found
        (λ (x : EdgeAgent).
          str_eq x.certificate_serial serial || holds x.previous_certificate_serial serial)
        s.agents (required-eq-ok _ _ e4) in
    sent_by pki now h s.agents p a sent serial escaped
      (guard-eq-ok (holds h.verify_status "SUCCESS") _ e0)
      (present-some h.certificate_serial (required-eq-ok _ _ e1)) (required-eq-ok _ _ e3)
      (present-some h.escaped_certificate (required-eq-ok _ _ e2)) there
      (not-true (is_disabled a.status) active) held e6 returned
