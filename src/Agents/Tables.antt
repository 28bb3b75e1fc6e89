-- ===== src/Agents/Tables.antt =====
-- The four tables of apps/api/src/aiops_x_api/modules/automation and agent_control whose rows refer
-- to each other, and the writes that leave them alone.
use aiops_x_enterprise_new.Prelude.{ℕ, String, ◌≡◌, refl, ◌∙◌, Option}
use aiops_x_enterprise_new.Core.Errors.{Result, ok, >>=-eq-ok}
use aiops_x_enterprise_new.Core.Json.{Fields}
use aiops_x_enterprise_new.Identity.Principal.{Principal}
use aiops_x_enterprise_new.Audit.Append.{AuditReadings}
use aiops_x_enterprise_new.Agents.Database.{
  ControlDb, ControlCall, audit_user, audit_agent, get_asset_for_scope, update_asset_agent_state,
}

-- The two databases have the same jobs, approvals, decisions and tasks.
pub record Tables (s' : ControlDb) (s : ControlDb) : Type 0 where
  pub jobs : s'.jobs ≡ s.jobs
  pub approvals : s'.approvals ≡ s.approvals
  pub decisions : s'.decisions ≡ s.decisions
  pub tasks : s'.tasks ≡ s.tasks

pub Tables-refl : (s : ControlDb) → Tables s s
Tables-refl s = record { jobs = refl; approvals = refl; decisions = refl; tasks = refl }

pub Tables-trans : {s t u : ControlDb} → Tables u t → Tables t s → Tables u s
Tables-trans g h = record {
  jobs = g.jobs ∙ h.jobs;
  approvals = g.approvals ∙ h.approvals;
  decisions = g.decisions ∙ h.decisions;
  tasks = g.tasks ∙ h.tasks;
}

-- What is returned beside a value.
pub returned_state {ℓ} :
    {A : Type ℓ} {a b : A} {t s' : ControlDb}
    → ◌≡◌ {A = Result (A × ControlDb)} (ok (a, t)) (ok (b, s'))
    → t ≡ s'
returned_state h = cc

pub audit_user-Tables :
    (call : ControlCall) (p : Principal) (action resource_type : String) (project id : ℕ)
    (metadata : Fields) (s : ControlDb)
    → Tables (audit_user call p action resource_type project id metadata s) s
unfolding audit_user
audit_user-Tables call p action resource_type project id metadata s = record {
  jobs = refl;
  approvals = refl;
  decisions = refl;
  tasks = refl;
}

pub audit_agent-Tables :
    (call : ControlCall) (r : AuditReadings) (agent : ℕ) (action resource_type outcome : String)
    (tenant project id : ℕ) (metadata : Fields) (s : ControlDb)
    → Tables (audit_agent call r agent action resource_type outcome tenant project id metadata s) s
unfolding audit_agent
audit_agent-Tables call r agent action resource_type outcome tenant project id metadata s = record {
  jobs = refl;
  approvals = refl;
  decisions = refl;
  tasks = refl;
}

pub update_asset_agent_state-Tables :
    (now tenant id : ℕ) (agent_status : String) (hostname : Option String) (s s' : ControlDb)
    → update_asset_agent_state now tenant id agent_status hostname s ≡ ok s'
    → Tables s' s
unfolding update_asset_agent_state
update_asset_agent_state-Tables now tenant id agent_status hostname s s' h =
    let (asset, found, written) = >>=-eq-ok (get_asset_for_scope tenant id s) _ h in
    record { jobs = cc; approvals = cc; decisions = cc; tasks = cc }
