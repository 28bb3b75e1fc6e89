-- ===== src/Change/Evolution.antt =====
-- How each handler of apps/api/src/aiops_x_api/modules/change/api.py may change a row.
use Prim.Native.String.{String}
use aiops_x_enterprise_new.Prelude.{ℕ, ◌≡◌, refl, sym, ◌∙◌, true, false, List, arith, false≢true}
use aiops_x_enterprise_new.Core.Errors.{ok}
use aiops_x_enterprise_new.Change.Models.{
  ChangeStatus, ChangeRequest, ChangeApprovalDecision, ChangeUpdate, ChangeStatusUpdate, Decision,
}
use aiops_x_enterprise_new.Change.Policy.{same_status, validate_status_transition, to_status}
use aiops_x_enterprise_new.Change.Draft.{patched_change}
use aiops_x_enterprise_new.Change.Approval.{submitted, submit_target, decided}
use aiops_x_enterprise_new.Change.Execution.{moved}

-- What was submitted stays as it was, and the state moves along the transition table.
pub record Evolves (c c' : ChangeRequest) : Type 0 where
  pub id : c'.id ≡ c.id
  pub number : c'.change_number ≡ c.change_number
  pub tenant : c'.tenant_id ≡ c.tenant_id
  pub project : c'.project_id ≡ c.project_id
  pub requester : c'.requested_by ≡ c.requested_by
  pub risk : c'.risk_level ≡ c.risk_level
  pub gxp : c'.gxp_impact ≡ c.gxp_impact
  pub approvals : c'.required_approvals ≡ c.required_approvals
  pub status : validate_status_transition c.status c'.status ≡ ok tt
  pub frozen :
      same_status c.status ChangeStatus.draft ≡ false
      → (c'.implementation_plan ≡ c.implementation_plan)
        × (c'.precheck_plan ≡ c.precheck_plan)
        × (c'.validation_plan ≡ c.validation_plan)
        × (c'.success_criteria ≡ c.success_criteria)
        × (c'.rollback_plan ≡ c.rollback_plan)
        × (c'.affected_asset_ids ≡ c.affected_asset_ids)
        × (c'.scheduled_start ≡ c.scheduled_start)
        × (c'.scheduled_end ≡ c.scheduled_end)
        × (c'.configuration_backup_ref ≡ c.configuration_backup_ref)

stays : (x : ChangeStatus) → validate_status_transition x x ≡ ok tt
unfolding validate_status_transition
stays x = ground arith

pub unchanged-Evolves : (c : ChangeRequest) → Evolves c c
unchanged-Evolves c = record {
  id = refl;
  number = refl;
  tenant = refl;
  project = refl;
  requester = refl;
  risk = refl;
  gxp = refl;
  approvals = refl;
  status = stays c.status;
  frozen = λ later. (refl, refl, refl, refl, refl, refl, refl, refl, refl);
}

pub patched-Evolves :
    (u : ChangeUpdate) (title description : String) (c : ChangeRequest)
    → same_status c.status ChangeStatus.draft ≡ true
    → Evolves c (patched_change u title description c)
unfolding patched_change
patched-Evolves u title description c d = record {
  id = refl;
  number = refl;
  tenant = refl;
  project = refl;
  requester = refl;
  risk = refl;
  gxp = refl;
  approvals = refl;
  status = stays c.status;
  frozen = λ later. absurd (false≢true (sym later ∙ d));
}

pub submitted-Evolves :
    (now : ℕ) (c : ChangeRequest)
    → validate_status_transition c.status (submit_target c) ≡ ok tt
    → Evolves c (submitted now c)
unfolding submitted
submitted-Evolves now c v = record {
  id = refl;
  number = refl;
  tenant = refl;
  project = refl;
  requester = refl;
  risk = refl;
  gxp = refl;
  approvals = refl;
  status = v;
  frozen = λ later. (refl, refl, refl, refl, refl, refl, refl, refl, refl);
}

pub decided-Evolves :
    (now : ℕ) (d : Decision) (ds : List ChangeApprovalDecision) (c : ChangeRequest)
    → same_status c.status ChangeStatus.pending_approval ≡ true
    → Evolves c (decided now d ds c)
unfolding decided validate_status_transition
decided-Evolves now d ds c p = ground (arith, stays c.status)

pub moved-Evolves :
    (now : ℕ) (u : ChangeStatusUpdate) (c : ChangeRequest)
    → validate_status_transition c.status (to_status u.status) ≡ ok tt
    → Evolves c (moved now u c)
unfolding moved
moved-Evolves now u c v = record {
  id = refl;
  number = refl;
  tenant = refl;
  project = refl;
  requester = refl;
  risk = refl;
  gxp = refl;
  approvals = refl;
  status = v;
  frozen = λ later. (refl, refl, refl, refl, refl, refl, refl, refl, refl);
}
