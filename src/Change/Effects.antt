-- ===== src/Change/Effects.antt =====
-- What the handlers of apps/api/src/aiops_x_api/modules/change/api.py share: the lookup of a
-- change,
-- its timeline, the audit entry, and the end of the transaction.
use Prim.Native.String.{String}
use aiops_x_enterprise_new.Prelude.{
  ℕ, ◌+◌, ◌==◌, Bool, true, false, ◌&&◌, Option, none, some, List, [], ◌∷◌, some_of, if◌then◌else◌,
}
use aiops_x_enterprise_new.Core.Errors.{Result, ok, err, app_error, required}
use aiops_x_enterprise_new.Core.Json.{Fields}
use aiops_x_enterprise_new.Core.Runtime.{Runtime}
use aiops_x_enterprise_new.Identity.Principal.{Principal}
use aiops_x_enterprise_new.Audit.Append.{RequestState, AuditReadings, append_audit}
use aiops_x_enterprise_new.Change.Models.{
  ChangeStatus, ChangeRequest, ChangeTimelineEntry, ChangeApprovalDecision, Decision, ChangeDb,
}
use aiops_x_enterprise_new.Change.Policy.{given}

-- What one request reads from the clock and from `uuid4()`.
pub record Readings : Type 0 where
  pub now : ℕ
  pub change_id : ℕ
  pub number_at : ℕ
  pub number_id : ℕ
  pub decision_id : ℕ
  pub decided_at : ℕ
  pub timeline_id : ℕ
  pub timeline_at : ℕ
  pub audit : AuditReadings

-- Who calls, with what request, and what is read meanwhile.
pub record Call : Type 0 where
  pub runtime : Runtime
  pub principal : Principal
  pub request : RequestState
  pub readings : Readings

abbrev pub find_change : ℕ → ℕ → List ChangeRequest → Option ChangeRequest
find_change tenant id [] = none
find_change tenant id (c ∷ rest) =
    let found = find_change tenant id rest in
    if c.id == id && c.tenant_id == tenant then some c else found

unfoldable pub get_change_in_scope : ℕ → ℕ → ChangeDb → Result ChangeRequest
get_change_in_scope tenant id s =
    required (find_change tenant id s.changes) (app_error "AIOPS_8204" 404)

-- The row of a changed object is written back.
unfoldable pub put_change : ChangeRequest → List ChangeRequest → List ChangeRequest
put_change c [] = []
put_change c (x ∷ rest) = (if x.id == c.id then c else x) ∷ put_change c rest

abbrev pub has_change : ℕ → List ChangeRequest → Bool
has_change id changes = some_of (λ (c : ChangeRequest). c.id == id) changes

abbrev pub has_decided : ℕ → ℕ → List ChangeApprovalDecision → Bool
has_decided change approver decisions =
    some_of (λ (d : ChangeApprovalDecision). d.change_id == change && d.approver_id == approver)
      decisions

abbrev pub is_approval : Decision → Bool
is_approval Decision.approved = true
is_approval Decision.rejected = false

-- `select(func.count()).where(change_id == …, decision == "approved")`.
abbrev pub approved_count : ℕ → List ChangeApprovalDecision → ℕ
approved_count change [] = 0
approved_count change (d ∷ rest) =
    let n = approved_count change rest in
    if d.change_id == change && is_approval d.decision then n + 1 else n

-- `_append_timeline`: the entry is added to the session of the change.
unfoldable pub timeline_entry :
    Readings → ChangeRequest → ℕ → ChangeStatus → String → Fields → ChangeTimelineEntry
timeline_entry now c actor status title details = record {
  id = now.timeline_id;
  change_id = c.id;
  tenant_id = c.tenant_id;
  occurred_at = now.timeline_at;
  status = status;
  title = title;
  details = details;
  created_by = actor;
}

-- The `append_audit` call of a handler.
unfoldable pub audit_change : Call → String → ChangeRequest → Fields → ChangeDb → ChangeDb
audit_change call action c metadata s = record s {
  audit =
      append_audit call.runtime call.readings.audit call.request
        (record {
          action = action;
          resource_type = "change";
          outcome = "success";
          principal = some call.principal;
          actor_id = none;
          actor_type = none;
          tenant_id = none;
          project_id = some c.project_id;
          resource_id = some (call.runtime.uuid_text c.id);
          metadata = metadata;
          producer = "aiops-x-api";
        })
        s.audit;
}

-- `ChangeResponse.model_validate(change)`: a list or an object that is `null` does not validate.
unfoldable pub validate_response : ChangeRequest → Result ChangeRequest
validate_response c =
    if given c.affected_asset_ids
      && (given c.incident_ids
          && (given c.evidence_ids
              && (given c.implementation_plan
                  && (given c.precheck_plan
                      && (given c.validation_plan
                          && (given c.success_criteria
                              && (given c.rollback_plan && given c.impact_analysis)))))))
    then ok c
    else err (app_error "ResponseValidationError" 500)

-- `async with session.begin()`: an error rolls everything back, otherwise the writes are kept. The
-- response is built after the commit.
unfoldable pub commit :
    Result (ChangeRequest × ChangeDb) → ChangeDb → Result ChangeRequest × ChangeDb
unfolding validate_response
commit (err e) s = (err e, s)
commit (ok (c, s')) s = (validate_response c, s')
