-- ===== src/Change/Policy.antt =====
-- apps/api/src/aiops_x_api/modules/change/application.py: the states of a change, how many
-- approvals it needs, and its number; the checks of schemas.py on a request body.
use Prim.Native.String.{String, ◌++◌}
use aiops_x_enterprise_new.Prelude.{
  ℕ, ◌==◌, Bool, true, false, not, ◌&&◌, ◌||◌, Option, none, some, List, [], ◌∷◌, leb, some_of,
  if◌then◌else◌, str_eq,
}
use aiops_x_enterprise_new.Core.Errors.{Result, ok, err, app_error, guard}
use aiops_x_enterprise_new.Core.Runtime.{Runtime}
pub use aiops_x_enterprise_new.Core.Patch.{given, filled}
use aiops_x_enterprise_new.Change.Models.{
  RiskLevel, r0, r1, r2, r3, r4, ChangeStatus, ChangeCreate, ChangeStatusUpdate, TargetStatus,
}

abbrev pub status_no : ChangeStatus → ℕ
status_no ChangeStatus.draft = 0
status_no ChangeStatus.pending_approval = 1
status_no ChangeStatus.approved = 2
status_no ChangeStatus.scheduled = 3
status_no ChangeStatus.in_progress = 4
status_no ChangeStatus.validating = 5
status_no ChangeStatus.completed = 6
status_no ChangeStatus.failed = 7
status_no ChangeStatus.rolled_back = 8
status_no ChangeStatus.rejected = 9
status_no ChangeStatus.cancelled = 10

abbrev pub same_status : ChangeStatus → ChangeStatus → Bool
same_status a b = status_no a == status_no b

-- `ALLOWED_STATUS_TRANSITIONS`.
unfoldable pub allowed_targets : ChangeStatus → List ChangeStatus
allowed_targets ChangeStatus.draft =
    ChangeStatus.pending_approval ∷ ChangeStatus.approved ∷ ChangeStatus.cancelled ∷ []
allowed_targets ChangeStatus.pending_approval =
    ChangeStatus.approved ∷ ChangeStatus.rejected ∷ ChangeStatus.cancelled ∷ []
allowed_targets ChangeStatus.approved =
    ChangeStatus.scheduled ∷ ChangeStatus.in_progress ∷ ChangeStatus.cancelled ∷ []
allowed_targets ChangeStatus.scheduled = ChangeStatus.in_progress ∷ ChangeStatus.cancelled ∷ []
allowed_targets ChangeStatus.in_progress =
    ChangeStatus.validating ∷ ChangeStatus.failed ∷ ChangeStatus.rolled_back ∷ []
allowed_targets ChangeStatus.validating =
    ChangeStatus.completed ∷ ChangeStatus.failed ∷ ChangeStatus.rolled_back ∷ []
allowed_targets ChangeStatus.failed = ChangeStatus.rolled_back ∷ []
allowed_targets ChangeStatus.completed = []
allowed_targets ChangeStatus.rolled_back = []
allowed_targets ChangeStatus.rejected = []
allowed_targets ChangeStatus.cancelled = []

unfoldable pub validate_status_transition : ChangeStatus → ChangeStatus → Result (Unit {0})
unfolding allowed_targets
validate_status_transition current target =
    if same_status current target
    then ok tt
    else if not (some_of (λ s. same_status s target) (allowed_targets current))
    then err (app_error "AIOPS_8209" 409)
    else ok tt

abbrev pub is_r0_r1 : RiskLevel → Bool
is_r0_r1 r0 = true
is_r0_r1 r1 = true
is_r0_r1 _ = false

abbrev pub is_r2_r3 : RiskLevel → Bool
is_r2_r3 r2 = true
is_r2_r3 r3 = true
is_r2_r3 _ = false

abbrev pub is_r3 : RiskLevel → Bool
is_r3 r3 = true
is_r3 _ = false

abbrev pub is_r4 : RiskLevel → Bool
is_r4 r4 = true
is_r4 _ = false

unfoldable pub required_approval_count : RiskLevel → Bool → ℕ
required_approval_count risk gxp =
    if is_r0_r1 risk && not gxp then 0 else if is_r3 risk || gxp then 2 else 1

-- The change is subject to plans, approval and a maintenance window.
abbrev pub controlled : RiskLevel → Bool → Bool
controlled risk gxp = is_r2_r3 risk || gxp

unfoldable pub human_change_number : Runtime → ℕ → ℕ → String
human_change_number rt at id = "CHG-" ++ rt.date_text at ++ "-" ++ rt.uuid_short id

-- `start and end and end <= start`.
abbrev pub window_is_empty : Option ℕ → Option ℕ → Bool
window_is_empty (some start) (some finish) = leb finish start
window_is_empty _ _ = false

abbrev pub text_given : Option String → Bool
text_given none = false
text_given (some s) = not (str_eq s "")

-- `ChangeCreate.enforce_risk_controls`; a body that fails is answered with 422.
unfoldable pub enforce_risk_controls : ChangeCreate → Result (Unit {0})
enforce_risk_controls c =
    let invalid = err (app_error "RequestValidationError" 422) in
    if is_r4 c.risk_level
    then invalid
    else if window_is_empty c.scheduled_start c.scheduled_end
    then invalid
    else if controlled c.risk_level c.gxp_impact
        && (not (filled (some c.precheck_plan))
            || (not (filled (some c.validation_plan)) || not (filled (some c.rollback_plan))))
    then invalid
    else if is_r3 c.risk_level && not (text_given c.configuration_backup_ref)
    then invalid
    else ok tt

abbrev is_failure : TargetStatus → Bool
is_failure TargetStatus.failed = true
is_failure TargetStatus.rolled_back = true
is_failure _ = false

-- `ChangeStatusUpdate.require_failure_context`.
unfoldable pub require_failure_context : ChangeStatusUpdate → Result (Unit {0})
require_failure_context u =
    guard (not (is_failure u.status && not (text_given u.failure_reason)))
      (app_error "RequestValidationError" 422)

abbrev pub to_status : TargetStatus → ChangeStatus
to_status TargetStatus.scheduled = ChangeStatus.scheduled
to_status TargetStatus.in_progress = ChangeStatus.in_progress
to_status TargetStatus.validating = ChangeStatus.validating
to_status TargetStatus.completed = ChangeStatus.completed
to_status TargetStatus.failed = ChangeStatus.failed
to_status TargetStatus.rolled_back = ChangeStatus.rolled_back
to_status TargetStatus.cancelled = ChangeStatus.cancelled

-- The value that is stored in `status`.
abbrev pub status_text : ChangeStatus → String
status_text ChangeStatus.draft = "draft"
status_text ChangeStatus.pending_approval = "pending_approval"
status_text ChangeStatus.approved = "approved"
status_text ChangeStatus.scheduled = "scheduled"
status_text ChangeStatus.in_progress = "in_progress"
status_text ChangeStatus.validating = "validating"
status_text ChangeStatus.failed = "failed"
status_text ChangeStatus.completed = "completed"
status_text ChangeStatus.rolled_back = "rolled_back"
status_text ChangeStatus.rejected = "rejected"
status_text ChangeStatus.cancelled = "cancelled"

abbrev pub risk_text : RiskLevel → String
risk_text r0 = "R0"
risk_text r1 = "R1"
risk_text r2 = "R2"
risk_text r3 = "R3"
risk_text r4 = "R4"
