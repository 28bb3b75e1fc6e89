-- ===== src/Change/Execution.antt =====
-- apps/api/src/aiops_x_api/modules/change/api.py: `change_status`.
use Prim.Native.String.{◌++◌}
use aiops_x_enterprise_new.Prelude.{
  ℕ, Bool, true, false, not, ◌&&◌, Option, none, some, ◌∷◌, leb, if◌then◌else◌,
}
use aiops_x_enterprise_new.Core.Errors.{Result, ok, err, app_error, ◌>>=◌, ◌>>◌}
use aiops_x_enterprise_new.Core.Json.{Json, text, null, end, field}
use aiops_x_enterprise_new.Core.Runtime.{Runtime}
use aiops_x_enterprise_new.Identity.Scope.{require_permission, ensure_project_scope}
use aiops_x_enterprise_new.References.{Directory, require_automation_job_ref}
use aiops_x_enterprise_new.Change.Models.{ChangeRequest, ChangeStatusUpdate, TargetStatus, ChangeDb}
use aiops_x_enterprise_new.Change.Policy.{
  validate_status_transition, controlled, given, status_text, to_status, text_given,
  require_failure_context,
}
use aiops_x_enterprise_new.Change.Effects.{
  Call, get_change_in_scope, put_change, timeline_entry, audit_change, commit,
}

abbrev pub in_window : Option ℕ → Option ℕ → ℕ → Bool
in_window (some start) (some finish) now = leb start now && leb now finish
in_window _ _ now = false

-- What a controlled change needs before it is carried out.
unfoldable pub check_start : ℕ → ChangeRequest → Result (Unit {0})
check_start now c =
    if not (controlled c.risk_level c.gxp_impact)
    then ok tt
    else if not (given c.approved_at)
    then err (app_error "AIOPS_8216" 409)
    else if not (given c.scheduled_start && given c.scheduled_end)
    then err (app_error "AIOPS_8217" 409)
    else if not (in_window c.scheduled_start c.scheduled_end now)
    then err (app_error "AIOPS_8218" 409)
    else ok tt

abbrev pub is_start : TargetStatus → Bool
is_start TargetStatus.in_progress = true
is_start _ = false

abbrev pub is_end : TargetStatus → Bool
is_end TargetStatus.completed = true
is_end TargetStatus.failed = true
is_end TargetStatus.rolled_back = true
is_end _ = false

abbrev or_old : Option ℕ → Option ℕ → Option ℕ
or_old none old = old
or_old (some a) old = some a

-- The fields that a status update sets.
unfoldable pub moved : ℕ → ChangeStatusUpdate → ChangeRequest → ChangeRequest
moved now u c = record c {
  started_at = if is_start u.status then some now else c.started_at;
  completed_at = if is_end u.status then some now else c.completed_at;
  status = to_status u.status;
  failure_reason = u.failure_reason;
  automation_job_id = or_old u.automation_job_id c.automation_job_id;
}

abbrev uuid_or_null : Runtime → Option ℕ → Json
uuid_or_null rt none = null
uuid_or_null rt (some u) = text (rt.uuid_text u)

unfoldable pub status_tx :
    Call → Directory → ℕ → ChangeStatusUpdate → ChangeDb → Result (ChangeRequest × ChangeDb)
unfolding moved
status_tx call dir id u s = do
  let caller = call.principal
  let now = call.readings.now
  needed ← require_permission "change:execute" caller
  require_failure_context u
  change ← get_change_in_scope caller.tenant_id id s
  ensure_project_scope caller needed change.project_id
  require_automation_job_ref dir caller.tenant_id change.project_id u.automation_job_id
  validate_status_transition change.status (to_status u.status)
  (if is_start u.status then check_start now change else ok tt)
  let changed = moved now u change
  ok (
    changed,
    audit_change call "change.status.updated" changed
        (field "status" (text (status_text changed.status))
          (field "failure_reason_present" (Json.boolean (text_given changed.failure_reason)) end))
        (record s {
          changes = put_change changed s.changes;
          timeline =
              timeline_entry call.readings changed caller.user_id changed.status
                ("变更状态更新为 " ++ status_text changed.status)
                (field "automation_job_id" (uuid_or_null call.runtime changed.automation_job_id)
                  end)
              ∷ s.timeline;
        }),
  )

unfoldable pub change_status :
    Call → Directory → ℕ → ChangeStatusUpdate → ChangeDb → Result ChangeRequest × ChangeDb
unfolding status_tx commit
change_status call dir id u s = commit (status_tx call dir id u s) s
