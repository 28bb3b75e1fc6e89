-- ===== src/Agents/Soundness.antt =====
-- `create_task`, `next_task`, `submit_task_result` and `disable_agent` of
-- apps/api/src/aiops_x_api/modules/agent_control/api.py keep the invariant of the tables.
use aiops_x_enterprise_new.Prelude.{
  ℕ, String, ◌≡◌, refl, sym, ap, ◌∙◌, true, false, none, some, List, arith, subst,
}
use aiops_x_enterprise_new.Core.Errors.{ok, >>=-eq-ok}
use aiops_x_enterprise_new.Core.Json.{Fields}
use aiops_x_enterprise_new.Core.Table.{find_row, key-find}
use aiops_x_enterprise_new.Identity.Principal.{Principal}
use aiops_x_enterprise_new.Automation.Models.{AutomationJob, JobStatus, ApprovalRequest}
use aiops_x_enterprise_new.Agents.Models.{TaskStatus, AgentTask, AgentTaskCreate, EdgeAgent}
use aiops_x_enterprise_new.Agents.Database.{ControlDb, ControlCall, put_job, put_task}
use aiops_x_enterprise_new.Agents.Tables.{Tables, returned_state, audit_user-Tables}
use aiops_x_enterprise_new.Automation.Jobs.{insert_task}
use aiops_x_enterprise_new.Automation.Requests.{approval_required}
use aiops_x_enterprise_new.Automation.Outcomes.{insert_task-ok}
use aiops_x_enterprise_new.Automation.Ties.{
  job_key, task_key, IsTied, IsBacked, mirrors, is_awaiting, is_job_granted,
}
use aiops_x_enterprise_new.Automation.Invariant.{
  IsGated, IsFree, is_released, IsSoundControl, Tables-IsSoundControl, not_taken,
}
use aiops_x_enterprise_new.Automation.Writes.{task_added, task_moved, pair_moved}
use aiops_x_enterprise_new.Agents.Tasks.{new_task, add_task}

inserted-IsSound :
    (t : AgentTask) (s s' : ControlDb)
    → IsTied s.jobs t
    → IsFree t
    → insert_task t s ≡ ok s'
    → IsSoundControl s
    → IsSoundControl s'
inserted-IsSound t s s' tied free h sound =
    let w = insert_task-ok t s s' h in
    rw (w.jobs, w.approvals, w.decisions, w.tasks)
      (task_added sound t tied free (λ k own. not_taken k s.tasks (w.alone k own)))

pub add_task-IsSound :
    (call : ControlCall) (p : Principal) (key : String) (agent : EdgeAgent) (b : AgentTaskCreate)
    (parameters : Fields) (s s' : ControlDb) (t : AgentTask)
    → add_task call p key agent b parameters s ≡ ok (t, s')
    → IsSoundControl s
    → IsSoundControl s'
unfolding add_task new_task
add_task-IsSound call p key agent b parameters s s' t h sound =
    let new = new_task call p key agent b parameters in
    let (done, written, returned) = >>=-eq-ok (insert_task new s) _ h in
    let kept : IsSoundControl done =
      inserted-IsSound new s done (λ k own. cc) (λ alone. refl) written sound in
    Tables-IsSoundControl
      (subst (λ x. Tables x done) (returned_state returned)
        (audit_user-Tables call p _ _ _ _ _ done))
      kept

-- What a task's progress leaves of its job.
pub record KeepsJob (j' j : AutomationJob) : Type 0 where
  pub id : j'.id ≡ j.id
  pub requested_by : j'.requested_by ≡ j.requested_by
  pub risk_level : j'.risk_level ≡ j.risk_level
  pub approval_status : j'.approval_status ≡ j.approval_status

pub mirrors-released :
    (t : TaskStatus) (j : JobStatus)
    → mirrors t j ≡ true
    → (is_released j ≡ true) × (is_awaiting j ≡ false)
mirrors-released t j h = (ground (arith, h), ground (arith, h))

kept-IsGated :
    (j' j : AutomationJob) → KeepsJob j' j → is_released j.status ≡ true → IsGated j → IsGated j'
kept-IsGated j' j k released gate = (
  λ needs. rw k.approval_status (gate.0 (sym (ap approval_required k.risk_level) ∙ needs)),
  λ free. rw k.approval_status (gate.1 released),
)

kept-IsBacked :
    (approvals : List ApprovalRequest) (j' j : AutomationJob)
    → KeepsJob j' j
    → IsBacked approvals j
    → IsBacked approvals j'
kept-IsBacked approvals j' j k h granted =
    let (i, a, found, of_job, given_) = h (sym (ap is_job_granted k.approval_status) ∙ granted) in
    (i, a, found, of_job ∙ sym k.id, given_)

-- What a task's progress leaves of the task.
pub record KeepsTask (t' t : AgentTask) : Type 0 where
  pub id : t'.id ≡ t.id
  pub automation_job_id : t'.automation_job_id ≡ t.automation_job_id
  pub risk_level : t'.risk_level ≡ t.risk_level

pub lone_moved :
    (new old : AgentTask) (s : ControlDb)
    → find_row task_key old.id s.tasks ≡ some old
    → KeepsTask new old
    → old.automation_job_id ≡ none
    → IsSoundControl s
    → IsSoundControl (put_task new s)
lone_moved new old s there k alone sound =
    task_moved sound new old (ap (λ n. find_row task_key n s.tasks) k.id ∙ there)
      k.automation_job_id (k.automation_job_id ∙ alone)
      (λ e. k.risk_level ∙ sound.free old.id old there alone)

-- A task and its job are written over, from corresponding states to such.
pub together_moved :
    (new old : AgentTask) (job was : AutomationJob) (k : ℕ) (s : ControlDb)
    → find_row task_key old.id s.tasks ≡ some old
    → KeepsTask new old
    → old.automation_job_id ≡ some k
    → find_row job_key k s.jobs ≡ some was
    → KeepsJob job was
    → mirrors new.status job.status ≡ true
    → IsSoundControl s
    → IsSoundControl (put_job job (put_task new s))
together_moved new old job was k s there kt own linked kj state sound =
    let key : was.id ≡ k = key-find job_key k s.jobs linked in
    let (j, linked', mirrored, level) = sound.tied old.id old there k own in
    let eq : some was ≡ some j = sym linked ∙ linked' in
    let twin : j ≡ was = cc in
    let before : mirrors old.status was.status ≡ true =
      sym (ap (λ (x : AutomationJob). mirrors old.status x.status) twin) ∙ mirrored in
    let (released, busy) = mirrors-released old.status was.status before in
    pair_moved sound new old job was (ap (λ n. find_row task_key n s.tasks) kt.id ∙ there)
      kt.automation_job_id (kt.automation_job_id ∙ own ∙ ap some (sym key ∙ sym kj.id))
      (ap (λ n. find_row job_key n s.jobs) (kj.id ∙ key) ∙ linked) busy kj.requested_by
      kj.risk_level (kept-IsGated job was kj released (sound.gated k was linked))
      (kept-IsBacked s.approvals job was kj (sound.backed k was linked)) state
      (kt.risk_level ∙ level ∙ ap (λ (x : AutomationJob). x.risk_level) twin ∙ sym kj.risk_level)
