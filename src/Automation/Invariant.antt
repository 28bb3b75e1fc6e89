-- ===== src/Automation/Invariant.antt =====
-- The invariant of the tables of jobs, approvals, decisions and tasks, which the handlers of
-- apps/api/src/aiops_x_api/modules/automation and agent_control keep.
use aiops_x_enterprise_new.Prelude.{
  ℕ, ==_refl, ◌≡◌, sym, ap, ◌∙◌, Bool, true, false, none, some, List, [], ◌∷◌, arith, inl, inr,
  some_of, All, ◌≢◌,
}
use aiops_x_enterprise_new.Core.Table.{find_row, put_row, Every, find-put_kept, find-new_cases}
use aiops_x_enterprise_new.Automation.Models.{
  JobStatus, JobApproval, AutomationJob, ApprovalRequest, ApprovalDecision,
}
use aiops_x_enterprise_new.Change.Models.{RiskLevel}
use aiops_x_enterprise_new.Agents.Models.{AgentTask}
use aiops_x_enterprise_new.Agents.Database.{ControlDb}
use aiops_x_enterprise_new.Agents.Tables.{Tables}
use aiops_x_enterprise_new.Automation.Jobs.{is_job_task}
use aiops_x_enterprise_new.Automation.Requests.{approval_required}
use aiops_x_enterprise_new.Automation.Approvals.{has_voted}
use aiops_x_enterprise_new.Automation.Ties.{
  job_key, approval_key, task_key, IsTied, IsAsked, IsBacked, IsOutside, IsCounted,
}

-- The states of a job that may run, runs or has run, and of one that was withdrawn meanwhile.
abbrev pub is_released : JobStatus → Bool
is_released JobStatus.awaiting_approval = false
is_released JobStatus.rejected = false
is_released _ = true

abbrev pub is_waived : JobApproval → Bool
is_waived JobApproval.not_required = true
is_waived _ = false

abbrev pub is_open : JobApproval → Bool
is_open JobApproval.not_required = true
is_open JobApproval.approved = true
is_open _ = false

-- A job of risk R2 or more is not exempt from approval, and no job is released without.
abbrev pub IsGated : AutomationJob → Type 0
IsGated j =
    (approval_required j.risk_level ≡ true → is_waived j.approval_status ≡ false)
    × (is_released j.status ≡ true → is_open j.approval_status ≡ true)

-- A task without a job is of the lowest risk.
abbrev pub IsFree : AgentTask → Type 0
IsFree t = t.automation_job_id ≡ none → t.risk_level ≡ RiskLevel.r0

-- Nobody has decided on one approval twice.
abbrev pub OneVoteEach : List ApprovalDecision → Type 0
OneVoteEach [] = Unit
OneVoteEach (d ∷ ds) = (has_voted d.approval_request_id d.approver_id ds ≡ false) × OneVoteEach ds

-- No job has two approvals, and none has two tasks.
abbrev pub OneApproval : List ApprovalRequest → Type 0
OneApproval approvals =
    (i j : ℕ) (a b : ApprovalRequest)
    → find_row approval_key i approvals ≡ some a
    → find_row approval_key j approvals ≡ some b
    → a.job_id ≡ b.job_id
    → i ≡ j

abbrev pub OneTask : List AgentTask → Type 0
OneTask tasks =
    (i j k : ℕ) (t u : AgentTask)
    → find_row task_key i tasks ≡ some t
    → find_row task_key j tasks ≡ some u
    → t.automation_job_id ≡ some k
    → u.automation_job_id ≡ some k
    → i ≡ j

pub record IsSoundTables (jobs : List AutomationJob) (approvals : List ApprovalRequest)
    (decisions : List ApprovalDecision) (tasks : List AgentTask) : Type 0 where
  pub gated : Every job_key IsGated jobs
  pub backed : Every job_key (IsBacked approvals) jobs
  pub asked : Every approval_key (IsAsked jobs) approvals
  pub counted : Every approval_key (IsCounted decisions) approvals
  pub outside : All (IsOutside approvals) decisions
  pub one_each : OneVoteEach decisions
  pub one_approval : OneApproval approvals
  pub tied : Every task_key (IsTied jobs) tasks
  pub free : Every task_key IsFree tasks
  pub one_task : OneTask tasks

abbrev pub IsSoundControl : ControlDb → Type 0
IsSoundControl s = IsSoundTables s.jobs s.approvals s.decisions s.tasks

pub Tables-IsSoundControl : {s s' : ControlDb} → Tables s' s → IsSoundControl s → IsSoundControl s'
Tables-IsSoundControl e h = rw (e.jobs, e.approvals, e.decisions, e.tasks) h

pub OneApproval-new :
    (new : ApprovalRequest) (approvals : List ApprovalRequest)
    → Every approval_key (λ a. a.job_id ≢ new.job_id) approvals
    → OneApproval approvals
    → OneApproval (new ∷ approvals)
OneApproval-new new approvals alone h i j a b e f same =
    elim (find-new_cases approval_key i new approvals e) [
      | inl (ei, ea) ↦ elim (find-new_cases approval_key j new approvals f) [
        | inl (ej, eb) ↦ ei ∙ sym ej
        | inr (nj, fb) ↦
            absurd (alone j b fb (sym same ∙ ap (λ (x : ApprovalRequest). x.job_id) ea))
      ]
      | inr (ni, fa) ↦ elim (find-new_cases approval_key j new approvals f) [
        | inl (ej, eb) ↦ absurd (alone i a fa (same ∙ ap (λ (x : ApprovalRequest). x.job_id) eb))
        | inr (nj, fb) ↦ h i j a b fa fb same
      ]
    ]

-- A row that is written over keeps its job.
pub OneApproval-put :
    (new : ApprovalRequest) (approvals : List ApprovalRequest) {old : ApprovalRequest}
    → find_row approval_key new.id approvals ≡ some old
    → new.job_id ≡ old.job_id
    → OneApproval approvals
    → OneApproval (put_row approval_key new approvals)
OneApproval-put new approvals {old} there keeps h i j a b e f same =
    let was =
      find-put_kept approval_key (λ (x : ApprovalRequest). x.job_id) new approvals there keeps in
    let (a', fa, ka) = was i a e in
    let (b', fb, kb) = was j b f in h i j a' b' fa fb (ka ∙ same ∙ sym kb)

-- No task of the table is of the job.
pub not_taken :
    (k : ℕ) (tasks : List AgentTask)
    → some_of (is_job_task k) tasks ≡ false
    → Every task_key (λ t. t.automation_job_id ≢ some k) tasks
not_taken k [] h i t e = cc
not_taken k (x ∷ xs) h i t e = elim (find-new_cases task_key i x xs e) [
  | inl (same, here) ↦ λ g.
      let own : x.automation_job_id ≡ some k =
        sym (ap (λ (y : AgentTask). y.automation_job_id) here) ∙ g in
      let taken : is_job_task k x ≡ true = rw own (==_refl k) in ground (arith, h, taken)
  | inr (other, there) ↦ not_taken k xs (ground (arith, h)) i t there
]

pub OneTask-new :
    (new : AgentTask) (tasks : List AgentTask)
    → ((k : ℕ)
        → new.automation_job_id ≡ some k
        → Every task_key (λ t. t.automation_job_id ≢ some k) tasks)
    → OneTask tasks
    → OneTask (new ∷ tasks)
OneTask-new new tasks alone h i j k t u e f et eu = elim (find-new_cases task_key i new tasks e) [
  | inl (ei, at) ↦ elim (find-new_cases task_key j new tasks f) [
    | inl (ej, bt) ↦ ei ∙ sym ej
    | inr (nj, fb) ↦
        absurd (alone k (sym (ap (λ (x : AgentTask). x.automation_job_id) at) ∙ et) j u fb eu)
  ]
  | inr (ni, fa) ↦ elim (find-new_cases task_key j new tasks f) [
    | inl (ej, bt) ↦
        absurd (alone k (sym (ap (λ (x : AgentTask). x.automation_job_id) bt) ∙ eu) i t fa et)
    | inr (nj, fb) ↦ h i j k t u fa fb et eu
  ]
]

pub OneTask-put :
    (new : AgentTask) (tasks : List AgentTask) {old : AgentTask}
    → find_row task_key new.id tasks ≡ some old
    → new.automation_job_id ≡ old.automation_job_id
    → OneTask tasks
    → OneTask (put_row task_key new tasks)
OneTask-put new tasks {old} there keeps h i j k t u e f et eu =
    let was =
      find-put_kept task_key (λ (x : AgentTask). x.automation_job_id) new tasks there keeps in
    let (t', ft, kt) = was i t e in
    let (u', fu, ku) = was j u f in h i j k t' u' ft fu (kt ∙ et) (ku ∙ eu)
