-- ===== src/Automation/Ties.antt =====
-- How the rows of jobs, approvals, decisions and tasks refer to each other
-- (apps/api/src/aiops_x_api/modules/automation and agent_control), and what a write of one row
-- leaves of it.
use aiops_x_enterprise_new.Prelude.{
  ℕ, ◌≤◌, ◌==◌, ==_iff, ◌≡◌, sym, ap, ◌∙◌, Bool, true, false, some, List, ◌∷◌, arith, inl, inr,
  Bool-cases, false≢true,
}
use aiops_x_enterprise_new.Core.Patch.{given}
use aiops_x_enterprise_new.Core.Table.{
  find_row, put_row, find-put_other, find-put_same, find-new_old,
}
use aiops_x_enterprise_new.Change.Models.{RiskLevel}
use aiops_x_enterprise_new.Automation.Models.{
  JobStatus, JobApproval, ApprovalStatus, AutomationJob, ApprovalRequest, ApprovalDecision,
}
use aiops_x_enterprise_new.Agents.Models.{TaskStatus, AgentTask}
use aiops_x_enterprise_new.Automation.Approvals.{is_pending, approvals_given}

abbrev pub job_key : AutomationJob → ℕ
job_key x = x.id

abbrev pub approval_key : ApprovalRequest → ℕ
approval_key x = x.id

abbrev pub task_key : AgentTask → ℕ
task_key x = x.id

-- A task and its job are in corresponding states.
abbrev pub mirrors : TaskStatus → JobStatus → Bool
mirrors TaskStatus.queued JobStatus.queued = true
mirrors TaskStatus.running JobStatus.running = true
mirrors TaskStatus.succeeded JobStatus.succeeded = true
mirrors TaskStatus.failed JobStatus.failed = true
mirrors TaskStatus.canceled JobStatus.canceled = true
mirrors _ _ = false

abbrev pub is_awaiting : JobStatus → Bool
is_awaiting JobStatus.awaiting_approval = true
is_awaiting _ = false

abbrev pub is_granted : ApprovalStatus → Bool
is_granted ApprovalStatus.approved = true
is_granted _ = false

abbrev pub is_job_granted : JobApproval → Bool
is_job_granted JobApproval.approved = true
is_job_granted _ = false

-- The job of a task is in the table, of the same risk and in the state of the task.
abbrev pub IsTied : List AutomationJob → AgentTask → Type 0
IsTied jobs t =
    (k : ℕ)
    → t.automation_job_id ≡ some k
    → (j : AutomationJob) × (find_row job_key k jobs ≡ some j)
      × (mirrors t.status j.status ≡ true)
      × (t.risk_level ≡ j.risk_level)

-- How many users have to approve a job of a risk: two for R4, or else one.
abbrev pub approvals_needed : RiskLevel → ℕ
approvals_needed RiskLevel.r4 = 2
approvals_needed _ = 1

-- The job of an approval is in the table, was requested by the same user, and waits for the
-- approval while that is pending.
abbrev pub IsAsked : List AutomationJob → ApprovalRequest → Type 0
IsAsked jobs a =
    (j : AutomationJob) × (find_row job_key a.job_id jobs ≡ some j)
    × (a.requester_id ≡ j.requested_by)
    × (is_pending a.status ≡ true → is_awaiting j.status ≡ true)
    × (a.required_approvals ≡ approvals_needed j.risk_level)

-- A job that bears an approval has an approval that was granted.
abbrev pub IsBacked : List ApprovalRequest → AutomationJob → Type 0
IsBacked approvals j =
    is_job_granted j.approval_status ≡ true
    → (i : ℕ) × (a : ApprovalRequest) × (find_row approval_key i approvals ≡ some a)
      × (a.job_id ≡ j.id)
      × (is_granted a.status ≡ true)

-- A decision is on an approval of the table, and not by its requester.
abbrev pub IsOutside : List ApprovalRequest → ApprovalDecision → Type 0
IsOutside approvals d =
    (a : ApprovalRequest) × (find_row approval_key d.approval_request_id approvals ≡ some a)
    × ((d.approver_id == a.requester_id) ≡ false)

-- An approval asks for one decision at least, and is granted by as many as it asks for.
abbrev pub IsCounted : List ApprovalDecision → ApprovalRequest → Type 0
IsCounted decisions a =
    (1 ≤ a.required_approvals)
    × (is_granted a.status ≡ true → a.required_approvals ≤ approvals_given a.id decisions)

-- A new job is no row's job yet.
module _ (new : AutomationJob) (jobs : List AutomationJob)
    (fresh : given (find_row job_key new.id jobs) ≡ false) where
  pub IsTied-new_job : (t : AgentTask) → IsTied jobs t → IsTied (new ∷ jobs) t
  IsTied-new_job t h k e =
      let (j, found, state, risk) = h k e in
      (j, find-new_old job_key k new jobs fresh found, state, risk)

  pub IsAsked-new_job : (a : ApprovalRequest) → IsAsked jobs a → IsAsked (new ∷ jobs) a
  IsAsked-new_job a (j, found, by, waits, asks) =
      (j, find-new_old job_key a.job_id new jobs fresh found, by, waits, asks)

-- A job is written over.
module _ (new : AutomationJob) (jobs : List AutomationJob) where
  pub IsTied-put_other :
      (t : AgentTask)
      → ((k : ℕ) → t.automation_job_id ≡ some k → (k == new.id) ≡ false)
      → IsTied jobs t
      → IsTied (put_row job_key new jobs) t
  IsTied-put_other t other h k e =
      let (j, found, state, risk) = h k e in
      (j, find-put_other job_key k new jobs (other k e) ∙ found, state, risk)

  pub IsAsked-put_job :
      {old : AutomationJob} (a : ApprovalRequest)
      → find_row job_key new.id jobs ≡ some old
      → new.requested_by ≡ old.requested_by
      → new.risk_level ≡ old.risk_level
      → (a.job_id ≡ new.id → is_pending a.status ≡ false)
      → IsAsked jobs a
      → IsAsked (put_row job_key new jobs) a
  IsAsked-put_job {old} a there same level over (j, found, by, waits, asks) =
      elim (Bool-cases (a.job_id == new.id)) [
        | inr other ↦ (j, find-put_other job_key a.job_id new jobs other ∙ found, by, waits, asks)
        | inl here ↦
            let e : a.job_id ≡ new.id = (==_iff a.job_id new.id).0 here in
            let own : some old ≡ some j =
              sym there ∙ sym (ap (λ i. find_row job_key i jobs) e) ∙ found in
            let eq : old ≡ j = cc in
            (
              new,
              find-put_same job_key a.job_id new jobs found e,
              by ∙ sym (ap (λ (x : AutomationJob). x.requested_by) eq) ∙ sym same,
              λ pending. absurd (false≢true (sym (over e) ∙ pending)),
              asks
                  ∙ ap approvals_needed
                      (sym (ap (λ (x : AutomationJob). x.risk_level) eq) ∙ sym level),
            )
      ]

-- A new approval hides none.
module _ (new : ApprovalRequest) (approvals : List ApprovalRequest)
    (fresh : given (find_row approval_key new.id approvals) ≡ false) where
  pub IsBacked-new_approval :
      (j : AutomationJob) → IsBacked approvals j → IsBacked (new ∷ approvals) j
  IsBacked-new_approval j h e =
      let (i, a, found, of_job, granted) = h e in
      (i, a, find-new_old approval_key i new approvals fresh found, of_job, granted)

  pub IsOutside-new_approval :
      (d : ApprovalDecision) → IsOutside approvals d → IsOutside (new ∷ approvals) d
  IsOutside-new_approval d (a, found, rest) =
      (a, find-new_old approval_key d.approval_request_id new approvals fresh found, rest)

-- An approval is written over.
module _ (new old : ApprovalRequest) (approvals : List ApprovalRequest)
    (there : find_row approval_key new.id approvals ≡ some old) where
  pub IsBacked-put_approval :
      (j : AutomationJob)
      → is_granted old.status ≡ false
      → IsBacked approvals j
      → IsBacked (put_row approval_key new approvals) j
  IsBacked-put_approval j is_open h e =
      let (i, a, found, of_job, granted) = h e in
      elim (Bool-cases (i == new.id)) [
        | inr other ↦
            (i, a, find-put_other approval_key i new approvals other ∙ found, of_job, granted)
        | inl here ↦
            let e2 : i ≡ new.id = (==_iff i new.id).0 here in
            let own : some old ≡ some a =
              sym there ∙ sym (ap (λ n. find_row approval_key n approvals) e2) ∙ found in
            let eq : old ≡ a = cc in
            absurd (
              false≢true
                (sym is_open ∙ ap (λ (x : ApprovalRequest). is_granted x.status) eq ∙ granted))
      ]

  pub IsOutside-put_approval :
      (d : ApprovalDecision)
      → new.requester_id ≡ old.requester_id
      → IsOutside approvals d
      → IsOutside (put_row approval_key new approvals) d
  IsOutside-put_approval d same (a, found, differs) =
      elim (Bool-cases (d.approval_request_id == new.id)) [
        | inr other ↦ (
          a,
          find-put_other approval_key d.approval_request_id new approvals other ∙ found,
          differs,
        )
        | inl here ↦
            let e : d.approval_request_id ≡ new.id = (==_iff d.approval_request_id new.id).0 here in
            let own : some old ≡ some a =
              sym there ∙ sym (ap (λ n. find_row approval_key n approvals) e) ∙ found in
            let eq : old ≡ a = cc in
            (
              new,
              find-put_same approval_key d.approval_request_id new approvals found e,
              rw (same ∙ ap (λ (x : ApprovalRequest). x.requester_id) eq) differs,
            )
      ]

pub IsCounted-new_decision :
    (d : ApprovalDecision) (ds : List ApprovalDecision) (a : ApprovalRequest)
    → IsCounted ds a
    → IsCounted (d ∷ ds) a
IsCounted-new_decision d ds a h = (h.0, λ granted. ground (arith, h.1 granted))
