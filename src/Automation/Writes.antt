-- ===== src/Automation/Writes.antt =====
-- Each write of a row by the handlers of apps/api/src/aiops_x_api/modules/automation and
-- agent_control, and what it takes to keep the invariant of the tables.
use aiops_x_enterprise_new.Prelude.{
  ℕ, ◌==◌, ==_iff, ◌≡◌, sym, ap, ◌∙◌, true, false, none, some, List, ◌∷◌, arith, inl, inr,
  Bool-cases, false≢true, All-map, ◌≢◌,
}
use aiops_x_enterprise_new.Core.Patch.{given}
use aiops_x_enterprise_new.Core.Table.{
  find_row, put_row, Every, Every-put, Every-new, find-put_cases, find-put_same,
}
use aiops_x_enterprise_new.Automation.Models.{AutomationJob, ApprovalRequest, ApprovalDecision}
use aiops_x_enterprise_new.Agents.Models.{AgentTask}
use aiops_x_enterprise_new.Automation.Approvals.{is_pending, has_voted}
use aiops_x_enterprise_new.Automation.Ties.{
  job_key, approval_key, task_key, mirrors, is_awaiting, is_granted, IsTied, IsAsked, IsBacked,
  IsOutside, IsCounted, IsTied-new_job, IsAsked-new_job, IsTied-put_other, IsAsked-put_job,
  IsBacked-new_approval, IsOutside-new_approval, IsBacked-put_approval, IsOutside-put_approval,
  IsCounted-new_decision,
}
use aiops_x_enterprise_new.Automation.Invariant.{
  IsGated, IsFree, IsSoundTables, OneApproval-new, OneApproval-put, OneTask-new, OneTask-put,
}

module _ {jobs : List AutomationJob} {approvals : List ApprovalRequest}
    {decisions : List ApprovalDecision} {tasks : List AgentTask}
    (h : IsSoundTables jobs approvals decisions tasks) where
  pub job_added :
      (new : AutomationJob)
      → given (find_row job_key new.id jobs) ≡ false
      → IsGated new
      → IsBacked approvals new
      → IsSoundTables (new ∷ jobs) approvals decisions tasks
  job_added new fresh gated backed = record {
    gated = Every-new job_key IsGated new jobs gated h.gated;
    backed = Every-new job_key (IsBacked approvals) new jobs backed h.backed;
    asked = λ i a e. IsAsked-new_job new jobs fresh a (h.asked i a e);
    counted = h.counted;
    outside = h.outside;
    one_each = h.one_each;
    one_approval = h.one_approval;
    tied = λ i t e. IsTied-new_job new jobs fresh t (h.tied i t e);
    free = h.free;
    one_task = h.one_task;
  }

  pub approval_added :
      (new : ApprovalRequest)
      → given (find_row approval_key new.id approvals) ≡ false
      → IsAsked jobs new
      → IsCounted decisions new
      → Every approval_key (λ a. a.job_id ≢ new.job_id) approvals
      → IsSoundTables jobs (new ∷ approvals) decisions tasks
  approval_added new fresh asked counted alone = record {
    gated = h.gated;
    backed = λ i j e. IsBacked-new_approval new approvals fresh j (h.backed i j e);
    asked = Every-new approval_key (IsAsked jobs) new approvals asked h.asked;
    counted = Every-new approval_key (IsCounted decisions) new approvals counted h.counted;
    outside = All-map decisions (IsOutside-new_approval new approvals fresh) h.outside;
    one_each = h.one_each;
    one_approval = OneApproval-new new approvals alone h.one_approval;
    tied = h.tied;
    free = h.free;
    one_task = h.one_task;
  }

  pub task_added :
      (new : AgentTask)
      → IsTied jobs new
      → IsFree new
      → ((k : ℕ)
          → new.automation_job_id ≡ some k
          → Every task_key (λ t. t.automation_job_id ≢ some k) tasks)
      → IsSoundTables jobs approvals decisions (new ∷ tasks)
  task_added new tied free alone = record {
    gated = h.gated;
    backed = h.backed;
    asked = h.asked;
    counted = h.counted;
    outside = h.outside;
    one_each = h.one_each;
    one_approval = h.one_approval;
    tied = Every-new task_key (IsTied jobs) new tasks tied h.tied;
    free = Every-new task_key IsFree new tasks free h.free;
    one_task = OneTask-new new tasks alone h.one_task;
  }

  pub decision_added :
      (d : ApprovalDecision)
      → IsOutside approvals d
      → has_voted d.approval_request_id d.approver_id decisions ≡ false
      → IsSoundTables jobs approvals (d ∷ decisions) tasks
  decision_added d outside first_time = record {
    gated = h.gated;
    backed = h.backed;
    asked = h.asked;
    counted = λ i a e. IsCounted-new_decision d decisions a (h.counted i a e);
    outside = (outside, h.outside);
    one_each = (first_time, h.one_each);
    one_approval = h.one_approval;
    tied = h.tied;
    free = h.free;
    one_task = h.one_task;
  }

  -- An approval that was not granted yet is resolved.
  pub approval_moved :
      (new old : ApprovalRequest)
      → find_row approval_key new.id approvals ≡ some old
      → is_granted old.status ≡ false
      → new.job_id ≡ old.job_id
      → new.requester_id ≡ old.requester_id
      → IsAsked jobs new
      → IsCounted decisions new
      → IsSoundTables jobs (put_row approval_key new approvals) decisions tasks
  approval_moved new old there is_open same by asked counted = record {
    gated = h.gated;
    backed = λ i j e. IsBacked-put_approval new old approvals there j is_open (h.backed i j e);
    asked = Every-put approval_key (IsAsked jobs) new approvals asked h.asked;
    counted = Every-put approval_key (IsCounted decisions) new approvals counted h.counted;
    outside =
        All-map decisions (λ d k. IsOutside-put_approval new old approvals there d by k) h.outside;
    one_each = h.one_each;
    one_approval = OneApproval-put new approvals there same h.one_approval;
    tied = h.tied;
    free = h.free;
    one_task = h.one_task;
  }

  -- No task is of a job that waits for its approval.
  pub awaiting_free :
      (k : ℕ) {j : AutomationJob}
      → find_row job_key k jobs ≡ some j
      → is_awaiting j.status ≡ true
      → Every task_key (λ t. t.automation_job_id ≢ some k) tasks
  awaiting_free k {j} found waits i t e own =
      let (j', found', state, risk) = h.tied i t e k own in
      let same : some j ≡ some j' = sym found ∙ found' in
      let eq : j ≡ j' = cc in
      let waits' : is_awaiting j'.status ≡ true =
        sym (ap (λ (x : AutomationJob). is_awaiting x.status) eq) ∙ waits in
      ground (arith, state, waits')

  -- A job that no task is of is written over, when no approval of it is pending.
  pub job_moved :
      (new old : AutomationJob)
      → find_row job_key new.id jobs ≡ some old
      → new.requested_by ≡ old.requested_by
      → new.risk_level ≡ old.risk_level
      → IsGated new
      → IsBacked approvals new
      → Every approval_key (λ a. a.job_id ≡ new.id → is_pending a.status ≡ false) approvals
      → Every task_key (λ t. t.automation_job_id ≢ some new.id) tasks
      → IsSoundTables (put_row job_key new jobs) approvals decisions tasks
  job_moved new old there by level gated backed over untouched = record {
    gated = Every-put job_key IsGated new jobs gated h.gated;
    backed = Every-put job_key (IsBacked approvals) new jobs backed h.backed;
    asked = λ i a e. IsAsked-put_job new jobs a there by level (over i a e) (h.asked i a e);
    counted = h.counted;
    outside = h.outside;
    one_each = h.one_each;
    one_approval = h.one_approval;
    tied = λ i t e.
        IsTied-put_other new jobs t
          (λ k own. elim (Bool-cases (k == new.id)) [
            | inr other ↦ other
            | inl same ↦
                let eq : k ≡ new.id = (==_iff k new.id).0 same in
                absurd (untouched i t e (own ∙ ap some eq))
          ])
          (h.tied i t e);
    free = h.free;
    one_task = h.one_task;
  }

  -- A task that is of no job is written over.
  pub task_moved :
      (new old : AgentTask)
      → find_row task_key new.id tasks ≡ some old
      → new.automation_job_id ≡ old.automation_job_id
      → new.automation_job_id ≡ none
      → IsFree new
      → IsSoundTables jobs approvals decisions (put_row task_key new tasks)
  task_moved new old there same alone free = record {
    gated = h.gated;
    backed = h.backed;
    asked = h.asked;
    counted = h.counted;
    outside = h.outside;
    one_each = h.one_each;
    one_approval = h.one_approval;
    tied = Every-put task_key (IsTied jobs) new tasks (λ k own. cc) h.tied;
    free = Every-put task_key IsFree new tasks free h.free;
    one_task = OneTask-put new tasks there same h.one_task;
  }

  -- A task and its job are written over together.
  pub pair_moved :
      (new old : AgentTask) (job was : AutomationJob)
      → find_row task_key new.id tasks ≡ some old
      → new.automation_job_id ≡ old.automation_job_id
      → new.automation_job_id ≡ some job.id
      → find_row job_key job.id jobs ≡ some was
      → is_awaiting was.status ≡ false
      → job.requested_by ≡ was.requested_by
      → job.risk_level ≡ was.risk_level
      → IsGated job
      → IsBacked approvals job
      → mirrors new.status job.status ≡ true
      → new.risk_level ≡ job.risk_level
      → IsSoundTables (put_row job_key job jobs) approvals decisions (put_row task_key new tasks)
  pair_moved new old job was there same own found busy by level gated backed state risk = record {
    gated = Every-put job_key IsGated job jobs gated h.gated;
    backed = Every-put job_key (IsBacked approvals) job jobs backed h.backed;
    asked = λ i a e.
        IsAsked-put_job job jobs a found by level
          (λ of_job. elim (Bool-cases (is_pending a.status)) [
            | inr over ↦ over
            | inl pending ↦
                let (j, there', by', waits, asks) = h.asked i a e in
                let eq : some j ≡ some was =
                  sym there' ∙ ap (λ n. find_row job_key n jobs) of_job ∙ found in
                let eq' : j ≡ was = cc in
                absurd (
                  false≢true (
                    sym busy
                    ∙ sym (ap (λ (x : AutomationJob). is_awaiting x.status) eq')
                    ∙ waits pending))
          ])
          (h.asked i a e);
    counted = h.counted;
    outside = h.outside;
    one_each = h.one_each;
    one_approval = h.one_approval;
    tied = λ i t e. elim (find-put_cases task_key i new tasks e) [
      | inl (here, is_new) ↦ λ k mine.
          let eq : some k ≡ some job.id =
            sym mine ∙ ap (λ (x : AgentTask). x.automation_job_id) is_new ∙ own in
          let eq' : k ≡ job.id = cc in
          (
            job,
            find-put_same job_key k job jobs (ap (λ n. find_row job_key n jobs) eq' ∙ found) eq',
            ap (λ (x : AgentTask). mirrors x.status job.status) is_new ∙ state,
            ap (λ (x : AgentTask). x.risk_level) is_new ∙ risk,
          )
      | inr (other, kept) ↦
          IsTied-put_other job jobs t
            (λ k mine. elim (Bool-cases (k == job.id)) [
              | inr apart ↦ apart
              | inl eq ↦
                  let eq' : k ≡ job.id = (==_iff k job.id).0 eq in
                  let twin : i ≡ new.id =
                    h.one_task i new.id job.id t old kept there (mine ∙ ap some eq')
                      (sym same ∙ own) in
                  absurd (false≢true (sym other ∙ (==_iff i new.id).1 twin))
            ])
            (h.tied i t kept)
    ];
    free = Every-put task_key IsFree new tasks (λ none_. cc) h.free;
    one_task = OneTask-put new tasks there same h.one_task;
  }
