-- ===== src/Automation/Outcomes.antt =====
-- What `create_automation_job` and `decide_approval` of
-- apps/api/src/aiops_x_api/modules/automation/api.py have found and written when they succeed.
use aiops_x_enterprise_new.Prelude.{
  ℕ, String, ◌==◌, ◌≡◌, refl, sym, subst, true, false, not, Option, none, some, ◌∷◌, arith, ◌⊎◌,
  inl, inr, Option-cases, some_of, if◌then◌else◌, ltb, str_eq,
}
use aiops_x_enterprise_new.Core.Errors.{Result, ok, ◌>>=◌, >>=-eq-ok, >>-eq-ok, guard}
use aiops_x_enterprise_new.Core.Patch.{given}
use aiops_x_enterprise_new.Core.Table.{find_row}
use aiops_x_enterprise_new.Identity.Principal.{Principal}
use aiops_x_enterprise_new.Identity.Scope.{require_permission}
use aiops_x_enterprise_new.Automation.Models.{
  AutomationJob, AutomationJobCreate, ApprovalRequest, ApprovalDecisionCreate, OperationsEvent,
}
use aiops_x_enterprise_new.Agents.Models.{AgentTask}
use aiops_x_enterprise_new.Agents.Database.{ControlDb, Catalog, ControlCall, job_row}
use aiops_x_enterprise_new.Agents.Tables.{
  Tables, Tables-trans, Tables-refl, returned_state, audit_user-Tables,
}
use aiops_x_enterprise_new.Automation.Jobs.{
  append_automation_timeline, is_job_task, insert_task, enqueue_automation_task,
}
use aiops_x_enterprise_new.Automation.Requests.{
  JobFacts, approval_required, new_job, new_approval, insert_approval, add_job, announce,
  create_automation_job_tx, check_job, duplicate_job,
}
use aiops_x_enterprise_new.Automation.Approvals.{
  ApprovalFacts, is_pending, has_voted, check_approval_request, new_vote, apply_vote,
  decide_approval_tx,
}
use aiops_x_enterprise_new.Automation.Ties.{job_key, approval_key, task_key}

pub announce-Tables :
    (call : ControlCall) (e : Option OperationsEvent) (j : AutomationJob) (s : ControlDb)
    → Tables (announce call e j s) s
unfolding append_automation_timeline
announce-Tables call none j s = Tables-refl s
announce-Tables call (some e) j s = record {
  jobs = refl;
  approvals = refl;
  decisions = refl;
  tasks = refl;
}

-- A task has been inserted.
pub record Inserts (t : AgentTask) (s s' : ControlDb) : Type 0 where
  pub fresh : given (find_row task_key t.id s.tasks) ≡ false
  pub alone : (k : ℕ) → t.automation_job_id ≡ some k → some_of (is_job_task k) s.tasks ≡ false
  pub jobs : s'.jobs ≡ s.jobs
  pub approvals : s'.approvals ≡ s.approvals
  pub decisions : s'.decisions ≡ s.decisions
  pub tasks : s'.tasks ≡ t ∷ s.tasks

pub insert_task-ok : (t : AgentTask) (s s' : ControlDb) → insert_task t s ≡ ok s' → Inserts t s s'
unfolding insert_task
insert_task-ok t s s' h = record {
  fresh = ground arith;
  alone = λ k e. ground arith;
  jobs = ground arith;
  approvals = ground arith;
  decisions = ground arith;
  tasks = ground arith;
}

pub insert_approval-ok :
    (a : ApprovalRequest) (s s' : ControlDb)
    → insert_approval a s ≡ ok s'
    → (given (find_row approval_key a.id s.approvals) ≡ false)
      × (s' ≡ record s { approvals = a ∷ s.approvals })
unfolding insert_approval
insert_approval-ok a s s' h = (ground arith, ground arith)

pub create_automation_job_tx-ok :
    (call : ControlCall) (p : Principal) (c : Catalog) (key : String) (b : AutomationJobCreate)
    (s s' : ControlDb) (j : AutomationJob)
    → create_automation_job_tx call p c key b s ≡ ok (j, s')
    → (s' ≡ s)
      ⊎ ((f : JobFacts) × (check_job call p c b s ≡ ok f) × (add_job call p key f s ≡ ok (j, s')))
unfolding create_automation_job_tx duplicate_job
create_automation_job_tx-ok call p c key b s s' j h =
    let (needed, allowed, rest) = >>=-eq-ok (require_permission "job:write" p) _ h in
    elim (Option-cases (duplicate_job p.tenant_id key s)) [
      | inl new ↦
          let opened : (check_job call p c b s >>= λ f. add_job call p key f s) ≡ ok (j, s') =
            rw new at rest in
          let (f, passed, added) = >>=-eq-ok (check_job call p c b s) _ opened in
          inr (f, passed, added)
      | inr (old, known) ↦
          let same : ◌≡◌ {A = Result (AutomationJob × ControlDb)} (ok (old, s)) (ok (j, s')) =
            rw known at rest in
          inl (sym (returned_state same))
    ]

-- The rows of a new job before the timeline and the audit log.
pub record AddsJob (call : ControlCall) (p : Principal) (key : String) (f : JobFacts)
    (s s' done : ControlDb) : Type 0 where
  pub fresh : given (find_row job_key (new_job call p key f).id s.jobs) ≡ false
  pub follow :
      (if approval_required (new_job call p key f).risk_level
        then insert_approval
            (new_approval call (new_job call p key f))
            (record s { jobs = new_job call p key f ∷ s.jobs })
        else enqueue_automation_task call f.version.timeout_seconds
            (new_job call p key f)
            (record s { jobs = new_job call p key f ∷ s.jobs }))
      ≡ ok done
  pub tables : Tables s' done

pub add_job-ok :
    (call : ControlCall) (p : Principal) (key : String) (f : JobFacts) (s s' : ControlDb)
    (j : AutomationJob)
    → add_job call p key f s ≡ ok (j, s')
    → (done : ControlDb) × AddsJob call p key f s s' done
unfolding add_job
add_job-ok call p key f s s' j h =
    let job = new_job call p key f in
    let (fresh, numbered) = >>-eq-ok (guard (not (given (job_row job.id s))) _) _ h in
    let (unique, followed) =
      >>-eq-ok (guard (not (some_of (λ (x : AutomationJob). str_eq x.job_id job.job_id) s.jobs)) _)
        _ numbered in
    let (done, written, returned) = >>=-eq-ok _ _ followed in
    (
      done,
      record {
        fresh = ground (arith, fresh);
        follow = written;
        tables =
            subst (λ x. Tables x done) (returned_state returned)
              (Tables-trans (audit_user-Tables call p _ _ _ _ _ (announce call f.event job done))
                (announce-Tables call f.event job done));
      },
    )

-- The checks of `decide_approval`.
pub record Votes (call : ControlCall) (p : Principal) (id : ℕ) (s : ControlDb) (f : ApprovalFacts)
    : Type 0 where
  pub found : find_row approval_key id s.approvals ≡ some f.approval
  pub pending : is_pending f.approval.status ≡ true
  pub in_time : ltb call.readings.now f.approval.expires_at ≡ true
  pub not_own : (f.approval.requester_id == p.user_id) ≡ false
  pub first_time : has_voted f.approval.id p.user_id s.decisions ≡ false
  pub job : find_row job_key f.approval.job_id s.jobs ≡ some f.job

pub check_approval_request-ok :
    (call : ControlCall) (p : Principal) (id : ℕ) (s : ControlDb) (f : ApprovalFacts)
    → check_approval_request call p id s ≡ ok f
    → Votes call p id s f
unfolding check_approval_request
check_approval_request-ok call p id s f h = ground arith

pub decide_approval_tx-ok :
    (call : ControlCall) (p : Principal) (c : Catalog) (id : ℕ) (b : ApprovalDecisionCreate)
    (s s' : ControlDb) (a : ApprovalRequest)
    → decide_approval_tx call p c id b s ≡ ok (a, s')
    → (f : ApprovalFacts) × (a' : ApprovalRequest) × (done : ControlDb) × Votes call p id s f
      × (apply_vote call c b.decision f
            (record s { decisions = new_vote call p b f.approval ∷ s.decisions })
          ≡ ok (a', done))
      × Tables s' done
unfolding decide_approval_tx
decide_approval_tx-ok call p c id b s s' a h =
    let (f, checked, rest) = >>=-eq-ok (check_approval_request call p id s) _ h in
    let ((a', done), applied, returned) = >>=-eq-ok (apply_vote call c b.decision f _) _ rest in
    (
      f,
      a',
      done,
      check_approval_request-ok call p id s f checked,
      applied,
      subst (λ x. Tables x done) (returned_state returned)
          (audit_user-Tables call p _ _ _ _ _ done),
    )
