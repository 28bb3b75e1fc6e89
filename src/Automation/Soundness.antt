-- ===== src/Automation/Soundness.antt =====
-- `create_automation_job` and `decide_approval` of
-- apps/api/src/aiops_x_api/modules/automation/api.py
-- keep the invariant of the tables.
use aiops_x_enterprise_new.Prelude.{
  ℕ, String, ◌≤◌, ==_refl, ==_iff, not, ◌≡◌, ◌≢◌, refl, sym, ap, ◌∙◌, true, false, some, ◌∷◌, arith,
  inl, inr, Bool-cases, false≢true, subst,
}
use aiops_x_enterprise_new.Core.Errors.{ok, >>=-eq-ok, required}
use aiops_x_enterprise_new.Core.Patch.{given}
use aiops_x_enterprise_new.Core.Table.{find_row, Every, key-find, find-put_same, find-put_cases}
use aiops_x_enterprise_new.Identity.Principal.{Principal}
use aiops_x_enterprise_new.Change.Models.{Decision}
use aiops_x_enterprise_new.Automation.Models.{
  AutomationJob, AutomationJobCreate, ApprovalRequest, ApprovalDecisionCreate, ApprovalStatus,
  RunbookVersion,
}
use aiops_x_enterprise_new.Agents.Database.{ControlDb, Catalog, ControlCall, put_job, put_approval}
use aiops_x_enterprise_new.Agents.Tables.{returned_state}
use aiops_x_enterprise_new.Automation.Jobs.{enqueue_automation_task, job_task, is_queued}
use aiops_x_enterprise_new.Automation.Requests.{
  JobFacts, approval_required, new_job, new_approval, insert_approval, add_job,
  create_automation_job_tx,
}
use aiops_x_enterprise_new.Automation.Approvals.{
  ApprovalFacts, is_pending, new_vote, resolved, rejected_job, released_job, is_settled, apply_vote,
  decide_approval_tx,
}
use aiops_x_enterprise_new.Automation.Outcomes.{
  insert_task-ok, insert_approval-ok, create_automation_job_tx-ok, add_job-ok, Votes,
  decide_approval_tx-ok,
}
use aiops_x_enterprise_new.Automation.Ties.{
  job_key, approval_key, IsCounted, is_awaiting, approvals_needed, is_granted, is_job_granted,
}
use aiops_x_enterprise_new.Automation.Invariant.{
  IsGated, IsSoundControl, Tables-IsSoundControl, not_taken,
}
use aiops_x_enterprise_new.Automation.Writes.{
  job_added, approval_added, task_added, decision_added, approval_moved, awaiting_free, job_moved,
}

-- A task that is enqueued for a queued job.
enqueued-IsSound :
    (call : ControlCall) (timeout : ℕ) (j : AutomationJob) (s s' : ControlDb)
    → find_row job_key j.id s.jobs ≡ some j
    → is_queued j.status ≡ true
    → enqueue_automation_task call timeout j s ≡ ok s'
    → IsSoundControl s
    → IsSoundControl s'
unfolding enqueue_automation_task job_task
enqueued-IsSound call timeout j s s' there queued h sound =
    let t = job_task call timeout j in
    let w = insert_task-ok t s s' h in
    rw (w.jobs, w.approvals, w.decisions, w.tasks)
      (task_added sound t
        (λ k own.
          let eq : j.id ≡ k = cc in
          (j, ap (λ n. find_row job_key n s.jobs) (sym eq) ∙ there, ground (arith, queued), refl))
        (λ alone. cc) (λ k own. not_taken k s.tasks (w.alone k own)))

-- The jobs of approvals are in the table, so none is of a new job.
none_asked :
    (s : ControlDb) (id : ℕ)
    → given (find_row job_key id s.jobs) ≡ false
    → IsSoundControl s
    → Every approval_key (λ a. a.job_id ≢ id) s.approvals
none_asked s id fresh sound i a e same =
    let (j, found, by, waits, asks) = sound.asked i a e in
    let missing : given (find_row job_key a.job_id s.jobs) ≡ false =
      ap (λ n. given (find_row job_key n s.jobs)) same ∙ fresh in
    ground (arith, found, missing)

new_job-IsGated :
    (call : ControlCall) (p : Principal) (key : String) (f : JobFacts)
    → IsGated (new_job call p key f)
unfolding new_job
new_job-IsGated call p key f = (ground arith, ground arith)

new_job-not_granted :
    (call : ControlCall) (p : Principal) (key : String) (f : JobFacts)
    → is_job_granted (new_job call p key f).approval_status ≡ false
unfolding new_job
new_job-not_granted call p key f = ground arith

-- A new job waits exactly if its risk requires an approval.
new_job-waits :
    (call : ControlCall) (p : Principal) (key : String) (f : JobFacts)
    → let j = new_job call p key f in
      (is_awaiting j.status ≡ approval_required j.risk_level)
      × (is_queued j.status ≡ not (approval_required j.risk_level))
unfolding new_job
new_job-waits call p key f = (ground arith, ground arith)

-- An approval that is asked for a waiting job.
asked-IsSound :
    (call : ControlCall) (j : AutomationJob) (s s' : ControlDb)
    → find_row job_key j.id s.jobs ≡ some j
    → is_awaiting j.status ≡ true
    → Every approval_key (λ a. a.job_id ≢ j.id) s.approvals
    → insert_approval (new_approval call j) s ≡ ok s'
    → IsSoundControl s
    → IsSoundControl s'
unfolding new_approval
asked-IsSound call j s s' there waits alone h sound =
    let a = new_approval call j in
    let (fresh, eq) = insert_approval-ok a s s' h in
    rw eq (
      approval_added sound a fresh (j, there, refl, (λ pending. waits), ground arith)
        (ground arith, λ granted. cc) alone)

add_job-IsSound :
    (call : ControlCall) (p : Principal) (key : String) (f : JobFacts) (s s' : ControlDb)
    (j : AutomationJob)
    → add_job call p key f s ≡ ok (j, s')
    → IsSoundControl s
    → IsSoundControl s'
add_job-IsSound call p key f s s' j h sound =
    let (done, w) = add_job-ok call p key f s s' j h in
    let new = new_job call p key f in
    let (waits, queued) = new_job-waits call p key f in
    let added : IsSoundControl (record s { jobs = new ∷ s.jobs }) =
      job_added sound new w.fresh (new_job-IsGated call p key f)
        (λ granted. absurd (false≢true (sym (new_job-not_granted call p key f) ∙ granted))) in
    let there : find_row job_key new.id (new ∷ s.jobs) ≡ some new = rw (==_refl new.id) refl in
    Tables-IsSoundControl w.tables (elim (Bool-cases (approval_required new.risk_level)) [
      | inl needs ↦
          asked-IsSound call new (record s { jobs = new ∷ s.jobs }) done there (waits ∙ needs)
            (none_asked s new.id w.fresh sound) (rw needs at w.follow) added
      | inr waived ↦
          enqueued-IsSound call f.version.timeout_seconds new (record s { jobs = new ∷ s.jobs })
            done there (queued ∙ ap not waived) (rw waived at w.follow) added
    ])

pub create_automation_job_tx-IsSound :
    (call : ControlCall) (p : Principal) (c : Catalog) (key : String) (b : AutomationJobCreate)
    (s s' : ControlDb) (j : AutomationJob)
    → create_automation_job_tx call p c key b s ≡ ok (j, s')
    → IsSoundControl s
    → IsSoundControl s'
create_automation_job_tx-IsSound call p c key b s s' j h sound =
    elim (create_automation_job_tx-ok call p c key b s s' j h) [
      | inl same ↦ rw same sound
      | inr (f, checked, added) ↦ add_job-IsSound call p key f s s' j added sound
    ]

voted-IsSound :
    (call : ControlCall) (p : Principal) (id : ℕ) (b : ApprovalDecisionCreate) (s : ControlDb)
    (f : ApprovalFacts)
    → Votes call p id s f
    → IsSoundControl s
    → IsSoundControl (record s { decisions = new_vote call p b f.approval ∷ s.decisions })
unfolding new_vote
voted-IsSound call p id b s f w sound =
    let key : f.approval.id ≡ id = key-find approval_key id s.approvals w.found in
    decision_added sound (new_vote call p b f.approval)
      (
        f.approval,
        ap (λ n. find_row approval_key n s.approvals) key ∙ w.found,
        ground (arith, w.not_own),
      )
      w.first_time

-- What the checks have found stays so while the decision is added.
pub record IsDecidable (s : ControlDb) (f : ApprovalFacts) : Type 0 where
  pub found : find_row approval_key f.approval.id s.approvals ≡ some f.approval
  pub pending : is_pending f.approval.status ≡ true
  pub job : find_row job_key f.job.id s.jobs ≡ some f.job
  pub of_job : f.approval.job_id ≡ f.job.id
  pub awaiting : is_awaiting f.job.status ≡ true
  pub by : f.approval.requester_id ≡ f.job.requested_by
  pub asks : f.approval.required_approvals ≡ approvals_needed f.job.risk_level

decidable :
    (call : ControlCall) (p : Principal) (id : ℕ) (s : ControlDb) (f : ApprovalFacts)
    → Votes call p id s f
    → IsSoundControl s
    → IsDecidable s f
decidable call p id s f w sound =
    let key : f.approval.id ≡ id = key-find approval_key id s.approvals w.found in
    let of_job : f.job.id ≡ f.approval.job_id = key-find job_key f.approval.job_id s.jobs w.job in
    let (j, found, by, waits, asks) = sound.asked id f.approval w.found in
    let same : some j ≡ some f.job = sym found ∙ w.job in
    let eq : j ≡ f.job = cc in
    record {
      found = ap (λ n. find_row approval_key n s.approvals) key ∙ w.found;
      pending = w.pending;
      job = ap (λ n. find_row job_key n s.jobs) of_job ∙ w.job;
      of_job = sym of_job;
      awaiting = sym (ap (λ (x : AutomationJob). is_awaiting x.status) eq) ∙ waits w.pending;
      by = by ∙ ap (λ (x : AutomationJob). x.requested_by) eq;
      asks = asks ∙ ap (λ (x : AutomationJob). approvals_needed x.risk_level) eq;
    }

-- The approval is resolved, and its job is released or rejected.
settled-IsSound :
    (status : ApprovalStatus) (now : ℕ) (new : AutomationJob) (f : ApprovalFacts) (s : ControlDb)
    → IsDecidable s f
    → is_pending status ≡ false
    → new.id ≡ f.job.id
    → new.requested_by ≡ f.job.requested_by
    → new.risk_level ≡ f.job.risk_level
    → IsGated new
    → (is_job_granted new.approval_status ≡ true → is_granted status ≡ true)
    → IsCounted s.decisions (resolved status now f.approval)
    → IsSoundControl s
    → IsSoundControl (put_job new (put_approval (resolved status now f.approval) s))
settled-IsSound status now new f s d over same by level gated backed counted sound =
    let a = resolved status now f.approval in
    let moved : IsSoundControl (put_approval a s) =
      approval_moved sound a f.approval d.found (ground (arith, d.pending)) refl refl
        (
          f.job,
          ap (λ n. find_row job_key n s.jobs) d.of_job ∙ d.job,
          d.by,
          λ pending. absurd (false≢true (sym over ∙ pending)),
          d.asks,
        )
        counted in
    job_moved moved new f.job (ap (λ n. find_row job_key n s.jobs) same ∙ d.job) by level gated
      (λ granted. (
        f.approval.id,
        a,
        find-put_same approval_key f.approval.id a s.approvals d.found refl,
        d.of_job ∙ sym same,
        backed granted,
      ))
      (λ i x e of_new. elim (find-put_cases approval_key i a s.approvals e) [
        | inl (key, is_a) ↦ ap (λ (y : ApprovalRequest). is_pending y.status) is_a ∙ over
        | inr (other, kept) ↦
            let twin : i ≡ f.approval.id =
              sound.one_approval i f.approval.id x f.approval kept d.found
                (of_new ∙ same ∙ sym d.of_job) in
            absurd (false≢true (sym other ∙ (==_iff i f.approval.id).1 twin))
      ])
      (λ i t e own. awaiting_free sound f.job.id d.job d.awaiting i t e (own ∙ ap some same))

apply_vote-IsSound :
    (call : ControlCall) (c : Catalog) (decision : Decision) (f : ApprovalFacts) (s s' : ControlDb)
    (a : ApprovalRequest)
    → apply_vote call c decision f s ≡ ok (a, s')
    → IsDecidable s f
    → 1 ≤ f.approval.required_approvals
    → IsSoundControl s
    → IsSoundControl s'
unfolding apply_vote
apply_vote-IsSound call c Decision.rejected f s s' a h d asks sound =
    subst IsSoundControl (returned_state h) (
      settled-IsSound ApprovalStatus.rejected call.readings.now (rejected_job f.job) f s d refl refl
        refl refl (λ needs. refl, λ released. cc) (λ granted. cc) (asks, λ granted. cc) sound)
apply_vote-IsSound call c Decision.approved f s s' a h d asks sound =
    elim (Bool-cases (is_settled f.approval s.decisions)) [
      | inr more ↦ let same = rw more at h in subst IsSoundControl (returned_state same) sound
      | inl enough ↦
          let released = rw enough at h in
          let (version, there, enqueued) =
            >>=-eq-ok
              (required
                (find_row (λ (v : RunbookVersion). v.id) f.job.runbook_version_id c.versions) _)
              _ released in
          let job = released_job f.job in
          let (done, written, returned) =
            >>=-eq-ok (enqueue_automation_task call version.timeout_seconds job _) _ enqueued in
          let ready : IsSoundControl (
              put_job job
                (put_approval (resolved ApprovalStatus.approved call.readings.now f.approval) s)) =
            settled-IsSound ApprovalStatus.approved call.readings.now job f s d refl refl refl refl
              (λ needs. refl, λ free. refl) (λ granted. refl)
              (asks, λ granted. ground (arith, enough)) sound in
          subst IsSoundControl (returned_state returned) (
            enqueued-IsSound call version.timeout_seconds job _ done
              (find-put_same job_key f.job.id job s.jobs d.job refl) refl written ready)
    ]

pub decide_approval_tx-IsSound :
    (call : ControlCall) (p : Principal) (c : Catalog) (id : ℕ) (b : ApprovalDecisionCreate)
    (s s' : ControlDb) (a : ApprovalRequest)
    → decide_approval_tx call p c id b s ≡ ok (a, s')
    → IsSoundControl s
    → IsSoundControl s'
decide_approval_tx-IsSound call p c id b s s' a h sound =
    let (f, a', done, w, applied, tables) = decide_approval_tx-ok call p c id b s s' a h in
    let d = decidable call p id s f w sound in
    let added = record s { decisions = new_vote call p b f.approval ∷ s.decisions } in
    Tables-IsSoundControl tables (
      apply_vote-IsSound call c b.decision f added done a' applied
        (record {
          found = d.found;
          pending = d.pending;
          job = d.job;
          of_job = d.of_job;
          awaiting = d.awaiting;
          by = d.by;
          asks = d.asks;
        })
        (sound.counted id f.approval w.found).0 (voted-IsSound call p id b s f w sound))
