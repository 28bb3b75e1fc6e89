-- ===== src/Automation/Release.antt =====
-- What the invariant means for a task that an agent is given for a job
-- (apps/api/src/aiops_x_api/modules/automation and agent_control).
use aiops_x_enterprise_new.Prelude.{
  ℕ, ◌≤◌, ◌==◌, ◌≡◌, refl, sym, ap, ◌≢◌, ◌∙◌, true, false, ◌&&◌, some, List, [], ◌∷◌, arith, All,
  Bool-cases, Option-cases, inl, inr, if◌then◌else◌, contains, length, ne_of_==_false, false≢true,
  subst,
}
use aiops_x_enterprise_new.Core.Table.{find_row, key-find}
use aiops_x_enterprise_new.Audit.Models.{AuditStore}
use aiops_x_enterprise_new.Change.Effects.{is_approval}
use aiops_x_enterprise_new.Change.FourEyes.{Distinct}
use aiops_x_enterprise_new.Automation.Models.{AutomationJob, ApprovalRequest, ApprovalDecision}
use aiops_x_enterprise_new.Automation.Requests.{approval_required}
use aiops_x_enterprise_new.Automation.Approvals.{has_voted, approvals_given}
use aiops_x_enterprise_new.Automation.Ties.{
  job_key, approval_key, task_key, mirrors, approvals_needed, is_granted, is_job_granted, IsOutside,
}
use aiops_x_enterprise_new.Automation.Invariant.{OneVoteEach, IsSoundControl}
use aiops_x_enterprise_new.Agents.Models.{AgentTask, Asset}
use aiops_x_enterprise_new.Agents.Database.{ControlDb}
use aiops_x_enterprise_new.Agents.Soundness.{mirrors-released}
use aiops_x_enterprise_new.Agents.Steps.{ControlRuns, ControlRuns-IsSound, no_jobs, no_jobs-IsSound}

-- Who has voted for an approval.
abbrev pub voters : ℕ → List ApprovalDecision → List ℕ
voters id [] = []
voters id (d ∷ ds) =
    let rest = voters id ds in
    if d.approval_request_id == id && is_approval d.decision then d.approver_id ∷ rest else rest

length-voters :
    (id : ℕ) (ds : List ApprovalDecision) → length (voters id ds) ≡ approvals_given id ds
length-voters id [] = refl
length-voters id (d ∷ ds) = ground (arith, length-voters id ds)

voters_new :
    (id u : ℕ) (ds : List ApprovalDecision)
    → has_voted id u ds ≡ false
    → contains u (voters id ds) ≡ false
voters_new id u [] h = refl
voters_new id u (d ∷ ds) h = ground (arith, voters_new id u ds)

voters-Distinct : (id : ℕ) (ds : List ApprovalDecision) → OneVoteEach ds → Distinct (voters id ds)
voters-Distinct id [] h = tt
voters-Distinct id (d ∷ ds) h =
    elim (Bool-cases (d.approval_request_id == id && is_approval d.decision)) [
      | inl counts ↦
          let same : d.approval_request_id ≡ id = ground arith in
          rw counts (
            voters_new id d.approver_id ds
                (subst (λ i. has_voted i d.approver_id ds ≡ false) same h.0),
            voters-Distinct id ds h.1,
          )
      | inr skipped ↦ rw skipped (voters-Distinct id ds h.1)
    ]

voters_others :
    (id : ℕ) (approvals : List ApprovalRequest) (ds : List ApprovalDecision) {a : ApprovalRequest}
    → find_row approval_key id approvals ≡ some a
    → All (IsOutside approvals) ds
    → All (λ u. u ≢ a.requester_id) (voters id ds)
voters_others id approvals [] found h = tt
voters_others id approvals (d ∷ ds) {a} found h =
    elim (Bool-cases (d.approval_request_id == id && is_approval d.decision)) [
      | inl counts ↦
          let same : d.approval_request_id ≡ id = ground arith in
          let (b, there, differs) = h.0 in
          let eq : some b ≡ some a =
            sym there ∙ ap (λ n. find_row approval_key n approvals) same ∙ found in
          let twin : b ≡ a = cc in
          rw counts (
            subst (λ (x : ApprovalRequest). d.approver_id ≢ x.requester_id) twin
                (ne_of_==_false d.approver_id b.requester_id differs),
            voters_others id approvals ds found h.1,
          )
      | inr skipped ↦ rw skipped (voters_others id approvals ds found h.1)
    ]

-- A job of the table has an approval of the table, granted by as many users as its risk calls for, by none twice, and by
-- none who requested the job.
abbrev pub IsApprovedByOthers : ControlDb → AutomationJob → ApprovalRequest → Type 0
IsApprovedByOthers s j a =
    let who = voters a.id s.decisions in
    (find_row job_key j.id s.jobs ≡ some j)
    × (find_row approval_key a.id s.approvals ≡ some a)
    × (a.job_id ≡ j.id)
    × (a.requester_id ≡ j.requested_by)
    × (is_granted a.status ≡ true)
    × (a.required_approvals ≡ approvals_needed j.risk_level)
    × (a.required_approvals ≤ length who)
    × Distinct who
    × All (λ u. u ≢ j.requested_by) who

granted_by_others :
    (s : ControlDb) (k : ℕ) (j : AutomationJob)
    → IsSoundControl s
    → find_row job_key k s.jobs ≡ some j
    → is_job_granted j.approval_status ≡ true
    → (a : ApprovalRequest) × IsApprovedByOthers s j a
granted_by_others s k j sound found granted =
    let (i, a, there, of_job, done) = sound.backed k j found granted in
    let (at_least_one, counted) = sound.counted i a there in
    let key : a.id ≡ i = key-find approval_key i s.approvals there in
    let job_id : j.id ≡ k = key-find job_key k s.jobs found in
    let (j', found', by, waits, asks_for) = sound.asked i a there in
    let eq : some j' ≡ some j =
      sym found' ∙ ap (λ n. find_row job_key n s.jobs) (of_job ∙ job_id) ∙ found in
    let twin : j' ≡ j = cc in
    let same_user : a.requester_id ≡ j.requested_by =
      by ∙ ap (λ (x : AutomationJob). x.requested_by) twin in
    (
      a,
      (
        ap (λ n. find_row job_key n s.jobs) job_id ∙ found,
        ap (λ n. find_row approval_key n s.approvals) key ∙ there,
        of_job,
        same_user,
        done,
        asks_for ∙ ap (λ (x : AutomationJob). approvals_needed x.risk_level) twin,
        omega (arith, counted done, length-voters a.id s.decisions),
        voters-Distinct a.id s.decisions sound.one_each,
        subst (λ u. All (λ v. v ≢ u) (voters a.id s.decisions)) same_user
            (voters_others a.id s.approvals s.decisions
              (ap (λ n. find_row approval_key n s.approvals) key ∙ there) sound.outside),
      ),
    )

-- After any requests to tables without jobs: whenever there is a task for an agent whose risk is R2
-- or above, in whatever state, the task is of a job of the table, for which the table has an
-- approval that was asked for by the requester of the job and is granted; and as many users have
-- approved it as it asks for, which is the number that the risk of the job calls for (two for R4, or
-- else one), none of them twice, and none of them the requester.
pub executed_after_approval :
    (assets : List Asset) (audit : AuditStore) (s : ControlDb) (i : ℕ) (t : AgentTask)
    → ControlRuns (no_jobs assets audit) s
    → find_row task_key i s.tasks ≡ some t
    → approval_required t.risk_level ≡ true
    → (j : AutomationJob) × (a : ApprovalRequest) × (t.automation_job_id ≡ some j.id)
      × IsApprovedByOthers s j a
executed_after_approval assets audit s i t runs found risky =
    let sound = ControlRuns-IsSound runs (no_jobs-IsSound assets audit) in
    elim (Option-cases t.automation_job_id) [
      | inl lone ↦
          absurd (false≢true (ap approval_required (sym (sound.free i t found lone)) ∙ risky))
      | inr (k, own) ↦
          let (j, there, state, level) = sound.tied i t found k own in
          let (needs, released) = sound.gated k j there in
          let exempt = needs (ap approval_required (sym level) ∙ risky) in
          let cleared = released (mirrors-released t.status j.status state).0 in
          let (a, approved) =
            granted_by_others s k j sound there (ground (arith, exempt, cleared)) in
          (j, a, own ∙ ap some (sym (key-find job_key k s.jobs there)), approved)
    ]

-- After any requests to tables without jobs: each task of a job stands beside that job, which
-- has the risk of the task, is in the state that mirrors the state of the task, and has no
-- other task.
pub task_mirrors_job :
    (assets : List Asset) (audit : AuditStore) (s : ControlDb) (i k : ℕ) (t : AgentTask)
    → ControlRuns (no_jobs assets audit) s
    → find_row task_key i s.tasks ≡ some t
    → t.automation_job_id ≡ some k
    → (j : AutomationJob) × (find_row job_key k s.jobs ≡ some j)
      × (mirrors t.status j.status ≡ true)
      × (t.risk_level ≡ j.risk_level)
      × ((i' : ℕ) (t' : AgentTask)
          → find_row task_key i' s.tasks ≡ some t'
          → t'.automation_job_id ≡ some k
          → i' ≡ i)
task_mirrors_job assets audit s i k t runs found own =
    let sound = ControlRuns-IsSound runs (no_jobs-IsSound assets audit) in
    let (j, there, state, level) = sound.tied i t found k own in
    (j, there, state, level, λ i' t' found' own'. sound.one_task i' i k t' t found' found own' own)
