-- ===== src/Agents/Dispatch.antt =====
-- `next_task` and `submit_task_result` of
-- apps/api/src/aiops_x_api/modules/agent_control/api.py: what
-- they have found and written, and that they keep the invariant of the tables.
use aiops_x_enterprise_new.Prelude.{
  ℕ, ◌==◌, ◌≡◌, refl, sym, ap, ◌∙◌, Bool, true, false, Option, none, some, List, [], ◌∷◌, arith,
  inl, inr, Bool-cases, Option-cases, subst, All, leb, ◌⊎◌,
}
use aiops_x_enterprise_new.Core.Errors.{
  ok, >>=-eq-ok, >>-eq-ok, guard, guard-eq-ok, required, required-eq-ok,
}
use aiops_x_enterprise_new.Core.Table.{
  find_row, find_where, key-find, meets_test, keys_where-All, find_where-found,
}
use aiops_x_enterprise_new.Automation.Models.{AutomationJob}
use aiops_x_enterprise_new.Agents.Models.{AgentTask, AgentTaskResult}
use aiops_x_enterprise_new.Agents.Database.{ControlDb, ControlCall, job_row, put_job, put_task}
use aiops_x_enterprise_new.Agents.Tables.{
  Tables, Tables-refl, Tables-trans, returned_state, audit_agent-Tables,
}
use aiops_x_enterprise_new.Automation.Jobs.{
  start_automation_job, started_job, is_queued, complete_automation_job, completed_job,
  append_automation_timeline,
}
use aiops_x_enterprise_new.Automation.Ties.{job_key, task_key, mirrors}
use aiops_x_enterprise_new.Automation.Invariant.{IsSoundControl, Tables-IsSoundControl}
use aiops_x_enterprise_new.Agents.Access.{Pki, AgentPrincipal, require_agent_scope}
use aiops_x_enterprise_new.Agents.Tasks.{
  is_running, is_reported, is_task_due, earlier, earliest, due_task, dispatched, start_job_of,
  audit_dispatch, task_document, dispatch, next_task_tx, AgentTaskEnvelope,
}
use aiops_x_enterprise_new.Agents.Results.{
  reported_task, report_event, complete_job_of, audit_result, apply_result, submit_task_result_tx,
}
use aiops_x_enterprise_new.Agents.Soundness.{KeepsJob, KeepsTask, lone_moved, together_moved}

earlier-one :
    (o later : Option AgentTask) {t : AgentTask}
    → earlier o later ≡ some t
    → (o ≡ some t) ⊎ (later ≡ some t)
earlier-one none later h = inr h
earlier-one (some u) none h = inl h
earlier-one (some u) (some v) {t} h = elim (Bool-cases (leb u.created_at v.created_at)) [
  | inl first ↦ inl (rw first at h)
  | inr second ↦ inr (rw second at h)
]

earliest-found :
    (test : AgentTask → Bool) (is : List ℕ) (tasks : List AgentTask) {t : AgentTask}
    → All (λ i. meets_test test (find_row task_key i tasks) ≡ true) is
    → earliest is tasks ≡ some t
    → (find_row task_key t.id tasks ≡ some t) × (test t ≡ true)
unfolding earliest
earliest-found test [] tasks h e = cc
earliest-found test (i ∷ is) tasks {t} h e =
    elim (earlier-one (find_row task_key i tasks) (earliest is tasks) e) [
      | inl found ↦ (
        ap (λ n. find_row task_key n tasks) (key-find task_key i tasks found) ∙ found,
        sym (ap (meets_test test) found) ∙ h.0,
      )
      | inr later ↦ earliest-found test is tasks h.1 later
    ]

-- The task that is handed out is in the table, and due.
pub due_task-found :
    (agent_id now : ℕ) (locked : ℕ → Bool) (s : ControlDb) {t : AgentTask}
    → due_task agent_id now locked s ≡ some t
    → (find_row task_key t.id s.tasks ≡ some t) × (is_task_due agent_id now locked t ≡ true)
unfolding due_task
due_task-found agent_id now locked s e =
    earliest-found (is_task_due agent_id now locked) _ s.tasks
      (keys_where-All task_key (is_task_due agent_id now locked) s.tasks) e

audit_dispatch-Tables :
    (call : ControlCall) (agent : ℕ) (t : AgentTask) (job : Option AutomationJob) (s : ControlDb)
    → Tables (audit_dispatch call agent t job s) s
unfolding audit_dispatch
audit_dispatch-Tables call agent t none s = audit_agent-Tables call _ _ _ _ _ _ _ _ _ s
audit_dispatch-Tables call agent t (some j) s =
    Tables-trans (audit_agent-Tables call _ _ _ _ _ _ _ _ _ _)
      (audit_agent-Tables call _ _ _ _ _ _ _ _ _ s)

-- A task has been written over and, if it is of a job, that job: by what `change` makes of it.
pub data Progress (old new : AgentTask) (change : AutomationJob → AutomationJob) (s s' : ControlDb)
    : Type 0 where
  alone : old.automation_job_id ≡ none → Tables s' (put_task new s) → Progress old new change s s'
  paired :
      (k : ℕ) (j : AutomationJob)
      → old.automation_job_id ≡ some k
      → find_row job_key k s.jobs ≡ some j
      → Tables s' (put_job (change j) (put_task new s))
      → Progress old new change s s'

start_job_of-ok :
    (o : Option ℕ) (now : ℕ) (s s' : ControlDb) (job : Option AutomationJob)
    → start_job_of o now s ≡ ok (job, s')
    → ((o ≡ none) × (s ≡ s'))
      ⊎ ((k : ℕ) × (j : AutomationJob) × (o ≡ some k)
          × (find_row job_key k s.jobs ≡ some j)
          × (put_job (started_job now j) s ≡ s'))
unfolding start_job_of start_automation_job
start_job_of-ok none now s s' job h = inl (refl, returned_state h)
start_job_of-ok (some k) now s s' job h =
    let (r, started, returned) = >>=-eq-ok (start_automation_job k now s) _ h in
    let (j, found, rest) = >>=-eq-ok (required (job_row k s) _) _ started in
    let (queued, written) = >>-eq-ok (guard (is_queued j.status) _) _ rest in
    inr (
      k,
      j,
      refl,
      required-eq-ok (job_row k s) _ found,
      returned_state written ∙ returned_state returned,
    )

pub dispatch-Progress :
    (call : ControlCall) (pki : Pki) (agent : ℕ) (t : AgentTask) (s s' : ControlDb)
    (e : Option AgentTaskEnvelope)
    → dispatch call pki agent t s ≡ ok (e, s')
    → Progress t (dispatched call.readings.now t) (started_job call.readings.now) s s'
unfolding dispatch
dispatch-Progress call pki agent t s s' e h =
    let now = call.readings.now in
    let moved = put_task (dispatched now t) s in
    let ((job, done), started, rest) = >>=-eq-ok (start_job_of t.automation_job_id now moved) _ h in
    let (signature, signed, returned) =
      >>=-eq-ok (pki.sign_task (task_document call.runtime t)) _ rest in
    let kept : Tables s' done =
      subst (λ x. Tables x done) (returned_state returned)
        (audit_dispatch-Tables call agent (dispatched now t) job done) in
    elim (start_job_of-ok t.automation_job_id now moved done job started) [
      | inl (lone, same) ↦ alone lone (subst (λ x. Tables s' x) (sym same) kept)
      | inr (k, j, own, found, written) ↦
          paired k j own found (subst (λ x. Tables s' x) (sym written) kept)
    ]

report_event-Tables :
    (call : ControlCall) (p : AgentTaskResult) (t : AgentTask) (j : AutomationJob) (e : Option ℕ)
    (s : ControlDb)
    → Tables (report_event call p t j e s) s
unfolding report_event append_automation_timeline
report_event-Tables call p t j none s = Tables-refl s
report_event-Tables call p t j (some e) s = record {
  jobs = refl;
  approvals = refl;
  decisions = refl;
  tasks = refl;
}

complete_job_of-ok :
    (call : ControlCall) (p : AgentTaskResult) (t : AgentTask) (o : Option ℕ) (s s' : ControlDb)
    (job : Option AutomationJob)
    → complete_job_of call p t o s ≡ ok (job, s')
    → ((o ≡ none) × Tables s' s)
      ⊎ ((k : ℕ) × (j : AutomationJob) × (o ≡ some k)
          × (find_row job_key k s.jobs ≡ some j)
          × Tables s' (put_job (completed_job p.status t j) s))
unfolding complete_job_of complete_automation_job
complete_job_of-ok call p t none s s' job h =
    inl (refl, subst (λ x. Tables x s) (returned_state h) (Tables-refl s))
complete_job_of-ok call p t (some k) s s' job h =
    let ((j', done), completed, returned) =
      >>=-eq-ok (complete_automation_job k p.status t s) _ h in
    let (j, found, written) = >>=-eq-ok (required (job_row k s) _) _ completed in
    inr (
      k,
      j,
      refl,
      required-eq-ok (job_row k s) _ found,
      subst (λ x. Tables s' x) (sym (returned_state written))
          (subst (λ x. Tables x done) (returned_state returned)
            (report_event-Tables call p t j' j'.event_id done)),
    )

audit_result-Tables :
    (call : ControlCall) (agent : ℕ) (p : AgentTaskResult) (t : AgentTask)
    (job : Option AutomationJob) (s : ControlDb)
    → Tables (audit_result call agent p t job s) s
unfolding audit_result
audit_result-Tables call agent p t none s = audit_agent-Tables call _ _ _ _ _ _ _ _ _ s
audit_result-Tables call agent p t (some j) s =
    Tables-trans (audit_agent-Tables call _ _ _ _ _ _ _ _ _ _)
      (audit_agent-Tables call _ _ _ _ _ _ _ _ _ s)

pub apply_result-Progress :
    (call : ControlCall) (agent : ℕ) (p : AgentTaskResult) (t : AgentTask) (s s' : ControlDb)
    (t' : AgentTask)
    → apply_result call agent p t s ≡ ok (t', s')
    → let new = reported_task call.readings.later p t in
      Progress t new (completed_job p.status new) s s'
unfolding apply_result
apply_result-Progress call agent p t s s' t' h =
    let new = reported_task call.readings.later p t in
    let moved = put_task new s in
    let ((job, done), completed, returned) =
      >>=-eq-ok (complete_job_of call p new t.automation_job_id moved) _ h in
    let kept : Tables s' done =
      subst (λ x. Tables x done) (returned_state returned)
        (audit_result-Tables call agent p new job done) in
    elim (complete_job_of-ok call p new t.automation_job_id moved done job completed) [
      | inl (lone, same) ↦ alone lone (Tables-trans kept same)
      | inr (k, j, own, found, written) ↦ paired k j own found (Tables-trans kept written)
    ]

-- Progress from corresponding states to such keeps the invariant.
pub Progress-IsSound :
    {old new : AgentTask} {change : AutomationJob → AutomationJob} {s s' : ControlDb}
    → find_row task_key old.id s.tasks ≡ some old
    → KeepsTask new old
    → ((j : AutomationJob) → KeepsJob (change j) j × (mirrors new.status (change j).status ≡ true))
    → Progress old new change s s'
    → IsSoundControl s
    → IsSoundControl s'
Progress-IsSound {old} {new} {change} {s} found k keeps (alone lone tables) sound =
    Tables-IsSoundControl tables (lone_moved new old s found k lone sound)
Progress-IsSound {old} {new} {change} {s} found k keeps (paired i j own linked tables) sound =
    Tables-IsSoundControl tables
      (together_moved new old (change j) j i s found k own linked (keeps j).0 (keeps j).1 sound)

reported_task-Keeps :
    (now : ℕ) (p : AgentTaskResult) (t : AgentTask) → KeepsTask (reported_task now p t) t
unfolding reported_task
reported_task-Keeps now p t = record { id = refl; automation_job_id = refl; risk_level = refl }

reported-Keeps :
    (now : ℕ) (p : AgentTaskResult) (t : AgentTask) (j : AutomationJob)
    → let new = reported_task now p t in
      KeepsJob (completed_job p.status new j) j
      × (mirrors new.status (completed_job p.status new j).status ≡ true)
unfolding reported_task completed_job
reported-Keeps now p t j = (
  record { id = refl; requested_by = refl; risk_level = refl; approval_status = refl },
  ground arith,
)

-- What a request for the next task has done: nothing, or a due task has been dispatched.
pub next_task_tx-ok :
    (call : ControlCall) (pki : Pki) (a : AgentPrincipal) (locked : ℕ → Bool) (agent_id : ℕ)
    (s s' : ControlDb) (e : Option AgentTaskEnvelope)
    → next_task_tx call pki a locked agent_id s ≡ ok (e, s')
    → (s ≡ s')
      ⊎ ((t : AgentTask) × (due_task agent_id call.readings.now locked s ≡ some t)
          × (dispatch call pki a.agent_id t s ≡ ok (e, s')))
unfolding next_task_tx
next_task_tx-ok call pki a locked agent_id s s' e h =
    let (allowed, rest) = >>-eq-ok (require_agent_scope a agent_id false) _ h in
    elim (Option-cases (due_task agent_id call.readings.now locked s)) [
      | inl idle ↦ inl (returned_state (rw idle at rest))
      | inr (t, due) ↦ inr (t, due, rw due at rest)
    ]

pub next_task_tx-IsSound :
    (call : ControlCall) (pki : Pki) (a : AgentPrincipal) (locked : ℕ → Bool) (agent_id : ℕ)
    (s s' : ControlDb) (e : Option AgentTaskEnvelope)
    → next_task_tx call pki a locked agent_id s ≡ ok (e, s')
    → IsSoundControl s
    → IsSoundControl s'
next_task_tx-IsSound call pki a locked agent_id s s' e h sound =
    elim (next_task_tx-ok call pki a locked agent_id s s' e h) [
      | inl same ↦ subst IsSoundControl same sound
      | inr (t, due, done) ↦
          let now = call.readings.now in
          Progress-IsSound (due_task-found agent_id now locked s due).0
            (record { id = refl; automation_job_id = refl; risk_level = refl })
            (λ j. (
              record { id = refl; requested_by = refl; risk_level = refl; approval_status = refl },
              refl,
            ))
            (dispatch-Progress call pki a.agent_id t s s' e done) sound
    ]

-- What a report has done: nothing, or the result of a running task has been written.
pub submit_task_result_tx-ok :
    (call : ControlCall) (a : AgentPrincipal) (agent_id task_id : ℕ) (p : AgentTaskResult)
    (s s' : ControlDb) (t' : AgentTask)
    → submit_task_result_tx call a agent_id task_id p s ≡ ok (t', s')
    → (s ≡ s')
      ⊎ ((t : AgentTask) × (find_row task_key t.id s.tasks ≡ some t)
          × (is_running t.status ≡ true)
          × (apply_result call a.agent_id p t s ≡ ok (t', s')))
unfolding submit_task_result_tx
submit_task_result_tx-ok call a agent_id task_id p s s' t' h =
    let (valid, rest) = >>-eq-ok (guard (leb p.duration_ms 900000) _) _ h in
    let (allowed, rest') = >>-eq-ok (require_agent_scope a agent_id false) _ rest in
    let (t, found, report) =
      >>=-eq-ok
        (required
          (find_where (λ (t : AgentTask). t.id) (λ (t : AgentTask). t.agent_id == agent_id) task_id
            s.tasks)
          _)
        _ rest' in
    let (there, own) =
      find_where-found task_key (λ (t : AgentTask). t.agent_id == agent_id) task_id s.tasks
        (required-eq-ok _ _ found) in
    elim (Bool-cases (is_reported t.status)) [
      | inl again ↦ inl (returned_state (rw again at report))
      | inr first ↦
          let open_report = rw first at report in
          let (running, applied) = >>-eq-ok (guard (is_running t.status) _) _ open_report in
          inr (
            t,
            ap (λ n. find_row task_key n s.tasks) (key-find task_key task_id s.tasks there) ∙ there,
            guard-eq-ok (is_running t.status) _ running,
            applied,
          )
    ]

pub submit_task_result_tx-IsSound :
    (call : ControlCall) (a : AgentPrincipal) (agent_id task_id : ℕ) (p : AgentTaskResult)
    (s s' : ControlDb) (t' : AgentTask)
    → submit_task_result_tx call a agent_id task_id p s ≡ ok (t', s')
    → IsSoundControl s
    → IsSoundControl s'
submit_task_result_tx-IsSound call a agent_id task_id p s s' t' h sound =
    elim (submit_task_result_tx-ok call a agent_id task_id p s s' t' h) [
      | inl same ↦ subst IsSoundControl same sound
      | inr (t, found, running, done) ↦
          let keeps = reported-Keeps call.readings.later p t in
          Progress-IsSound found (reported_task-Keeps call.readings.later p t)
            (λ j. ((keeps j).0, (keeps j).1))
            (apply_result-Progress call a.agent_id p t s s' t' done) sound
    ]
