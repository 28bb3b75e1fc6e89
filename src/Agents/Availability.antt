-- ===== src/Agents/Availability.antt =====
-- The errors that `next_task` of
-- apps/api/src/aiops_x_api/modules/agent_control/api.py can still raise.
use aiops_x_enterprise_new.Prelude.{
  ℕ, ==_refl, ◌≡◌, refl, Bool, true, false, Option, none, some, arith, ◌⊎◌, inl, inr, Option-cases,
}
use aiops_x_enterprise_new.Core.Errors.{ApplicationError, Result, ok, err, ◌>>=◌, is_ok}
use aiops_x_enterprise_new.Core.Table.{find_row}
use aiops_x_enterprise_new.Automation.Models.{AutomationJob}
use aiops_x_enterprise_new.Automation.Jobs.{is_queued, start_automation_job}
use aiops_x_enterprise_new.Automation.Ties.{job_key}
use aiops_x_enterprise_new.Automation.Invariant.{IsSoundControl}
use aiops_x_enterprise_new.Agents.Models.{AgentTask}
use aiops_x_enterprise_new.Agents.Database.{ControlDb, ControlCall, put_task, settle}
use aiops_x_enterprise_new.Agents.Access.{Pki, AgentPrincipal, require_agent_scope}
use aiops_x_enterprise_new.Agents.Tasks.{
  is_task_due, due_task, dispatched, start_job_of, AgentTaskEnvelope, task_document, dispatch,
  next_task_tx, next_task,
}
use aiops_x_enterprise_new.Agents.Dispatch.{due_task-found}
use aiops_x_enterprise_new.Agents.Cancelling.{queued-mirrors}

start_job_of-is_ok :
    (o : Option ℕ) (now : ℕ) (s : ControlDb)
    → ((k : ℕ)
        → o ≡ some k
        → (j : AutomationJob) × (find_row job_key k s.jobs ≡ some j) × (is_queued j.status ≡ true))
    → is_ok (start_job_of o now s) ≡ true
unfolding start_job_of start_automation_job
start_job_of-is_ok none now s h = refl
start_job_of-is_ok (some k) now s h =
    let (j, found, queued) = h k refl in ground (arith, found, queued)

-- The second of two steps is all that can fail, if the first one does not.
fails_second {κ μ ℓ} :
    {A : Type κ} {B : Type μ} {C : Type ℓ} (r : Result A) (q : Result B) (f : A → B → C)
    → is_ok r ≡ true
    → let both = r >>= λ x. q >>= λ y. ok (f x y) in
      (is_ok both ≡ true) ⊎ ((e : ApplicationError) × (q ≡ err e) × (both ≡ err e))
fails_second (ok x) (ok y) f h = inl refl
fails_second (ok x) (err e) f h = inr (e, refl, refl)
fails_second (err e) q f h = cc

-- An answer, or the error of signing the document of the due task.
abbrev IsAnswered :
    ControlCall → Pki → AgentTask → Result (Option AgentTaskEnvelope × ControlDb) → Type 0
IsAnswered call pki t r =
    (is_ok r ≡ true)
    ⊎ ((e : ApplicationError) × (pki.sign_task (task_document call.runtime t) ≡ err e)
        × (r ≡ err e))

dispatch-IsAnswered :
    (call : ControlCall) (pki : Pki) (agent : ℕ) (t : AgentTask) (s : ControlDb)
    → is_ok (
        start_job_of t.automation_job_id call.readings.now
          (put_task (dispatched call.readings.now t) s))
      ≡ true
    → IsAnswered call pki t (dispatch call pki agent t s)
unfolding dispatch
dispatch-IsAnswered call pki agent t s h =
    fails_second
      (start_job_of t.automation_job_id call.readings.now
        (put_task (dispatched call.readings.now t) s))
      (pki.sign_task (task_document call.runtime t)) _ h

is_ok-settle {ℓ} :
    {A : Type ℓ} (r : Result (A × ControlDb)) (s : ControlDb)
    → is_ok r ≡ true
    → is_ok (settle r s).0 ≡ true
unfolding settle
is_ok-settle (ok r) s h = refl
is_ok-settle (err e) s h = h

-- The job of a due task is queued as the task is.
due_job :
    (agent now : ℕ) (locked : ℕ → Bool) (s : ControlDb) (t : AgentTask)
    → IsSoundControl s
    → due_task agent now locked s ≡ some t
    → (k : ℕ) → t.automation_job_id ≡ some k
    → (j : AutomationJob) × (find_row job_key k s.jobs ≡ some j) × (is_queued j.status ≡ true)
unfolding is_task_due
due_job agent now locked s t sound due k own =
    let (found, is_it_due) = due_task-found agent now locked s due in
    let (j, there, state, level) = sound.tied t.id t found k own in
    (j, there, queued-mirrors t.status j.status (ground (arith, is_it_due)) state)

-- What a request for the next task comes to.
abbrev pub IsFetched :
    ControlCall
    → Pki
    → Option AgentTask
    → ControlDb
    → Result (Option AgentTaskEnvelope) × ControlDb
    → Type 0
IsFetched call pki none s r = is_ok r.0 ≡ true
IsFetched call pki (some t) s r =
    (is_ok r.0 ≡ true)
    ⊎ ((e : ApplicationError) × (pki.sign_task (task_document call.runtime t) ≡ err e)
        × (r ≡ (err e, s)))

settled :
    (call : ControlCall) (pki : Pki) (t : AgentTask) (s : ControlDb)
    (r : Result (Option AgentTaskEnvelope × ControlDb))
    → IsAnswered call pki t r
    → IsFetched call pki (some t) s (settle r s)
unfolding settle
settled call pki t s r (inl fine) = inl (is_ok-settle r s fine)
settled call pki t s r (inr (e, unsigned, same)) = inr (e, unsigned, rw (same, settle) refl)

fetched :
    (call : ControlCall) (pki : Pki) (a : AgentPrincipal) (locked : ℕ → Bool) (s : ControlDb)
    → IsSoundControl s
    → require_agent_scope a a.agent_id false ≡ ok tt
    → IsFetched call pki
        (due_task a.agent_id call.readings.now locked s)
        s
        (settle (next_task_tx call pki a locked a.agent_id s) s)
unfolding next_task_tx settle
fetched call pki a locked s sound allowed =
    let now = call.readings.now in
    elim (Option-cases (due_task a.agent_id now locked s)) [
      | inl idle ↦ rw (allowed, idle) refl
      | inr (t, due) ↦
          rw (allowed, due)
            (settled call pki t s (dispatch call pki a.agent_id t s) (
              dispatch-IsAnswered call pki a.agent_id t s (
                start_job_of-is_ok t.automation_job_id now (put_task (dispatched now t) s)
                  (due_job a.agent_id now locked s t sound due))))
    ]

-- In tables that satisfy the invariant, an agent that asks for its own tasks with its current
-- certificate is answered, whether a task is due or not; but if a task is due whose document cannot
-- be signed, the request may end with the error of signing, and then changes nothing. No
-- conflict of
-- states can end it.
pub fetch_succeeds :
    (call : ControlCall) (pki : Pki) (a : AgentPrincipal) (locked : ℕ → Bool) (s : ControlDb)
    → IsSoundControl s
    → a.is_current_certificate ≡ true
    → IsFetched call pki
        (due_task a.agent_id call.readings.now locked s)
        s
        (next_task call pki a locked a.agent_id s)
unfolding next_task require_agent_scope
fetch_succeeds call pki a locked s sound current =
    fetched call pki a locked s sound (ground (arith, ==_refl a.agent_id, current))
