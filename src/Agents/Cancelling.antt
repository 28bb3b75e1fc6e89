-- ===== src/Agents/Cancelling.antt =====
-- `disable_agent` of apps/api/src/aiops_x_api/modules/agent_control/api.py: what it has
-- written, and
-- that it keeps the invariant of the tables.
use aiops_x_enterprise_new.Prelude.{
  ℕ, String, ◌==◌, ◌≡◌, refl, sym, ap, ◌∙◌, true, none, some, List, [], ◌∷◌, arith, inl, inr,
  Bool-cases, Option-cases, subst, ◌⊎◌,
}
use aiops_x_enterprise_new.Core.Errors.{ok, >>=-eq-ok, >>-eq-ok, guard, required}
use aiops_x_enterprise_new.Core.Table.{find_row, find_where, key-find, find_where-found}
use aiops_x_enterprise_new.Identity.Principal.{Principal}
use aiops_x_enterprise_new.Identity.Scope.{require_permission, ensure_project_scope}
use aiops_x_enterprise_new.Automation.Models.{AutomationJob, JobStatus}
use aiops_x_enterprise_new.Automation.Jobs.{is_queued, canceled_job, cancel_queued_automation_job}
use aiops_x_enterprise_new.Automation.Ties.{job_key, task_key, mirrors}
use aiops_x_enterprise_new.Automation.Invariant.{IsSoundControl, Tables-IsSoundControl}
use aiops_x_enterprise_new.Agents.Models.{TaskStatus, AgentTask, EdgeAgent}
use aiops_x_enterprise_new.Agents.Database.{
  ControlDb, ControlCall, put_job, put_task, put_agent, update_asset_agent_state,
}
use aiops_x_enterprise_new.Agents.Access.{is_disabled}
use aiops_x_enterprise_new.Agents.Tasks.{is_waiting}
use aiops_x_enterprise_new.Agents.Tables.{
  Tables, Tables-refl, Tables-trans, returned_state, audit_user-Tables,
  update_asset_agent_state-Tables,
}
use aiops_x_enterprise_new.Agents.Withdrawal.{
  canceled_task, cancel_task, cancel_job_of, is_queued_of, queued_row, cancel_tasks, queued_tasks,
  disabled_agent, withdraw, disable_agent_tx,
}
use aiops_x_enterprise_new.Agents.Soundness.{KeepsJob, KeepsTask}
use aiops_x_enterprise_new.Agents.Dispatch.{Progress, Progress-IsSound}

canceled_task-Keeps :
    (now : ℕ) (t : AgentTask)
    → KeepsTask (canceled_task now t) t × ((canceled_task now t).status ≡ TaskStatus.canceled)
unfolding canceled_task
canceled_task-Keeps now t =
    (record { id = refl; automation_job_id = refl; risk_level = refl }, refl)

canceled_job-Keeps :
    (now : ℕ) (j : AutomationJob)
    → KeepsJob (canceled_job now j) j × ((canceled_job now j).status ≡ JobStatus.canceled)
unfolding canceled_job
canceled_job-Keeps now j =
    (record { id = refl; requested_by = refl; risk_level = refl; approval_status = refl }, refl)

cancel_queued-found :
    (k now : ℕ) (s : ControlDb) {j : AutomationJob}
    → find_row job_key k s.jobs ≡ some j
    → is_queued j.status ≡ true
    → cancel_queued_automation_job k now s ≡ put_job (canceled_job now j) s
unfolding cancel_queued_automation_job
cancel_queued-found k now s found queued = ground (arith, found, queued)

pub queued-mirrors :
    (t : TaskStatus) (j : JobStatus) → is_waiting t ≡ true → mirrors t j ≡ true → is_queued j ≡ true
queued-mirrors t j w m = ground (arith, w, m)

-- A queued task that is canceled takes its job with it.
pub cancel_task-Progress :
    (t : AgentTask) (now : ℕ) (s : ControlDb)
    → find_row task_key t.id s.tasks ≡ some t
    → is_waiting t.status ≡ true
    → IsSoundControl s
    → Progress t (canceled_task now t) (canceled_job now) s (cancel_task (some t) now s)
unfolding cancel_task
cancel_task-Progress t now s found queued sound =
    let moved = put_task (canceled_task now t) s in
    elim (Option-cases t.automation_job_id) [
      | inl lone ↦
          Progress.alone lone
            (subst (λ o. Tables (cancel_job_of o now moved) moved) (sym lone) (Tables-refl moved))
      | inr (k, own) ↦
          let (j, linked, state, level) = sound.tied t.id t found k own in
          let is_next = queued-mirrors t.status j.status queued state in
          Progress.paired k j own linked (
            subst (λ o. Tables (cancel_job_of o now moved) (put_job (canceled_job now j) moved))
              (sym own)
              (subst (λ x. Tables x (put_job (canceled_job now j) moved))
                (sym (cancel_queued-found k now moved linked is_next)) (Tables-refl _)))
    ]

cancel_task-IsSound :
    (t : AgentTask) (now : ℕ) (s : ControlDb)
    → find_row task_key t.id s.tasks ≡ some t
    → is_waiting t.status ≡ true
    → IsSoundControl s
    → IsSoundControl (cancel_task (some t) now s)
cancel_task-IsSound t now s found queued sound =
    let (keeps, is_canceled) = canceled_task-Keeps now t in
    Progress-IsSound found keeps
      (λ j.
        let (kept, canceled) = canceled_job-Keeps now j in (kept, rw (is_canceled, canceled) refl))
      (cancel_task-Progress t now s found queued sound) sound

-- What is looked up to be canceled is in the table and queued.
pub queued_row-found :
    (agent i : ℕ) (s : ControlDb) {t : AgentTask}
    → queued_row agent i s ≡ some t
    → (find_row task_key t.id s.tasks ≡ some t) × (is_waiting t.status ≡ true)
queued_row-found agent i s {t} h =
    let (found, test) = find_where-found task_key (is_queued_of agent) i s.tasks h in
    (
      ap (λ n. find_row task_key n s.tasks) (key-find task_key i s.tasks found) ∙ found,
      ground (arith, test),
    )

cancel_none-IsSound :
    (now : ℕ) (s : ControlDb) → IsSoundControl s → IsSoundControl (cancel_task none now s)
unfolding cancel_task
cancel_none-IsSound now s sound = sound

cancel_tasks-IsSound :
    (agent now : ℕ) (is : List ℕ) (s : ControlDb)
    → IsSoundControl s
    → IsSoundControl (cancel_tasks agent now is s)
unfolding cancel_tasks
cancel_tasks-IsSound agent now [] s sound = sound
cancel_tasks-IsSound agent now (i ∷ is) s sound =
    cancel_tasks-IsSound agent now is (cancel_task (queued_row agent i s) now s)
      (elim (Option-cases (queued_row agent i s)) [
        | inl gone ↦
            subst (λ o. IsSoundControl (cancel_task o now s)) (sym gone)
              (cancel_none-IsSound now s sound)
        | inr (t, found) ↦
            let (there, queued) = queued_row-found agent i s found in
            subst (λ o. IsSoundControl (cancel_task o now s)) (sym found)
              (cancel_task-IsSound t now s there queued sound)
      ])

-- What a withdrawal has done: nothing, or the queued tasks of the agent have been canceled.
pub disable_agent_tx-ok :
    (call : ControlCall) (p : Principal) (id : ℕ) (reason : String) (s s' : ControlDb)
    (a' : EdgeAgent)
    → disable_agent_tx call p id reason s ≡ ok (a', s')
    → (s ≡ s')
      ⊎ ((a : EdgeAgent) × Tables s' (cancel_tasks a.id call.readings.now (queued_tasks a.id s) s))
unfolding disable_agent_tx withdraw
disable_agent_tx-ok call p id reason s s' a' h =
    let (needed, allowed, found) = >>=-eq-ok (require_permission "agent:write" p) _ h in
    let (a, there, scoped) =
      >>=-eq-ok
        (required
          (find_where (λ (a : EdgeAgent). a.id) (λ (a : EdgeAgent). a.tenant_id == p.tenant_id) id
            s.agents)
          _)
        _ found in
    let (in_scope, acts) = >>-eq-ok (ensure_project_scope p needed a.project_id) _ scoped in
    elim (Bool-cases (is_disabled a.status)) [
      | inl again ↦ inl (returned_state (rw again at acts))
      | inr first ↦
          let (idle, writes) = >>-eq-ok (guard _ _) _ (rw first at acts) in
          let new = disabled_agent call p reason a in
          let done = cancel_tasks a.id call.readings.now (queued_tasks a.id s) s in
          let (told, updated, returned) =
            >>=-eq-ok
              (update_asset_agent_state call.readings.later p.tenant_id a.asset_id "not_installed"
                none (put_agent new done))
              _ writes in
          let kept =
            update_asset_agent_state-Tables call.readings.later p.tenant_id a.asset_id
              "not_installed" none (put_agent new done) told updated in
          inr (
            a,
            subst (λ x. Tables x done) (returned_state returned)
                (Tables-trans (audit_user-Tables call p _ _ _ _ _ told) (record {
                  jobs = kept.jobs;
                  approvals = kept.approvals;
                  decisions = kept.decisions;
                  tasks = kept.tasks;
                })),
          )
    ]

pub disable_agent_tx-IsSound :
    (call : ControlCall) (p : Principal) (id : ℕ) (reason : String) (s s' : ControlDb)
    (a' : EdgeAgent)
    → disable_agent_tx call p id reason s ≡ ok (a', s')
    → IsSoundControl s
    → IsSoundControl s'
disable_agent_tx-IsSound call p id reason s s' a' h sound =
    elim (disable_agent_tx-ok call p id reason s s' a' h) [
      | inl same ↦ subst IsSoundControl same sound
      | inr (a, tables) ↦
          Tables-IsSoundControl tables
            (cancel_tasks-IsSound a.id call.readings.now (queued_tasks a.id s) s sound)
    ]
