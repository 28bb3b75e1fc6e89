-- ===== src/Change/Steps.antt =====
-- The requests to apps/api/src/aiops_x_api/modules/change/api.py, one after the other, and that
-- each
-- keeps the invariant of the tables.
use aiops_x_enterprise_new.Prelude.{ℕ, ◌≡◌, refl}
use aiops_x_enterprise_new.Core.Errors.{Result, ok, err}
use aiops_x_enterprise_new.References.{Directory}
use aiops_x_enterprise_new.Change.Models.{
  ChangeRequest, ChangeCreate, ChangeUpdate, ChangeStatusUpdate, ApprovalDecisionCreate, ChangeDb,
}
use aiops_x_enterprise_new.Change.Effects.{Call, commit}
use aiops_x_enterprise_new.Change.Draft.{create_tx, create_change, update_tx, update_change}
use aiops_x_enterprise_new.Change.Approval.{submit_tx, submit_change, decide_tx, decide_change}
use aiops_x_enterprise_new.Change.Execution.{status_tx, change_status}
use aiops_x_enterprise_new.Change.Soundness.{
  IsSoundDb, update_tx-IsSoundDb, submit_tx-IsSoundDb, status_tx-IsSoundDb, decide_tx-IsSoundDb,
  create_tx-IsSoundDb,
}

-- One request to the module, by any caller, whether it succeeds or not.
pub data Step (s : ChangeDb) : ChangeDb → Type 0 where
  create :
      (call : Call) (dir : Directory) (p : ChangeCreate) → Step s (create_change call dir p s).1
  update :
      (call : Call) (dir : Directory) (id : ℕ) (u : ChangeUpdate)
      → Step s (update_change call dir id u s).1
  submit : (call : Call) (id : ℕ) → Step s (submit_change call id s).1
  decide :
      (call : Call) (id : ℕ) (p : ApprovalDecisionCreate) → Step s (decide_change call id p s).1
  move :
      (call : Call) (dir : Directory) (id : ℕ) (u : ChangeStatusUpdate)
      → Step s (change_status call dir id u s).1

-- Any number of requests, one after the other.
pub data Reach (s : ChangeDb) : ChangeDb → Type 0 where
  here : Reach s s
  next : {t u : ChangeDb} → Reach s t → Step t u → Reach s u

commit-IsSoundDb :
    (r : Result (ChangeRequest × ChangeDb)) (s : ChangeDb)
    → ((c' : ChangeRequest) (s' : ChangeDb) → r ≡ ok (c', s') → IsSoundDb s')
    → IsSoundDb s
    → IsSoundDb (commit r s).1
unfolding commit
commit-IsSoundDb (err e) s keep h = h
commit-IsSoundDb (ok (c, s')) s keep h = keep c s' refl

-- Every request keeps the invariant of the tables: whoever calls, on whatever change, and whether
-- the request succeeds, is refused, or is rolled back.
pub Step-IsSoundDb : {s t : ChangeDb} → Step s t → IsSoundDb s → IsSoundDb t
unfolding create_change update_change submit_change decide_change change_status
Step-IsSoundDb {s} (create call dir p) h =
    commit-IsSoundDb (create_tx call dir p s) s
      (λ c' s' e. create_tx-IsSoundDb call dir p s s' c' e h) h
Step-IsSoundDb {s} (update call dir id u) h =
    commit-IsSoundDb (update_tx call dir id u s) s
      (λ c' s' e. update_tx-IsSoundDb call dir id u s s' c' e h) h
Step-IsSoundDb {s} (submit call id) h =
    commit-IsSoundDb (submit_tx call id s) s (λ c' s' e. submit_tx-IsSoundDb call id s s' c' e h) h
Step-IsSoundDb {s} (decide call id p) h =
    commit-IsSoundDb (decide_tx call id p s) s
      (λ c' s' e. decide_tx-IsSoundDb call id p s s' c' e h) h
Step-IsSoundDb {s} (move call dir id u) h =
    commit-IsSoundDb (status_tx call dir id u s) s
      (λ c' s' e. status_tx-IsSoundDb call dir id u s s' c' e h) h

pub Reach-IsSoundDb : {s t : ChangeDb} → Reach s t → IsSoundDb s → IsSoundDb t
Reach-IsSoundDb here h = h
Reach-IsSoundDb (next r st) h = Step-IsSoundDb st (Reach-IsSoundDb r h)
