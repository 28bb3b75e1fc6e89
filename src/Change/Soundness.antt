-- ===== src/Change/Soundness.antt =====
-- The invariant of the change tables, kept by every transaction of
-- apps/api/src/aiops_x_api/modules/change/api.py.
use aiops_x_enterprise_new.Prelude.{
  ℕ, ◌==◌, ==_refl, ==_iff, ◌≡◌, refl, sym, ap, subst, ◌∙◌, true, false, ◌&&◌, some, List, [], ◌∷◌,
  arith, All, All-map, Bool-cases, inl, inr, false≢true,
}
use aiops_x_enterprise_new.Core.Errors.{ok}
use aiops_x_enterprise_new.References.{Directory}
use aiops_x_enterprise_new.Change.Models.{
  ChangeRequest, ChangeApprovalDecision, ChangeCreate, ChangeUpdate, ChangeStatusUpdate,
  ApprovalDecisionCreate, ChangeDb,
}
use aiops_x_enterprise_new.Change.Effects.{Call, find_change, put_change, has_change, has_decided}
use aiops_x_enterprise_new.Change.Draft.{draft_change, create_tx, update_tx}
use aiops_x_enterprise_new.Change.Approval.{submit_tx, new_decision, decided, decide_tx}
use aiops_x_enterprise_new.Change.Execution.{status_tx}
use aiops_x_enterprise_new.Change.Outcomes.{
  decide_tx-ok, submit_tx-ok, status_tx-ok, create_tx-ok, update_tx-ok,
}
use aiops_x_enterprise_new.Change.Rows.{
  NotByRequester, IsSound, draft_change-IsSound, patched_change-IsSound, submitted-IsSound,
  moved-IsSound, decided-IsSound, other_decision-IsSound,
}

-- Nobody has decided on one change twice.
abbrev pub OneEach : List ChangeApprovalDecision → Type 0
OneEach [] = Unit
OneEach (d ∷ ds) = (has_decided d.change_id d.approver_id ds ≡ false) × OneEach ds

abbrev pub Known : List ChangeRequest → ChangeApprovalDecision → Type 0
Known changes d = has_change d.change_id changes ≡ true

pub record IsSoundDb (s : ChangeDb) : Type 0 where
  pub rows : All (IsSound s.decisions) s.changes
  pub known : All (Known s.changes) s.decisions
  pub one_each : OneEach s.decisions

find_change-IsSound :
    (tenant id : ℕ) (ds : List ChangeApprovalDecision) (xs : List ChangeRequest) {c : ChangeRequest}
    → find_change tenant id xs ≡ some c
    → All (IsSound ds) xs
    → IsSound ds c
find_change-IsSound tenant id ds [] e h = cc
find_change-IsSound tenant id ds (x ∷ xs) {c} e h =
    elim (Bool-cases (x.id == id && x.tenant_id == tenant)) [
      | inl here ↦ let same : x ≡ c = ground arith in subst (IsSound ds) same h.0
      | inr there ↦ find_change-IsSound tenant id ds xs (rw there at e) h.1
    ]

pub has_change-find :
    (tenant id : ℕ) (xs : List ChangeRequest) {c : ChangeRequest}
    → find_change tenant id xs ≡ some c
    → has_change c.id xs ≡ true
has_change-find tenant id [] e = cc
has_change-find tenant id (x ∷ xs) {c} e =
    ground (arith, ==_refl c.id, has_change-find tenant id xs {c = c})

pub has_change-put :
    (i : ℕ) (c : ChangeRequest) (xs : List ChangeRequest)
    → has_change i (put_change c xs) ≡ has_change i xs
unfolding put_change
has_change-put i c [] = refl
has_change-put i c (x ∷ xs) = ground (arith, has_change-put i c xs)

-- The new row is sound, and each row with another identifier stays so.
All-put :
    (ds ds' : List ChangeApprovalDecision) (c : ChangeRequest) (xs : List ChangeRequest)
    → ((x : ChangeRequest) → (x.id == c.id) ≡ false → IsSound ds x → IsSound ds' x)
    → IsSound ds' c
    → All (IsSound ds) xs
    → All (IsSound ds') (put_change c xs)
unfolding put_change
All-put ds ds' c [] keep new h = tt
All-put ds ds' c (x ∷ xs) keep new h = elim (Bool-cases (x.id == c.id)) [
  | inl same ↦ rw same (new, All-put ds ds' c xs keep new h.1)
  | inr other ↦ rw other (keep x other h.0, All-put ds ds' c xs keep new h.1)
]

Known-put :
    (c : ChangeRequest) (xs : List ChangeRequest) (ds : List ChangeApprovalDecision)
    → All (Known xs) ds
    → All (Known (put_change c xs)) ds
Known-put c xs ds h = All-map ds (λ d k. has_change-put d.change_id c xs ∙ k) h

-- A handler that writes one row and no decision.
row_written :
    (s s' : ChangeDb) (c' : ChangeRequest)
    → s'.changes ≡ put_change c' s.changes
    → s'.decisions ≡ s.decisions
    → IsSound s.decisions c'
    → IsSoundDb s
    → IsSoundDb s'
row_written s s' c' e d new h = record {
  rows = rw (e, d) (All-put s.decisions s.decisions c' s.changes (λ x _ k. k) new h.rows);
  known = rw (e, d) (Known-put c' s.changes s.decisions h.known);
  one_each = rw d h.one_each;
}

pub update_tx-IsSoundDb :
    (call : Call) (dir : Directory) (id : ℕ) (u : ChangeUpdate) (s s' : ChangeDb)
    (c' : ChangeRequest)
    → update_tx call dir id u s ≡ ok (c', s')
    → IsSoundDb s
    → IsSoundDb s'
update_tx-IsSoundDb call dir id u s s' c' h inv =
    let (c, w) = update_tx-ok call dir id u s s' c' h in
    let old =
      find_change-IsSound call.principal.tenant_id id s.decisions s.changes w.found inv.rows in
    row_written s s' c' w.changes w.decisions
      (rw w.row (patched_change-IsSound u c c' s.decisions w.was_draft w.row old)) inv

pub submit_tx-IsSoundDb :
    (call : Call) (id : ℕ) (s s' : ChangeDb) (c' : ChangeRequest)
    → submit_tx call id s ≡ ok (c', s')
    → IsSoundDb s
    → IsSoundDb s'
submit_tx-IsSoundDb call id s s' c' h inv =
    let (c, w) = submit_tx-ok call id s s' c' h in
    let old =
      find_change-IsSound call.principal.tenant_id id s.decisions s.changes w.found inv.rows in
    row_written s s' c' w.changes w.decisions
      (rw w.row (submitted-IsSound call.readings.now c s.decisions w.allowed old)) inv

pub status_tx-IsSoundDb :
    (call : Call) (dir : Directory) (id : ℕ) (u : ChangeStatusUpdate) (s s' : ChangeDb)
    (c' : ChangeRequest)
    → status_tx call dir id u s ≡ ok (c', s')
    → IsSoundDb s
    → IsSoundDb s'
status_tx-IsSoundDb call dir id u s s' c' h inv =
    let (c, w) = status_tx-ok call dir id u s s' c' h in
    let old =
      find_change-IsSound call.principal.tenant_id id s.decisions s.changes w.found inv.rows in
    row_written s s' c' w.changes w.decisions
      (rw w.row (moved-IsSound call.readings.now u c s.decisions w.allowed w.ready old)) inv

id-decided :
    (now : ℕ) (p : ApprovalDecisionCreate) (ds : List ChangeApprovalDecision) (c : ChangeRequest)
    → (decided now p.decision ds c).id ≡ c.id
unfolding decided
id-decided now p ds c = ground arith

pub decide_tx-IsSoundDb :
    (call : Call) (id : ℕ) (p : ApprovalDecisionCreate) (s s' : ChangeDb) (c' : ChangeRequest)
    → decide_tx call id p s ≡ ok (c', s')
    → IsSoundDb s
    → IsSoundDb s'
unfolding new_decision
decide_tx-IsSoundDb call id p s s' c' h inv =
    let (c, w) = decide_tx-ok call id p s s' c' h in
    let ds' : List ChangeApprovalDecision = new_decision call p c ∷ s.decisions in
    let old =
      find_change-IsSound call.principal.tenant_id id s.decisions s.changes w.found inv.rows in
    let same : c'.id ≡ c.id =
      ap (λ (x : ChangeRequest). x.id) w.row ∙ id-decided call.readings.now p ds' c in
    let there : has_change c.id (put_change c' s.changes) ≡ true =
      has_change-put c.id c' s.changes
      ∙ has_change-find call.principal.tenant_id id s.changes w.found in
    record {
      rows =
          rw (w.changes, w.decisions)
            (All-put s.decisions ds' c' s.changes
              (λ x ne k. other_decision-IsSound call p c x s.decisions (rw same at ne) k)
              (rw w.row (decided-IsSound call p c s.decisions w.was_pending w.not_own old))
              inv.rows);
      known = rw (w.changes, w.decisions) (there, Known-put c' s.changes s.decisions inv.known);
      one_each = rw w.decisions (w.first_time, inv.one_each);
    }

-- A decision is on a change that is known, so on none whose identifier is new.
none_on_new :
    (id : ℕ) (changes : List ChangeRequest) (d : ChangeApprovalDecision)
    → has_change id changes ≡ false
    → Known changes d
    → (d.change_id == id) ≡ false
none_on_new id changes d fresh k = elim (Bool-cases (d.change_id == id)) [
  | inr other ↦ other
  | inl same ↦ absurd (false≢true (sym fresh ∙ rw ((==_iff d.change_id id).0 same) at k))
]

pub create_tx-IsSoundDb :
    (call : Call) (dir : Directory) (p : ChangeCreate) (s s' : ChangeDb) (c' : ChangeRequest)
    → create_tx call dir p s ≡ ok (c', s')
    → IsSoundDb s
    → IsSoundDb s'
unfolding draft_change
create_tx-IsSoundDb call dir p s s' c' h inv =
    let w = create_tx-ok call dir p s s' c' h in
    let others : All (NotByRequester (draft_change call p)) s.decisions =
      All-map s.decisions
        (λ d k e.
          absurd (false≢true (sym (none_on_new call.readings.change_id s.changes d w.fresh k) ∙ e)))
        inv.known in
    record {
      rows =
          subst (λ ds. All (IsSound ds) s'.changes) (sym w.decisions)
            (rw w.changes (rw w.row (draft_change-IsSound call p s.decisions others), inv.rows));
      known =
          rw (w.changes, w.decisions) (All-map s.decisions (λ d k. ground (arith, k)) inv.known);
      one_each = rw w.decisions inv.one_each;
    }
