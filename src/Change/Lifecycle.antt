-- ===== src/Change/Lifecycle.antt =====
-- How one change request may differ after a request to
-- apps/api/src/aiops_x_api/modules/change/api.py, whichever change the request was about.
use mathlib.Core.List.{Memᴰ}
use aiops_x_enterprise_new.Prelude.{
  ℕ, ◌==◌, ==_refl, ◌≡◌, refl, sym, ap, ◌∙◌, subst, true, false, some, List, [], ◌∷◌, arith,
  Bool-cases, inl, inr, false≢true, ◌&&◌, ==_iff,
}
use aiops_x_enterprise_new.Core.Errors.{Result, ok, err}
use aiops_x_enterprise_new.Audit.Models.{AuditStore}
use aiops_x_enterprise_new.Change.Models.{ChangeRequest, ChangeCreate, ChangeDb}
use aiops_x_enterprise_new.Change.Effects.{Call, find_change, put_change, has_change, commit}
use aiops_x_enterprise_new.Change.Draft.{
  draft_change, create_tx, create_change, update_tx, update_change,
}
use aiops_x_enterprise_new.Change.Approval.{
  new_decision, submit_tx, submit_change, decide_tx, decide_change,
}
use aiops_x_enterprise_new.Change.Execution.{status_tx, change_status}
use aiops_x_enterprise_new.Change.Outcomes.{
  decide_tx-ok, submit_tx-ok, status_tx-ok, create_tx-ok, update_tx-ok,
}
use aiops_x_enterprise_new.Change.Soundness.{has_change-find, has_change-put}
use aiops_x_enterprise_new.Change.Steps.{Step, Reach}
use aiops_x_enterprise_new.Change.FourEyes.{no_changes}
use aiops_x_enterprise_new.Change.Evolution.{
  Evolves, unchanged-Evolves, patched-Evolves, submitted-Evolves, decided-Evolves, moved-Evolves,
}

-- No two rows of the table have the same identifier.
abbrev pub UniqueIds : List ChangeRequest → Type 0
UniqueIds [] = Unit
UniqueIds (c ∷ rest) = (has_change c.id rest ≡ false) × UniqueIds rest

put_change-UniqueIds :
    (c : ChangeRequest) (xs : List ChangeRequest) → UniqueIds xs → UniqueIds (put_change c xs)
unfolding put_change
put_change-UniqueIds c [] h = tt
put_change-UniqueIds c (x ∷ xs) h = elim (Bool-cases (x.id == c.id)) [
  | inl same ↦
      let at_c : x.id ≡ c.id = ground arith in
      rw same (
        has_change-put c.id c xs ∙ subst (λ i. has_change i xs ≡ false) at_c h.0,
        put_change-UniqueIds c xs h.1,
      )
  | inr other ↦ rw other (has_change-put x.id c xs ∙ h.0, put_change-UniqueIds c xs h.1)
]

has_change-member :
    {x : ChangeRequest} {xs : List ChangeRequest} → Memᴰ x xs → has_change x.id xs ≡ true
has_change-member {x} (Memᴰ.head e) = rw e (ground (arith, ==_refl x.id))
has_change-member {x} (Memᴰ.tail m) = ground (arith, has_change-member m)

-- The row that a handler finds is the only one with its identifier.
found_unique :
    (tenant id : ℕ) {c r : ChangeRequest} {xs : List ChangeRequest}
    → Memᴰ r xs
    → UniqueIds xs
    → find_change tenant id xs ≡ some c
    → r.id ≡ c.id
    → r ≡ c
found_unique tenant id {c} {r} (Memᴰ.head {x} {xs} e) h f i =
    elim (Bool-cases (x.id == id && x.tenant_id == tenant)) [
      | inl here ↦ let first : x ≡ c = ground arith in e ∙ first
      | inr there ↦
          let later : find_change tenant id xs ≡ some c = rw there at f in
          let again : has_change c.id xs ≡ true = has_change-find tenant id xs later in
          let named : x.id ≡ c.id = sym (ap (λ (z : ChangeRequest). z.id) e) ∙ i in
          absurd (false≢true (sym h.0 ∙ subst (λ k. has_change k xs ≡ true) (sym named) again))
    ]
found_unique tenant id {c} {r} (Memᴰ.tail {x} {xs} m) h f i =
    elim (Bool-cases (x.id == id && x.tenant_id == tenant)) [
      | inl here ↦
          let first : x ≡ c = ground arith in
          let named : r.id ≡ x.id = i ∙ sym (ap (λ (z : ChangeRequest). z.id) first) in
          absurd
            (false≢true (sym h.0 ∙ subst (λ k. has_change k xs ≡ true) named (has_change-member m)))
      | inr there ↦ found_unique tenant id m h.1 (rw there at f) i
    ]

put_change-member :
    (c' : ChangeRequest) {r : ChangeRequest} {xs : List ChangeRequest}
    → (r.id == c'.id) ≡ true
    → Memᴰ r xs
    → Memᴰ c' (put_change c' xs)
unfolding put_change
put_change-member c' {r} same (Memᴰ.head {x} {xs} e) =
    let here : (x.id == c'.id) ≡ true =
      subst (λ (z : ChangeRequest). (z.id == c'.id) ≡ true) e same in
    Memᴰ.head (rw here refl)
put_change-member c' {r} same (Memᴰ.tail {x} {xs} m) = Memᴰ.tail (put_change-member c' same m)

put_change-other :
    (c' : ChangeRequest) {r : ChangeRequest} {xs : List ChangeRequest}
    → (r.id == c'.id) ≡ false
    → Memᴰ r xs
    → Memᴰ r (put_change c' xs)
unfolding put_change
put_change-other c' {r} other (Memᴰ.head {x} {xs} e) =
    let here : (x.id == c'.id) ≡ false =
      subst (λ (z : ChangeRequest). (z.id == c'.id) ≡ false) e other in
    Memᴰ.head (rw here e)
put_change-other c' {r} other (Memᴰ.tail {x} {xs} m) = Memᴰ.tail (put_change-other c' other m)

put_change-Evolves :
    (tenant id : ℕ) {c c' r : ChangeRequest} {xs : List ChangeRequest}
    → Memᴰ r xs
    → UniqueIds xs
    → find_change tenant id xs ≡ some c
    → Evolves c c'
    → (r' : ChangeRequest) × Memᴰ r' (put_change c' xs) × Evolves r r'
put_change-Evolves tenant id {c} {c'} {r} {xs} m h f w = elim (Bool-cases (r.id == c'.id)) [
  | inl same ↦
      let named : r.id ≡ c.id = (==_iff r.id c'.id).0 same ∙ w.id in
      let own : r ≡ c = found_unique tenant id m h f named in
      (c', put_change-member c' same m, subst (λ z. Evolves z c') (sym own) w)
  | inr other ↦ (r, put_change-other c' other m, unchanged-Evolves r)
]

-- What a request does to the table of changes as a whole.
record Develops (s s' : ChangeDb) : Type 0 where
  unique : UniqueIds s.changes → UniqueIds s'.changes
  evolves :
      UniqueIds s.changes
      → {c : ChangeRequest} → Memᴰ c s.changes
      → (c' : ChangeRequest) × Memᴰ c' s'.changes × Evolves c c'

one_row :
    (tenant id : ℕ) (s s' : ChangeDb) (c c' : ChangeRequest)
    → find_change tenant id s.changes ≡ some c
    → s'.changes ≡ put_change c' s.changes
    → Evolves c c'
    → Develops s s'
one_row tenant id s s' c c' found e w = record {
  unique = λ h. rw e (put_change-UniqueIds c' s.changes h);
  evolves = λ h m. rw e (put_change-Evolves tenant id m h found w);
}

commit-Develops :
    (r : Result (ChangeRequest × ChangeDb)) (s : ChangeDb)
    → ((c' : ChangeRequest) (s' : ChangeDb) → r ≡ ok (c', s') → Develops s s')
    → Develops s (commit r s).1
unfolding commit
commit-Develops (err e) s keep = record {
  unique = λ h. h;
  evolves = λ h {c} m. (c, m, unchanged-Evolves c);
}
commit-Develops (ok (c, s')) s keep = keep c s' refl

fresh_row :
    (call : Call) (p : ChangeCreate) (s : ChangeDb) (c' : ChangeRequest)
    → c' ≡ draft_change call p
    → has_change call.readings.change_id s.changes ≡ false
    → has_change c'.id s.changes ≡ false
unfolding draft_change
fresh_row call p s c' e fresh = rw e fresh

Step-Develops : {s t : ChangeDb} → Step s t → Develops s t
unfolding create_change update_change submit_change decide_change change_status
Step-Develops {s} (Step.create call dir p) = commit-Develops (create_tx call dir p s) s (λ c' s' e.
    let w = create_tx-ok call dir p s s' c' e in
    record {
      unique = λ h. rw w.changes (fresh_row call p s c' w.row w.fresh, h);
      evolves = λ h {c} m. (c, rw w.changes (Memᴰ.tail m), unchanged-Evolves c);
    })
Step-Develops {s} (Step.update call dir id u) =
    commit-Develops (update_tx call dir id u s) s (λ c' s' e.
      let (c, w) = update_tx-ok call dir id u s s' c' e in
      one_row call.principal.tenant_id id s s' c c' w.found w.changes
        (subst (Evolves c) (sym w.row) (patched-Evolves u c'.title c'.description c w.was_draft)))
Step-Develops {s} (Step.submit call id) = commit-Develops (submit_tx call id s) s (λ c' s' e.
    let (c, w) = submit_tx-ok call id s s' c' e in
    one_row call.principal.tenant_id id s s' c c' w.found w.changes
      (subst (Evolves c) (sym w.row) (submitted-Evolves call.readings.now c w.allowed)))
Step-Develops {s} (Step.decide call id p) = commit-Develops (decide_tx call id p s) s (λ c' s' e.
    let (c, w) = decide_tx-ok call id p s s' c' e in
    one_row call.principal.tenant_id id s s' c c' w.found w.changes (
      subst (Evolves c) (sym w.row) (
        decided-Evolves call.readings.now p.decision (new_decision call p c ∷ s.decisions) c
          w.was_pending)))
Step-Develops {s} (Step.move call dir id u) =
    commit-Develops (status_tx call dir id u s) s (λ c' s' e.
      let (c, w) = status_tx-ok call dir id u s s' c' e in
      one_row call.principal.tenant_id id s s' c c' w.found w.changes
        (subst (Evolves c) (sym w.row) (moved-Evolves call.readings.now u c w.allowed)))

Reach-UniqueIds : {s t : ChangeDb} → Reach s t → UniqueIds s.changes → UniqueIds t.changes
Reach-UniqueIds Reach.here h = h
Reach-UniqueIds (Reach.next r st) h = (Step-Develops st).unique (Reach-UniqueIds r h)

-- After any requests to an empty table, one more request leaves each change in the table: with its
-- identity, its requester, its risk and the number of approvals it needs; in its state or one that
-- the transition table allows next; and, unless it was a draft, with the plans, the assets, the
-- window and the backup reference that were submitted.
pub Step-Evolves :
    (audit : AuditStore) (s t : ChangeDb) (c : ChangeRequest)
    → Reach (no_changes audit) s
    → Step s t
    → Memᴰ c s.changes
    → (c' : ChangeRequest) × Memᴰ c' t.changes × Evolves c c'
Step-Evolves audit s t c r st m = (Step-Develops st).evolves (Reach-UniqueIds r tt) m
