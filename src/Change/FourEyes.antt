-- ===== src/Change/FourEyes.antt =====
-- What the invariant means for one change that is approved, under way or done
-- (apps/api/src/aiops_x_api/modules/change/api.py).
use mathlib.Core.List.{Memᴰ}
use aiops_x_enterprise_new.Prelude.{
  ℕ, ◌≤◌, ◌==◌, ◌≡◌, refl, sym, ap, ◌≢◌, ◌∙◌, true, false, ◌&&◌, some, List, [], ◌∷◌, arith, All,
  Option-cases, Bool-cases, inl, inr, if◌then◌else◌, contains, length, ne_of_==_false, false≢true,
  subst,
}
use aiops_x_enterprise_new.Change.Models.{ChangeRequest, ChangeApprovalDecision, ChangeDb}
use aiops_x_enterprise_new.Audit.Models.{AuditStore}
use aiops_x_enterprise_new.Change.Policy.{required_approval_count, controlled, given}
use aiops_x_enterprise_new.Change.Effects.{has_decided, approved_count, is_approval}
use aiops_x_enterprise_new.Change.Execution.{in_window}
use aiops_x_enterprise_new.Change.Rows.{
  is_cleared, is_begun, NotByRequester, started_in_window, IsSound,
}
use aiops_x_enterprise_new.Change.Soundness.{OneEach, IsSoundDb}
use aiops_x_enterprise_new.Change.Steps.{Reach, Reach-IsSoundDb}

-- Who has approved a change.
abbrev pub approvers : ℕ → List ChangeApprovalDecision → List ℕ
approvers id [] = []
approvers id (d ∷ ds) =
    let rest = approvers id ds in
    if d.change_id == id && is_approval d.decision then d.approver_id ∷ rest else rest

-- No user is named twice.
abbrev pub Distinct : List ℕ → Type 0
Distinct [] = Unit
Distinct (u ∷ us) = (contains u us ≡ false) × Distinct us

abbrev pub no_changes : AuditStore → ChangeDb
no_changes audit = record { changes = []; decisions = []; timeline = []; audit = audit }

no_changes-IsSoundDb : (audit : AuditStore) → IsSoundDb (no_changes audit)
no_changes-IsSoundDb audit = record { rows = tt; known = tt; one_each = tt }

length-approvers :
    (id : ℕ) (ds : List ChangeApprovalDecision) → length (approvers id ds) ≡ approved_count id ds
length-approvers id [] = refl
length-approvers id (d ∷ ds) = ground (arith, length-approvers id ds)

approvers_new :
    (id u : ℕ) (ds : List ChangeApprovalDecision)
    → has_decided id u ds ≡ false
    → contains u (approvers id ds) ≡ false
approvers_new id u [] h = refl
approvers_new id u (d ∷ ds) h = ground (arith, approvers_new id u ds)

approvers-Distinct :
    (id : ℕ) (ds : List ChangeApprovalDecision) → OneEach ds → Distinct (approvers id ds)
approvers-Distinct id [] h = tt
approvers-Distinct id (d ∷ ds) h = elim (Bool-cases (d.change_id == id && is_approval d.decision)) [
  | inl counts ↦
      let same : d.change_id ≡ id = ground arith in
      rw counts (
        approvers_new id d.approver_id ds
            (subst (λ i. has_decided i d.approver_id ds ≡ false) same h.0),
        approvers-Distinct id ds h.1,
      )
  | inr skipped ↦ rw skipped (approvers-Distinct id ds h.1)
]

approvers_others :
    (c : ChangeRequest) (ds : List ChangeApprovalDecision)
    → All (NotByRequester c) ds
    → All (λ u. u ≢ c.requested_by) (approvers c.id ds)
approvers_others c [] h = tt
approvers_others c (d ∷ ds) h = elim (Bool-cases (d.change_id == c.id && is_approval d.decision)) [
  | inl counts ↦
      rw counts (
        ne_of_==_false d.approver_id c.requested_by (h.0 (ground arith)),
        approvers_others c ds h.1,
      )
  | inr skipped ↦ rw skipped (approvers_others c ds h.1)
]

at_member :
    (P : ChangeRequest → Type 0) {c : ChangeRequest} {xs : List ChangeRequest}
    → Memᴰ c xs
    → All P xs
    → P c
at_member P (Memᴰ.head e) h = subst P (sym e) h.0
at_member P (Memᴰ.tail m) h = at_member P m h.1

-- After any requests to an empty table: a change that is approved, scheduled, under way or finished
-- has been approved by at least as many users as its risk and its impact on GxP call for, by no
-- user twice, and by none who is its requester.
pub approved_by_others :
    (audit : AuditStore) (s : ChangeDb) (c : ChangeRequest)
    → Reach (no_changes audit) s
    → Memᴰ c s.changes
    → is_cleared c.status ≡ true
    → let who = approvers c.id s.decisions in
      (required_approval_count c.risk_level c.gxp_impact ≤ length who)
      × Distinct who
      × All (λ u. u ≢ c.requested_by) who
approved_by_others audit s c r m e =
    let inv = Reach-IsSoundDb r (no_changes-IsSoundDb audit) in
    let sound : IsSound s.decisions c = at_member (IsSound s.decisions) m inv.rows in
    (
      omega (arith, sound.policy, sound.cleared e, length-approvers c.id s.decisions),
      approvers-Distinct c.id s.decisions inv.one_each,
      approvers_others c s.decisions sound.others,
    )

-- After any requests to an empty table: a change of risk R2 or R3 or with impact on GxP that has
-- been begun was begun at an instant within its maintenance window.
pub begun_in_window :
    (audit : AuditStore) (s : ChangeDb) (c : ChangeRequest)
    → Reach (no_changes audit) s
    → Memᴰ c s.changes
    → is_begun c.status ≡ true
    → controlled c.risk_level c.gxp_impact ≡ true
    → (t : ℕ) × (c.started_at ≡ some t) × (in_window c.scheduled_start c.scheduled_end t ≡ true)
begun_in_window audit s c r m e k =
    let inv = Reach-IsSoundDb r (no_changes-IsSoundDb audit) in
    let sound : IsSound s.decisions c = at_member (IsSound s.decisions) m inv.rows in
    elim (Option-cases c.started_at) [
      | inl never ↦ absurd (false≢true (ap given (sym never) ∙ sound.begun e))
      | inr (t, started) ↦ (t, started, ap (started_in_window c) (sym started) ∙ sound.window k)
    ]
