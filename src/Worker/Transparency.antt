-- ===== src/Worker/Transparency.antt =====
-- What a run of `_archive_audit_entries` (apps/worker/src/aiops_x_worker/tasks.py) changes, and
-- that
-- the check of the audit log does not notice it.
use Prim.Native.String.{String}
use aiops_x_enterprise_new.Prelude.{
  ℕ, suc, ◌≡◌, ◌≢◌, ◌⊎◌, contains, refl, ap, ap₂, ◌∙◌, true, false, ◌&&◌, Option, none, some, List,
  [], ◌∷◌, map, length, select, arith, leb, str_eq, Bool-cases, inl, inr,
}
use aiops_x_enterprise_new.Core.Patch.{given}
use aiops_x_enterprise_new.Core.Runtime.{json_sha256, Runtime}
use aiops_x_enterprise_new.Audit.Models.{AuditLog}
use aiops_x_enterprise_new.Audit.Append.{canonical_audit_document, genesis_hash}
use aiops_x_enterprise_new.Audit.Verify.{
  verify_audit_entry, of_tenant, insert_entry, by_sequence, first_broken, first_sequence,
  last_sequence, report, verify_audit_integrity,
}
use aiops_x_enterprise_new.Worker.Archive.{
  ArchiveRun, object_ref, archive_row, archive_one, archive_batch, archive_audit_entries,
}

-- Two rows that differ at most in where and when they were archived.
pub record SameEntry (rt : Runtime) (e e' : AuditLog) : Type 0 where
  pub tenant : e'.tenant_id ≡ e.tenant_id
  pub sequence : e'.sequence_no ≡ e.sequence_no
  pub previous : e'.previous_hash ≡ e.previous_hash
  pub hashed : e'.entry_hash ≡ e.entry_hash
  pub document : canonical_audit_document rt e' ≡ canonical_audit_document rt e

archive_one-SameEntry :
    (rt : Runtime) (run : ArchiveRun) (batch : List ℕ) (e : AuditLog)
    → SameEntry rt e (archive_one run batch e)
unfolding archive_row canonical_audit_document
archive_one-SameEntry rt run batch e = ground arith

module _ (rt : Runtime) (f : AuditLog → AuditLog)
    (same : (e : AuditLog) → SameEntry rt e (f e)) where
  of_tenant_same : (t : ℕ) (e : AuditLog) → of_tenant t (f e) ≡ of_tenant t e
  of_tenant_same t e = rw (same e).tenant refl

  select-map :
      (t : ℕ) (xs : List AuditLog)
      → select (of_tenant t) (map f xs) ≡ map f (select (of_tenant t) xs)
  select-map t [] = refl
  select-map t (x ∷ xs) = elim (Bool-cases (of_tenant t x)) [
    | inl own ↦ rw (of_tenant_same t x, own, select-map t xs) refl
    | inr other ↦ rw (of_tenant_same t x, other, select-map t xs) refl
  ]

  order_same :
      (e x : AuditLog) → leb (f e).sequence_no (f x).sequence_no ≡ leb e.sequence_no x.sequence_no
  order_same e x = ap₂ leb (same e).sequence (same x).sequence

  insert-map :
      (e : AuditLog) (xs : List AuditLog)
      → insert_entry (f e) (map f xs) ≡ map f (insert_entry e xs)
  unfolding insert_entry
  insert-map e [] = refl
  insert-map e (x ∷ xs) = elim (Bool-cases (leb e.sequence_no x.sequence_no)) [
    | inl first ↦ rw (order_same e x ∙ first, first) refl
    | inr later ↦ rw (order_same e x ∙ later, later, insert-map e xs) refl
  ]

  by_sequence-map : (xs : List AuditLog) → by_sequence (map f xs) ≡ map f (by_sequence xs)
  unfolding by_sequence
  by_sequence-map [] = refl
  by_sequence-map (x ∷ xs) = rw (by_sequence-map xs) (insert-map x (by_sequence xs))

  verify_same :
      (e : AuditLog) (h : String) → verify_audit_entry rt (f e) h ≡ verify_audit_entry rt e h
  unfolding verify_audit_entry
  verify_same e h =
      ap₂ ◌&&◌ (ap (λ p. str_eq p h) (same e).previous)
        (ap₂ (λ a d. str_eq a (json_sha256 rt d)) (same e).hashed (same e).document)

  length-same : (xs : List AuditLog) → length (map f xs) ≡ length xs
  length-same [] = refl
  length-same (x ∷ xs) = ap suc (length-same xs)

  first_same : (xs : List AuditLog) → first_sequence (map f xs) ≡ first_sequence xs
  first_same [] = refl
  first_same (x ∷ xs) = ap some (same x).sequence

  last_same : (xs : List AuditLog) → last_sequence (map f xs) ≡ last_sequence xs
  last_same [] = refl
  last_same (e ∷ []) = ap some (same e).sequence
  last_same (e ∷ x ∷ xs) = last_same (x ∷ xs)

  abbrev broken_no : Option AuditLog → Option ℕ
  broken_no none = none
  broken_no (some e) = some e.sequence_no

  report_same :
      (xs : List AuditLog) (b b' : Option AuditLog)
      → broken_no b' ≡ broken_no b
      → report (map f xs) b' ≡ report xs b
  report_same xs none none e = rw (length-same xs, first_same xs, last_same xs) refl
  report_same xs none (some b) e = cc
  report_same xs (some b) none e = cc
  report_same xs (some b) (some b') e =
      let number : b'.sequence_no ≡ b.sequence_no = cc in
      rw (length-same xs, first_same xs, last_same xs)
        (ap
          (λ n. record {
            valid = false;
            checked_entries = length xs;
            first_sequence = first_sequence xs;
            last_sequence = last_sequence xs;
            broken_sequence = some n;
          })
          number)

  first_broken-map :
      (h : String) (xs : List AuditLog)
      → broken_no (first_broken rt h (map f xs)) ≡ broken_no (first_broken rt h xs)
  unfolding first_broken
  first_broken-map h [] = refl
  first_broken-map h (x ∷ xs) = elim (Bool-cases (verify_audit_entry rt x h)) [
    | inl good ↦
        rw (verify_same x h ∙ good, good)
          (ap (λ k. broken_no (first_broken rt k (map f xs))) (same x).hashed
            ∙ first_broken-map x.entry_hash xs)
    | inr bad ↦ rw (verify_same x h ∙ bad, bad) (ap some (same x).sequence)
  ]

  pub integrity_same :
      (t : ℕ) (logs : List AuditLog)
      → verify_audit_integrity rt t (map f logs) ≡ verify_audit_integrity rt t logs
  unfolding verify_audit_integrity
  integrity_same t logs =
      let rows = by_sequence (select (of_tenant t) logs) in
      let moved : by_sequence (select (of_tenant t) (map f logs)) ≡ map f rows =
        ap by_sequence (select-map t logs) ∙ by_sequence-map (select (of_tenant t) logs) in
      ap (λ xs. report xs (first_broken rt genesis_hash xs)) moved
      ∙ report_same rows (first_broken rt genesis_hash rows)
          (first_broken rt genesis_hash (map f rows)) (first_broken-map genesis_hash rows)

-- A run of the archive is invisible to the check of the audit log: it gives every tenant the same
-- answer before and after, whatever the log holds and whichever objects are stored.
pub archive_keeps_integrity :
    (rt : Runtime) (run : ArchiveRun) (t : ℕ) (logs : List AuditLog)
    → verify_audit_integrity rt t (archive_audit_entries run logs).logs
      ≡ verify_audit_integrity rt t logs
unfolding archive_audit_entries
archive_keeps_integrity rt run t logs =
    integrity_same rt (archive_one run (archive_batch run logs))
      (archive_one-SameEntry rt run (archive_batch run logs)) t logs

-- Why a run of the archive leaves a row as it is: it was archived before, another worker has locked
-- it, it is not in the batch, its hash is not that of its document, or the store has not taken it.
abbrev pub IsSpared : ArchiveRun → List ℕ → AuditLog → Type 0
IsSpared run batch e =
    (given e.archived_at ≡ true)
    ⊎ ((run.locked e ≡ true)
        ⊎ ((contains e.id batch ≡ false)
            ⊎ ((e.entry_hash ≢ json_sha256 run.runtime (canonical_audit_document run.runtime e))
                ⊎ (run.stored e ≡ false))))

-- How a row may change in one run of the archive, with the batch that it has fetched.
pub data IsArchiving (run : ArchiveRun) (batch : List ℕ) (e e' : AuditLog) : Type 0 where
  spared : IsSpared run batch e → e' ≡ e → IsArchiving run batch e e'
  archived :
      given e.archived_at ≡ false
      → e.entry_hash ≡ json_sha256 run.runtime (canonical_audit_document run.runtime e)
      → run.stored e ≡ true
      → e' ≡ record e { archive_object_ref = some (object_ref run e); archived_at = some run.now }
      → IsArchiving run batch e e'
