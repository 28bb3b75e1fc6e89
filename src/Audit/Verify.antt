-- ===== src/Audit/Verify.antt =====
-- apps/api/src/aiops_x_api/modules/audit: `verify_audit_entry` (application.py) and the loop of
-- `verify_audit_integrity` (api.py).
use Prim.Native.String.{String}
use aiops_x_enterprise_new.Prelude.{
  ℕ, ◌==◌, Bool, true, false, ◌&&◌, Option, none, some, List, [], ◌∷◌, leb, length, select,
  if◌then◌else◌, str_eq,
}
use aiops_x_enterprise_new.Core.Runtime.{json_sha256, Runtime}
use aiops_x_enterprise_new.Audit.Models.{AuditLog}
use aiops_x_enterprise_new.Audit.Append.{genesis_hash, canonical_audit_document}

unfoldable pub verify_audit_entry : Runtime → AuditLog → String → Bool
verify_audit_entry rt e expected_previous_hash =
    str_eq e.previous_hash expected_previous_hash
    && str_eq e.entry_hash (json_sha256 rt (canonical_audit_document rt e))

abbrev pub of_tenant : ℕ → AuditLog → Bool
of_tenant t e = elim e.tenant_id [ some u ↦ u == t | none ↦ false ]

-- `order_by(AuditLog.sequence_no)`.
unfoldable pub insert_entry : AuditLog → List AuditLog → List AuditLog
insert_entry e [] = e ∷ []
insert_entry e (x ∷ rest) =
    if leb e.sequence_no x.sequence_no then e ∷ x ∷ rest else x ∷ insert_entry e rest

unfoldable pub by_sequence : List AuditLog → List AuditLog
unfolding insert_entry
by_sequence [] = []
by_sequence (e ∷ rest) = insert_entry e (by_sequence rest)

-- The loop: the first row that does not verify after the hash of the row before it.
unfoldable pub first_broken : Runtime → String → List AuditLog → Option AuditLog
first_broken rt previous_hash [] = none
first_broken rt previous_hash (row ∷ rest) =
    let later = first_broken rt row.entry_hash rest in
    if verify_audit_entry rt row previous_hash then later else some row

pub record AuditIntegrityResponse : Type 0 where
  pub valid : Bool
  pub checked_entries : ℕ
  pub first_sequence : Option ℕ
  pub last_sequence : Option ℕ
  pub broken_sequence : Option ℕ

abbrev pub first_sequence : List AuditLog → Option ℕ
first_sequence [] = none
first_sequence (e ∷ rest) = some e.sequence_no

abbrev pub last_sequence : List AuditLog → Option ℕ
last_sequence [] = none
last_sequence (e ∷ []) = some e.sequence_no
last_sequence (e ∷ x ∷ rest) = last_sequence (x ∷ rest)

abbrev pub report : List AuditLog → Option AuditLog → AuditIntegrityResponse
report rows none = record {
  valid = true;
  checked_entries = length rows;
  first_sequence = first_sequence rows;
  last_sequence = last_sequence rows;
  broken_sequence = none;
}
report rows (some row) = record {
  valid = false;
  checked_entries = length rows;
  first_sequence = first_sequence rows;
  last_sequence = last_sequence rows;
  broken_sequence = some row.sequence_no;
}

-- The answer for one tenant over the table of entries.
unfoldable pub verify_audit_integrity : Runtime → ℕ → List AuditLog → AuditIntegrityResponse
unfolding verify_audit_entry by_sequence first_broken
verify_audit_integrity rt tenant logs =
    let rows = by_sequence (select (of_tenant tenant) logs) in
    report rows (first_broken rt genesis_hash rows)
