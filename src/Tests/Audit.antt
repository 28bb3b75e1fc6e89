-- ===== src/Tests/Audit.antt =====
-- Runs of the audit log.
use aiops_x_enterprise_new.Prelude.{
  ℕ, ◌≡◌, refl, ◌⊎◌, true, false, Option, none, some, List, [], ◌∷◌, length,
}
use aiops_x_enterprise_new.Core.Json.{end}
use aiops_x_enterprise_new.Audit.Models.{AuditLog, AuditStore}
use aiops_x_enterprise_new.Audit.Append.{
  AuditCall, append_audit, canonical_audit_document, genesis_hash,
}
use aiops_x_enterprise_new.Audit.Verify.{verify_audit_integrity}
use aiops_x_enterprise_new.Audit.Chain.{IsChained, append_audit-IsChained}
use aiops_x_enterprise_new.Audit.Integrity.{
  rows_of, end_hash, first_of_run, last_of_run, integrity_of_chain,
}
use aiops_x_enterprise_new.Audit.Tampering.{hashed_texts, HashFails, tamper_evident}
use aiops_x_enterprise_new.Tests.Fixtures.{
  runtime, runtime-IsUuidText, runtime-KeepsPreviousHash, request, audit_readings, empty_audit,
}

abbrev said : Option ℕ → AuditCall
said tenant = record {
  action = "test.done";
  resource_type = "test";
  outcome = "success";
  principal = none;
  actor_id = none;
  actor_type = some "agent";
  tenant_id = tenant;
  project_id = none;
  resource_id = none;
  metadata = end;
  producer = "aiops-x-api";
}

abbrev once : AuditStore
once = append_audit runtime (audit_readings 1) request (said (some 7)) empty_audit

abbrev twice : AuditStore
twice = append_audit runtime (audit_readings 2) request (said none) once

abbrev thrice : AuditStore
thrice = append_audit runtime (audit_readings 3) request (said (some 7)) twice

append_audit-IsChained_example : IsChained runtime once.logs
append_audit-IsChained_example =
    append_audit-IsChained runtime (audit_readings 1) request (said (some 7)) empty_audit tt

thrice-IsChained : IsChained runtime thrice.logs
thrice-IsChained = append_audit-IsChained runtime (audit_readings 3) request (said (some 7)) twice (
    append_audit-IsChained runtime (audit_readings 2) request (said none) once
      append_audit-IsChained_example)

integrity_of_chain_example :
    let n = length (rows_of 7 thrice.logs) in
    verify_audit_integrity runtime 7 thrice.logs ≡ record {
      valid = true;
      checked_entries = n;
      first_sequence = first_of_run n;
      last_sequence = last_of_run n;
      broken_sequence = none;
    }
integrity_of_chain_example =
    integrity_of_chain runtime 7 thrice.logs runtime-IsUuidText thrice-IsChained

-- Two entries of the tenant, and one event for each in the outbox.
counted : (length (rows_of 7 thrice.logs) ≡ 2) × (length thrice.outbox ≡ 2)
unfolding append_audit verify_audit_integrity
counted = (refl, refl)

-- An entry that was changed after the fact does not verify.
abbrev forged : List AuditLog → List AuditLog
forged [] = []
forged (e ∷ rest) = record e { previous_hash = "forged" } ∷ rest

forged_rejected : (verify_audit_integrity runtime 7 (forged thrice.logs)).valid ≡ false
unfolding append_audit verify_audit_integrity canonical_audit_document
forged_rejected = refl

thrice_valid : (verify_audit_integrity runtime 7 thrice.logs).valid ≡ true
unfolding append_audit verify_audit_integrity canonical_audit_document
thrice_valid = refl

-- The same entries of the tenant, in a log without those of the platform.
abbrev extract : AuditStore
extract = append_audit runtime (audit_readings 3) request (said (some 7)) once

extract_valid : (verify_audit_integrity runtime 7 extract.logs).valid ≡ true
unfolding append_audit verify_audit_integrity canonical_audit_document
extract_valid = refl

same_end :
    end_hash genesis_hash (rows_of 7 thrice.logs) ≡ end_hash genesis_hash (rows_of 7 extract.logs)
unfolding append_audit verify_audit_integrity
same_end = refl

tamper_evident_example :
    (hashed_texts runtime (rows_of 7 thrice.logs) ≡ hashed_texts runtime (rows_of 7 extract.logs))
    ⊎ HashFails runtime (rows_of 7 thrice.logs) (rows_of 7 extract.logs)
tamper_evident_example =
    tamper_evident runtime 7 thrice.logs extract.logs runtime-KeepsPreviousHash thrice_valid
      extract_valid same_end
