-- ===== src/Audit/Chain.antt =====
-- What links the entries of the audit log: each entry names the hash and the number of the entry
-- before it in its partition. `append_audit` keeps it so.
use aiops_x_enterprise_new.Prelude.{
  ℕ, ◌≡◌, refl, ◌≢◌, true, false, Option, none, some, List, [], ◌∷◌, arith, Bool-cases, inl, inr,
  str_eq, eq_iff, sym, ◌∙◌,
}
use aiops_x_enterprise_new.Core.Runtime.{json_sha256, Runtime, IsUuidText}
use aiops_x_enterprise_new.Audit.Models.{AuditLog, AuditStore}
use aiops_x_enterprise_new.Audit.Append.{
  RequestState, AuditReadings, AuditCall, partition_of, latest, next_sequence, last_hash,
  canonical_audit_document, append_audit,
}
use aiops_x_enterprise_new.Audit.Verify.{of_tenant}

pub record IsLinked (rt : Runtime) (e : AuditLog) (older : List AuditLog) : Type 0 where
  pub partition : e.partition_key ≡ partition_of rt e.tenant_id
  pub sequence : e.sequence_no ≡ next_sequence (latest e.partition_key older)
  pub previous : e.previous_hash ≡ last_hash (latest e.partition_key older)
  pub hashed : e.entry_hash ≡ json_sha256 rt (canonical_audit_document rt e)

-- Every entry is linked to the entries older than it.
abbrev pub IsChained : Runtime → List AuditLog → Type 0
IsChained rt [] = Unit
IsChained rt (e ∷ older) = IsLinked rt e older × IsChained rt older

-- Whatever is audited, by whomever: the new log is chained if the old one was.
pub append_audit-IsChained :
    (rt : Runtime) (now : AuditReadings) (request : RequestState) (c : AuditCall) (s : AuditStore)
    → IsChained rt s.logs
    → IsChained rt (append_audit rt now request c s).logs
unfolding append_audit canonical_audit_document
append_audit-IsChained rt now request c s h =
    (record { partition = refl; sequence = refl; previous = refl; hashed = refl }, h)

module _ (rt : Runtime) (ids : IsUuidText rt) (t : ℕ) (e : AuditLog) where
  -- An entry stands in the partition of the tenant that it names.
  pub in_partition :
      e.partition_key ≡ partition_of rt e.tenant_id
      → of_tenant t e ≡ true
      → str_eq e.partition_key (rt.uuid_text t) ≡ true
  in_partition h own = ground (arith, ids.injective, eq_iff e.partition_key (rt.uuid_text t))

  foreign :
      of_tenant t e ≡ false → (o : Option ℕ) → e.tenant_id ≡ o → partition_of rt o ≢ rt.uuid_text t
  foreign other none h p = ids.not_platform t (sym p)
  foreign other (some u) h p = ground (arith, ids.injective u t p)

  pub not_in_partition :
      e.partition_key ≡ partition_of rt e.tenant_id
      → of_tenant t e ≡ false
      → str_eq e.partition_key (rt.uuid_text t) ≡ false
  not_in_partition h other = elim (Bool-cases (str_eq e.partition_key (rt.uuid_text t))) [
    | inr no_match ↦ no_match
    | inl same ↦
        absurd (
          foreign other e.tenant_id refl (sym h ∙ (eq_iff e.partition_key (rt.uuid_text t)).0 same))
  ]
