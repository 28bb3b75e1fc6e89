-- ===== src/Audit/Integrity.antt =====
-- A log that only `append_audit` has written passes `verify_audit_integrity`
-- (apps/api/src/aiops_x_api/modules/audit/api.py), for every tenant.
use Prim.Native.String.{String}
use aiops_x_enterprise_new.Prelude.{
  ℕ, ◌+◌, ◌<◌, ◌==◌, ◌≡◌, refl, true, false, Option, none, some, List, [], ◌∷◌, ◌++◌, arith,
  Bool-cases, inl, inr, str_eq, eq_iff, if◌then◌else◌, sym, ◌∙◌, All, All-map, length,
  length-append, select,
}
use aiops_x_enterprise_new.Core.Runtime.{json_sha256, Runtime, IsUuidText}
use aiops_x_enterprise_new.Audit.Models.{AuditLog}
use aiops_x_enterprise_new.Audit.Append.{
  genesis_hash, latest, next_sequence, last_hash, canonical_audit_document,
}
use aiops_x_enterprise_new.Audit.Verify.{
  verify_audit_entry, of_tenant, insert_entry, by_sequence, first_broken, first_sequence,
  last_sequence, verify_audit_integrity,
}
use aiops_x_enterprise_new.Audit.Chain.{IsChained, in_partition, not_in_partition}

-- The hash that the loop carries after some rows.
abbrev pub end_hash : String → List AuditLog → String
end_hash h [] = h
end_hash h (e ∷ rest) = end_hash e.entry_hash rest

abbrev Below : ℕ → AuditLog → Type 0
Below n e = e.sequence_no < n

insert_entry_last :
    (e : AuditLog) (xs : List AuditLog)
    → All (Below e.sequence_no) xs
    → insert_entry e xs ≡ xs ++ e ∷ []
unfolding insert_entry
insert_entry_last e [] h = refl
insert_entry_last e (x ∷ xs) h = ground (arith, insert_entry_last e xs h.1)

first_broken-append :
    (rt : Runtime) (h : String) (xs : List AuditLog) (e : AuditLog)
    → first_broken rt h xs ≡ none
    → verify_audit_entry rt e (end_hash h xs) ≡ true
    → first_broken rt h (xs ++ e ∷ []) ≡ none
unfolding first_broken
first_broken-append rt h [] e p q = ground arith
first_broken-append rt h (x ∷ xs) e p q = ground (arith, first_broken-append rt x.entry_hash xs e)

end_hash-append :
    (h : String) (xs : List AuditLog) (e : AuditLog) → end_hash h (xs ++ e ∷ []) ≡ e.entry_hash
end_hash-append h [] e = refl
end_hash-append h (x ∷ xs) e = end_hash-append x.entry_hash xs e

last_sequence-append :
    (xs : List AuditLog) (e : AuditLog) → last_sequence (xs ++ e ∷ []) ≡ some e.sequence_no
last_sequence-append [] e = refl
last_sequence-append (x ∷ []) e = refl
last_sequence-append (x ∷ y ∷ xs) e = last_sequence-append (y ∷ xs) e

All-append {ℓ κ} :
    {A : Type ℓ} (P : A → Type κ) (xs : List A) (e : A) → All P xs → P e → All P (xs ++ e ∷ [])
All-append P [] e h p = (p, tt)
All-append P (x ∷ xs) e h p = (h.0, All-append P xs e h.1 p)

-- The bounds of the numbers 1 … n.
abbrev pub first_of_run : ℕ → Option ℕ
first_of_run n = if n == 0 then none else some 1

abbrev pub last_of_run : ℕ → Option ℕ
last_of_run n = if n == 0 then none else some n

-- What the rows of one partition say, given the newest entry of it.
record IsRun (rt : Runtime) (newest : Option AuditLog) (rows : List AuditLog) : Type 0 where
  whole : first_broken rt genesis_hash rows ≡ none
  hash : end_hash genesis_hash rows ≡ last_hash newest
  below : All (Below (next_sequence newest)) rows
  size : next_sequence newest ≡ length rows + 1
  first : first_sequence rows ≡ first_of_run (length rows)
  last : last_sequence rows ≡ last_of_run (length rows)

verify_linked :
    (rt : Runtime) (e : AuditLog) (h : String)
    → e.previous_hash ≡ h
    → e.entry_hash ≡ json_sha256 rt (canonical_audit_document rt e)
    → verify_audit_entry rt e h ≡ true
unfolding verify_audit_entry
verify_linked rt e h p q = ground (
  arith,
  eq_iff e.previous_hash h,
  eq_iff e.entry_hash (json_sha256 rt (canonical_audit_document rt e)),
)

first_sequence-append :
    (rows : List AuditLog) (e : AuditLog)
    → e.sequence_no ≡ length rows + 1
    → first_sequence rows ≡ first_of_run (length rows)
    → first_sequence (rows ++ e ∷ []) ≡ some 1
first_sequence-append [] e s h = ground arith
first_sequence-append (x ∷ xs) e s h = ground arith

-- One more entry, linked to the newest, makes a longer run.
IsRun-append :
    (rt : Runtime) (newest : Option AuditLog) (e : AuditLog) (rows : List AuditLog)
    → e.sequence_no ≡ next_sequence newest
    → e.previous_hash ≡ last_hash newest
    → e.entry_hash ≡ json_sha256 rt (canonical_audit_document rt e)
    → IsRun rt newest rows
    → IsRun rt (some e) (rows ++ e ∷ [])
IsRun-append rt newest e rows s p q r =
    let longer : length (rows ++ e ∷ []) ≡ length rows + 1 = length-append rows (e ∷ []) in
    let number : e.sequence_no ≡ length rows + 1 = s ∙ r.size in
    record {
      whole =
          first_broken-append rt genesis_hash rows e r.whole
            (verify_linked rt e (end_hash genesis_hash rows) (p ∙ sym r.hash) q);
      hash = end_hash-append genesis_hash rows e;
      below =
          All-append (Below (e.sequence_no + 1)) rows e (All-map rows (λ x h. omega arith) r.below)
            (omega arith);
      size = omega arith;
      first = ground (arith, first_sequence-append rows e number r.first);
      last = ground (arith, last_sequence-append rows e);
    }

IsRun-empty : (rt : Runtime) → IsRun rt none []
unfolding first_broken
IsRun-empty rt = record {
  whole = refl;
  hash = refl;
  below = tt;
  size = omega arith;
  first = refl;
  last = refl;
}

latest_own :
    (key : String) (e : AuditLog) (older : List AuditLog)
    → str_eq e.partition_key key ≡ true
    → e.sequence_no ≡ next_sequence (latest key older)
    → latest key (e ∷ older) ≡ some e
unfolding latest
latest_own key e older k s = ground arith

latest_foreign :
    (key : String) (e : AuditLog) (older : List AuditLog)
    → str_eq e.partition_key key ≡ false
    → latest key (e ∷ older) ≡ latest key older
unfolding latest
latest_foreign key e older k = rw k

abbrev pub rows_of : ℕ → List AuditLog → List AuditLog
rows_of t logs = by_sequence (select (of_tenant t) logs)

rows_own :
    (t : ℕ) (e : AuditLog) (older : List AuditLog)
    → of_tenant t e ≡ true
    → All (Below e.sequence_no) (rows_of t older)
    → rows_of t (e ∷ older) ≡ rows_of t older ++ e ∷ []
unfolding by_sequence
rows_own t e older own below = rw own (insert_entry_last e (rows_of t older) below)

rows_foreign :
    (t : ℕ) (e : AuditLog) (older : List AuditLog)
    → of_tenant t e ≡ false
    → rows_of t (e ∷ older) ≡ rows_of t older
rows_foreign t e older other = rw other

-- The rows of a tenant in a chained log are a run.
tenant-IsRun :
    (rt : Runtime) (t : ℕ) (logs : List AuditLog)
    → IsUuidText rt
    → IsChained rt logs
    → IsRun rt (latest (rt.uuid_text t) logs) (rows_of t logs)
unfolding by_sequence latest
tenant-IsRun rt t [] ids h = IsRun-empty rt
tenant-IsRun rt t (e ∷ older) ids (link, h) =
    let run = tenant-IsRun rt t older ids h in
    let key : String = rt.uuid_text t in
    elim (Bool-cases (of_tenant t e)) [
      | inl own ↦
          let match : str_eq e.partition_key key ≡ true =
            in_partition rt ids t e link.partition own in
          let same : e.partition_key ≡ key = (eq_iff e.partition_key key).0 match in
          let number : e.sequence_no ≡ next_sequence (latest key older) =
            rw same at link.sequence in
          let hash : e.previous_hash ≡ last_hash (latest key older) = rw same at link.previous in
          rw (latest_own key e older match number) (
            rw (rows_own t e older own (rw number run.below))
              (IsRun-append rt (latest key older) e (rows_of t older) number hash link.hashed run))
      | inr other ↦
          rw (latest_foreign key e older (not_in_partition rt ids t e link.partition other))
            (rw (rows_foreign t e older other) run)
    ]

-- In a log that is chained, the check of any tenant succeeds, names no broken entry, and reports
-- that the tenant's entries bear the numbers from 1 to how many they are.
pub integrity_of_chain :
    (rt : Runtime) (t : ℕ) (logs : List AuditLog)
    → IsUuidText rt
    → IsChained rt logs
    → let n = length (rows_of t logs) in
      verify_audit_integrity rt t logs ≡ record {
        valid = true;
        checked_entries = n;
        first_sequence = first_of_run n;
        last_sequence = last_of_run n;
        broken_sequence = none;
      }
unfolding verify_audit_integrity
integrity_of_chain rt t logs ids h =
    let run = tenant-IsRun rt t logs ids h in rw run.whole (rw run.first (rw run.last))
