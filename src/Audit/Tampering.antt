-- ===== src/Audit/Tampering.antt =====
-- What `verify_audit_integrity` (apps/api/src/aiops_x_api/modules/audit/api.py) can detect: with
-- the last hash known, no other history verifies, unless SHA-256 fails.
use Prim.Native.String.{String}
use mathlib.Core.List.{append-nil, Memᴰ}
use aiops_x_enterprise_new.Prelude.{
  ◌≡◌, refl, ◌≢◌, ◌⊎◌, true, none, List, [], ◌∷◌, ◌++◌, arith, map, inl, inr, eq_iff, sym, ◌∙◌, ap,
  ap₂, ℕ,
}
use aiops_x_enterprise_new.Core.Json.{String-discrete}
use aiops_x_enterprise_new.Core.Runtime.{json_sha256, Runtime}
use aiops_x_enterprise_new.Audit.Models.{AuditLog}
use aiops_x_enterprise_new.Audit.Append.{genesis_hash, canonical_audit_document}
use aiops_x_enterprise_new.Audit.Verify.{verify_audit_entry, first_broken, verify_audit_integrity}
use aiops_x_enterprise_new.Audit.Integrity.{end_hash, rows_of}

-- The text of an entry that is hashed.
abbrev pub hashed_text : Runtime → AuditLog → String
hashed_text rt e = rt.json_text (canonical_audit_document rt e)

-- What `json.dumps` promises of the documents: from the text of an object its `previous_hash`
-- can be
-- read back.
abbrev pub KeepsPreviousHash : Runtime → Type 0
KeepsPreviousHash rt =
    (e f : AuditLog) → hashed_text rt e ≡ hashed_text rt f → e.previous_hash ≡ f.previous_hash

abbrev top : List AuditLog → String
top [] = genesis_hash
top (e ∷ older) = e.entry_hash

-- The newest entry first, each entry holds the hash of the next and its own.
abbrev Sealed : Runtime → List AuditLog → Type 0
Sealed rt [] = Unit
Sealed rt (e ∷ older) =
    (e.previous_hash ≡ top older)
    × (e.entry_hash ≡ json_sha256 rt (canonical_audit_document rt e))
    × Sealed rt older

rev_onto {ℓ} : {A : Type ℓ} → List A → List A → List A
rev_onto [] acc = acc
rev_onto (x ∷ xs) acc = rev_onto xs (x ∷ acc)

map-rev_onto {ℓ κ} :
    {A : Type ℓ} {B : Type κ} (f : A → B) (xs acc : List A)
    → map f (rev_onto xs acc) ≡ rev_onto (map f xs) (map f acc)
unfolding rev_onto
map-rev_onto f [] acc = refl
map-rev_onto f (x ∷ xs) acc = map-rev_onto f xs (x ∷ acc)

rev_onto-rev_onto {ℓ} :
    {A : Type ℓ} (xs acc zs : List A) → rev_onto (rev_onto xs acc) zs ≡ rev_onto acc (xs ++ zs)
unfolding rev_onto
rev_onto-rev_onto [] acc zs = refl
rev_onto-rev_onto (x ∷ xs) acc zs = rev_onto-rev_onto xs (x ∷ acc) zs

rev_onto-twice {ℓ} : {A : Type ℓ} (xs : List A) → rev_onto (rev_onto xs []) [] ≡ xs
unfolding rev_onto
rev_onto-twice xs = rev_onto-rev_onto xs [] [] ∙ append-nil xs

verified :
    (rt : Runtime) (e : AuditLog) (h : String)
    → verify_audit_entry rt e h ≡ true
    → (e.previous_hash ≡ h) × (e.entry_hash ≡ json_sha256 rt (canonical_audit_document rt e))
unfolding verify_audit_entry
verified rt e h v = ground (
  arith,
  eq_iff e.previous_hash h,
  eq_iff e.entry_hash (json_sha256 rt (canonical_audit_document rt e)),
)

first_broken-cons :
    (rt : Runtime) (h : String) (e : AuditLog) (rest : List AuditLog)
    → first_broken rt h (e ∷ rest) ≡ none
    → (verify_audit_entry rt e h ≡ true) × (first_broken rt e.entry_hash rest ≡ none)
unfolding first_broken
first_broken-cons rt h e rest v = ground arith

Sealed-rev_onto :
    (rt : Runtime) (rows acc : List AuditLog)
    → first_broken rt (top acc) rows ≡ none
    → Sealed rt acc
    → Sealed rt (rev_onto rows acc)
unfolding rev_onto
Sealed-rev_onto rt [] acc v s = s
Sealed-rev_onto rt (e ∷ rows) acc v s =
    let (here, later) = first_broken-cons rt (top acc) e rows v in
    let (p, q) = verified rt e (top acc) here in Sealed-rev_onto rt rows (e ∷ acc) later (p, q, s)

top-rev_onto : (rows acc : List AuditLog) → top (rev_onto rows acc) ≡ end_hash (top acc) rows
unfolding rev_onto
top-rev_onto [] acc = refl
top-rev_onto (e ∷ rows) acc = top-rev_onto rows (e ∷ acc)

abbrev pub hashed_texts : Runtime → List AuditLog → List String
hashed_texts rt = map (hashed_text rt)

-- Two entries, one of each log, whose different texts have one hash.
abbrev pub Collision : Runtime → List AuditLog → List AuditLog → Type 0
Collision rt xs ys =
    (e f : AuditLog) × Memᴰ e xs
    × Memᴰ f ys
    × (hashed_text rt e ≢ hashed_text rt f)
    × (rt.sha256 (hashed_text rt e) ≡ rt.sha256 (hashed_text rt f))

-- An entry of one of the logs whose text hashes to the constant that starts a chain.
abbrev pub GenesisPreimage : Runtime → List AuditLog → List AuditLog → Type 0
GenesisPreimage rt xs ys =
    (e : AuditLog) × (Memᴰ e xs ⊎ Memᴰ e ys) × (rt.sha256 (hashed_text rt e) ≡ genesis_hash)

abbrev pub HashFails : Runtime → List AuditLog → List AuditLog → Type 0
HashFails rt xs ys = Collision rt xs ys ⊎ GenesisPreimage rt xs ys

-- A failure among some entries is one among more.
HashFails-within :
    (rt : Runtime) {xs ys xs' ys' : List AuditLog}
    → ((e : AuditLog) → Memᴰ e xs → Memᴰ e xs')
    → ((e : AuditLog) → Memᴰ e ys → Memᴰ e ys')
    → HashFails rt xs ys
    → HashFails rt xs' ys'
HashFails-within rt f g (inl (e, e', m, n, differ, same)) = inl (e, e', f e m, g e' n, differ, same)
HashFails-within rt f g (inr (e, inl m, start)) = inr (e, inl (f e m), start)
HashFails-within rt f g (inr (e, inr m, start)) = inr (e, inr (g e m), start)

member-rev_onto {ℓ} :
    {A : Type ℓ} (a : A) (xs acc : List A) → Memᴰ a (rev_onto xs acc) → Memᴰ a xs ⊎ Memᴰ a acc
unfolding rev_onto
member-rev_onto a [] acc m = inr m
member-rev_onto a (x ∷ xs) acc m = elim (member-rev_onto a xs (x ∷ acc) m) [
  | inl later ↦ inl (Memᴰ.tail later)
  | inr (Memᴰ.head e) ↦ inl (Memᴰ.head e)
  | inr (Memᴰ.tail old) ↦ inr old
]

member-reversed {ℓ} : {A : Type ℓ} (a : A) (xs : List A) → Memᴰ a (rev_onto xs []) → Memᴰ a xs
member-reversed a xs m = elim (member-rev_onto a xs [] m) [
  | inl there ↦ there
  | inr none_left ↦ elim none_left [ ]
]

Sealed-agree :
    (rt : Runtime) (xs ys : List AuditLog)
    → KeepsPreviousHash rt
    → Sealed rt xs
    → Sealed rt ys
    → top xs ≡ top ys
    → (hashed_texts rt xs ≡ hashed_texts rt ys) ⊎ HashFails rt xs ys
Sealed-agree rt [] [] k s t p = inl refl
Sealed-agree rt [] (f ∷ ys) k s t p = inr (inr (f, inr (Memᴰ.head refl), sym t.1 ∙ sym p))
Sealed-agree rt (e ∷ xs) [] k s t p = inr (inr (e, inl (Memᴰ.head refl), sym s.1 ∙ p))
Sealed-agree rt (e ∷ xs) (f ∷ ys) k s t p =
    elim (String-discrete (hashed_text rt e) (hashed_text rt f)) [
      | no differ ↦ inr (inl (e, f, Memᴰ.head refl, Memᴰ.head refl, differ, sym s.1 ∙ p ∙ t.1))
      | yes same ↦ elim (Sealed-agree rt xs ys k s.2 t.2 (sym s.0 ∙ k e f same ∙ t.0)) [
        | inl rest ↦ inl (ap₂ ◌∷◌ same rest)
        | inr fails ↦ inr (HashFails-within rt (λ x m. Memᴰ.tail m) (λ x m. Memᴰ.tail m) fails)
      ]
    ]

valid_rows :
    (rt : Runtime) (t : ℕ) (logs : List AuditLog)
    → (verify_audit_integrity rt t logs).valid ≡ true
    → first_broken rt genesis_hash (rows_of t logs) ≡ none
unfolding verify_audit_integrity
valid_rows rt t logs v = ground arith

-- If the entries of a tenant in two tables both verify, and the last hash is the same, then the
-- texts that were hashed are the same, one by one; or SHA-256 gives one hash to the different texts
-- of two of these entries, one of each table, or gives the text of one of them the constant that
-- starts a chain. This takes it that from the JSON text of a document its `previous_hash` can be
-- read back.
pub tamper_evident :
    (rt : Runtime) (t : ℕ) (logs logs' : List AuditLog)
    → KeepsPreviousHash rt
    → (verify_audit_integrity rt t logs).valid ≡ true
    → (verify_audit_integrity rt t logs').valid ≡ true
    → end_hash genesis_hash (rows_of t logs) ≡ end_hash genesis_hash (rows_of t logs')
    → (hashed_texts rt (rows_of t logs) ≡ hashed_texts rt (rows_of t logs'))
      ⊎ HashFails rt (rows_of t logs) (rows_of t logs')
unfolding rev_onto
tamper_evident rt t logs logs' keeps v v' p =
    let xs : List AuditLog = rows_of t logs in
    let ys : List AuditLog = rows_of t logs' in
    elim (Sealed-agree rt (rev_onto xs []) (rev_onto ys []) keeps
      (Sealed-rev_onto rt xs [] (valid_rows rt t logs v) tt)
      (Sealed-rev_onto rt ys [] (valid_rows rt t logs' v') tt)
      (top-rev_onto xs [] ∙ p ∙ sym (top-rev_onto ys []))) [
        | inl same ↦ inl (
            from_reversed (hashed_texts rt xs) (hashed_texts rt ys) (
              sym (map-rev_onto (hashed_text rt) xs [])
              ∙ same
              ∙ map-rev_onto (hashed_text rt) ys []))
        | inr fails ↦ inr (
            HashFails-within rt (λ x m. member-reversed x xs m) (λ x m. member-reversed x ys m)
              fails)
      ]
  where
    from_reversed : (ds es : List String) → rev_onto ds [] ≡ rev_onto es [] → ds ≡ es
    from_reversed ds es h = sym (rev_onto-twice ds) ∙ ap (λ l. rev_onto l []) h ∙ rev_onto-twice es
