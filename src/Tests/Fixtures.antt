-- ===== src/Tests/Fixtures.antt =====
-- A stand-in for Python's library, callers and requests for the runs.
use Prim.Native.String.{String}
use aiops_x_enterprise_new.Prelude.{
  ℕ, zero, suc, ◌≡◌, refl, ◌≢◌, ap, sym, ◌∙◌, true, false, none, some, List, [], ◌∷◌, arith,
}
use aiops_x_enterprise_new.Core.Json.{Json, text, object, field}
use aiops_x_enterprise_new.Core.Runtime.{Runtime, IsUuidText}
use aiops_x_enterprise_new.Identity.Principal.{AccessLevel, ProjectGrant, Principal}
use aiops_x_enterprise_new.References.{Directory}
use aiops_x_enterprise_new.Audit.Models.{AuditStore}
use aiops_x_enterprise_new.Audit.Append.{RequestState, AuditReadings, canonical_audit_document}
use aiops_x_enterprise_new.Audit.Tampering.{KeepsPreviousHash}
use Prim.Native.Char.{code}

-- A text of `n` letters.
abbrev pub letters : ℕ → String
letters zero = ""
letters (suc n) = String.◌∷◌ "u" (letters n)

abbrev size : String → ℕ
size String.[] = 0
size (String.◌∷◌ c s) = suc (size s)

abbrev first_code : String → ℕ
first_code String.[] = 0
first_code (String.◌∷◌ c s) = code c

size-letters : (n : ℕ) → size (letters n) ≡ n
size-letters zero = refl
size-letters (suc n) = ap suc (size-letters n)

letters_injective : (a b : ℕ) → letters a ≡ letters b → a ≡ b
letters_injective a b p = sym (size-letters a) ∙ ap size p ∙ size-letters b

letters-ne-platform : (a : ℕ) → letters a ≢ "platform"
letters-ne-platform zero p = absurd (omega (arith, ap first_code p))
letters-ne-platform (suc a) p = absurd (omega (arith, ap first_code p))

-- The text of a document is its third field, which is the previous hash of an entry.
abbrev toy_text : Json → String
toy_text (object (field k v (field j w (field i (text s) rest)))) = s
toy_text _ = ""

abbrev pub runtime : Runtime
runtime = record {
  uuid_text = letters;
  uuid_short = letters;
  iso_text = letters;
  iso_z_text = letters;
  date_text = letters;
  strip = λ s. s;
  json_text = toy_text;
  sha256 = λ s. String.◌∷◌ "u" s;
}

pub runtime-IsUuidText : IsUuidText runtime
runtime-IsUuidText = record { injective = letters_injective; not_platform = letters-ne-platform }

pub runtime-KeepsPreviousHash : KeepsPreviousHash runtime
unfolding canonical_audit_document
runtime-KeepsPreviousHash e f h = h

abbrev pub request : RequestState
request = record { request_id = none; trace_id = some "t" }

abbrev pub grant : ℕ → AccessLevel → ProjectGrant
grant project level = record {
  project_id = project;
  access_levels = level ∷ [];
  environment_constraints = "prod" ∷ [];
  asset_tag_constraints = [];
  gxp_access = true;
}

-- A user of tenant 7 with one grant, on project 3.
abbrev pub user : ℕ → AccessLevel → List String → Principal
user id level permissions = record {
  user_id = id;
  tenant_id = 7;
  email = "";
  display_name = "";
  roles = [];
  permissions = permissions;
  is_bootstrap_admin = false;
  auth_type = "user";
  credential_id = none;
  project_grants = some (grant 3 level ∷ []);
}

abbrev pub audit_readings : ℕ → AuditReadings
audit_readings now = record { occurred_at = now; entry_id = now; event_id = now; stored_at = now }

abbrev pub empty_audit : AuditStore
empty_audit = record { logs = []; outbox = [] }

-- Project 3 of tenant 7, with two active users.
abbrev pub directory : Directory
directory = record {
  projects = record { id = 3; tenant_id = 7; project_id = 3 } ∷ [];
  evidence = [];
  assets = [];
  incidents = [];
  automation_jobs = [];
  events = [];
  alerts = [];
  changes = [];
  users =
      record { id = 1; tenant_id = 7; is_active = true }
      ∷ record { id = 2; tenant_id = 7; is_active = true }
      ∷ [];
}
