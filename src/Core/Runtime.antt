-- ===== src/Core/Runtime.antt =====
-- What the program calls of Python's library: each is a parameter of the model.
use aiops_x_enterprise_new.Prelude.{ℕ, String, ◌≡◌, ◌≢◌}
use aiops_x_enterprise_new.Core.Json.{Json}

-- Identifiers (`UUID`) and instants (`datetime` in UTC) are numbers.
pub record Runtime : Type 0 where
  -- `str(uuid)`.
  pub uuid_text : ℕ → String
  -- `uuid.hex[:8].upper()`.
  pub uuid_short : ℕ → String
  -- `instant.isoformat()`.
  pub iso_text : ℕ → String
  -- `instant.isoformat().replace("+00:00", "Z")`.
  pub iso_z_text : ℕ → String
  -- `instant:%Y%m%d`.
  pub date_text : ℕ → String
  -- `text.strip()`.
  pub strip : String → String
  -- `json.dumps(value, sort_keys=True, …)`.
  pub json_text : Json → String
  -- `hashlib.sha256(text.encode("utf-8")).hexdigest()`.
  pub sha256 : String → String

-- The hash of the text of a value.
abbrev pub json_sha256 : Runtime → Json → String
json_sha256 rt value = rt.sha256 (rt.json_text value)

-- Two identifiers have different texts, and the text of an identifier has digits and dashes only.
pub record IsUuidText (rt : Runtime) : Type 0 where
  pub injective : (a b : ℕ) → rt.uuid_text a ≡ rt.uuid_text b → a ≡ b
  pub not_platform : (a : ℕ) → rt.uuid_text a ≢ "platform"
