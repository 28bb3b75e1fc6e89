-- ===== src/Core/Patch.antt =====
-- The bodies of the PATCH routes under apps/api/src/aiops_x_api/modules, and how a handler assigns
-- their fields to a row: `setattr(row, field, value)` for each field that was sent.
use Prim.Native.String.{String}
use aiops_x_enterprise_new.Prelude.{ℕ, Bool, true, false, Option, none, some, List, [], ◌∷◌}
use aiops_x_enterprise_new.Core.Errors.{Result, ok, err, app_error}
use aiops_x_enterprise_new.Core.Json.{Items, item, text}

-- A JSON column that holds a list: `none` is the JSON `null`, which a column that is declared
-- `nullable=False` holds too once `None` has been assigned to it.
abbrev pub JsonList : Type 0 → Type 0
JsonList A = Option (List A)

-- The truth of a stored list: neither `None` nor empty.
abbrev pub filled : {A : Type 0} → JsonList A → Bool
filled none = false
filled (some []) = false
filled (some (x ∷ xs)) = true

abbrev pub given : {A : Type 0} → Option A → Bool
given none = false
given (some a) = true

-- A field of a request body of which only what the client sent is looked at: left out, `null`, or
-- a value.
pub data Patch (A : Type 0) : Type 0 where
  unset : Patch A
  null : Patch A
  value : A → Patch A

-- A column that may be null, and one of JSON, which stores the JSON `null`.
abbrev pub patched_json : {A : Type 0} → Patch A → Option A → Option A
patched_json unset old = old
patched_json null old = none
patched_json (value a) old = some a

-- A column that the database requires: it refuses `None`.
abbrev pub patched_column : {A : Type 0} → Patch A → A → Result A
patched_column unset old = ok old
patched_column null old = err (app_error "IntegrityError" 500)
patched_column (value a) old = ok a

-- `payload.f if payload.f is not None else _uuid_values(row.f)`: the stored `null` is not a list.
abbrev pub effective_ids : Patch (List ℕ) → JsonList ℕ → Result (List ℕ)
effective_ids (value ids) old = ok ids
effective_ids _ (some ids) = ok ids
effective_ids _ none = err (app_error "TypeError" 500)

abbrev pub sent_ids : Patch (List ℕ) → List ℕ
sent_ids (value ids) = ids
sent_ids _ = []

-- The name of a field that was sent, before the rest of the names.
abbrev pub listed : {A : Type 0} → String → Patch A → Items → Items
listed name unset rest = rest
listed name _ rest = item (text name) rest
