-- ===== src/Automation/Inputs.antt =====
-- apps/api/src/aiops_x_api/modules/automation/api.py: `_validate_inputs` and
-- `_require_all_permissions`; agent_control/schemas.py: `AgentTaskCreate.validate_parameters`;
-- agent_control/api.py: `_validated_capabilities`.
use Prim.Native.Char.{code}
use Prim.Native.String.{String}
use aiops_x_enterprise_new.Prelude.{
  ℕ, suc, ◌==◌, Bool, true, false, not, ◌&&◌, ◌||◌, Option, none, some, List, leb, all_of,
  if◌then◌else◌, str_eq,
}
use aiops_x_enterprise_new.Prelude.Texts.{has_text}
use aiops_x_enterprise_new.Core.Errors.{Result, ok, err, app_error, guard, ◌>>=◌, ◌>>◌}
use aiops_x_enterprise_new.Core.Json.{
  Json, null, boolean, text, array, object, Items, nil, item, Fields, end, field,
}
use aiops_x_enterprise_new.Identity.Principal.{Principal}

-- `d.get(key)`.
unfoldable pub get_field : String → Fields → Option Json
get_field k end = none
get_field k (field j v rest) = let later = get_field k rest in if str_eq j k then some v else later

abbrev pub has_field : String → Fields → Bool
has_field k end = false
has_field k (field j v rest) = str_eq j k || has_field k rest

-- `set(d) <= set(e)`.
abbrev pub fields_within : Fields → Fields → Bool
fields_within end e = true
fields_within (field k v rest) e = has_field k e && fields_within rest e

-- `len(items)` and `len(text)`.
abbrev pub count_items : Items → ℕ
count_items nil = 0
count_items (item x rest) = suc (count_items rest)

abbrev pub count_chars : String → ℕ
count_chars String.[] = 0
count_chars (String.◌∷◌ c rest) = suc (count_chars rest)

-- `path.startswith("/")`.
abbrev pub is_rooted : String → Bool
is_rooted String.[] = false
is_rooted (String.◌∷◌ c rest) = code c == b'/'

-- `isinstance(path, str) and path.startswith("/") and len(path) <= 255`.
abbrev pub is_absolute_path : Json → Bool
is_absolute_path (text p) = is_rooted p && leb (count_chars p) 255
is_absolute_path _ = false

abbrev pub all_items : (Json → Bool) → Items → Bool
all_items p nil = true
all_items p (item x rest) = p x && all_items p rest

-- `name not in inputs for name in required`: a list or a dict cannot be looked up.
abbrev pub lacks_required : Items → Fields → Result Bool
lacks_required nil inputs = ok false
lacks_required (item (text k) rest) inputs =
    let later = lacks_required rest inputs in if has_field k inputs then later else ok true
lacks_required (item (array x) rest) inputs = err (app_error "TypeError" 500)
lacks_required (item (object x) rest) inputs = err (app_error "TypeError" 500)
lacks_required (item _ rest) inputs = ok true

abbrev pub bad_inputs : Result (Unit {0})
bad_inputs = err (app_error "AIOPS_6103" 422)

-- `paths`, if it is there and is not `None`.
unfoldable pub check_paths : Option Json → Result (Unit {0})
check_paths none = ok tt
check_paths (some null) = ok tt
check_paths (some (array paths)) =
    if not (leb 1 (count_items paths) && leb (count_items paths) 8)
    then bad_inputs
    else if not (all_items is_absolute_path paths)
    then bad_inputs
    else ok tt
check_paths (some _) = bad_inputs

-- `schema.get("additionalProperties") is False`.
abbrev pub is_closed : Option Json → Bool
is_closed (some (boolean b)) = not b
is_closed _ = false

-- `schema.get("properties", {})` and `schema.get("required", [])`, which must be a dict and a list.
abbrev pub schema_properties : Option Json → Result Fields
schema_properties none = ok end
schema_properties (some (object properties)) = ok properties
schema_properties (some _) = err (app_error "AIOPS_6007" 500)

abbrev pub schema_required : Option Json → Result Items
schema_required none = ok nil
schema_required (some (array names)) = ok names
schema_required (some _) = err (app_error "AIOPS_6007" 500)

unfoldable pub validate_inputs : Fields → Fields → Result Fields
unfolding get_field check_paths
validate_inputs schema inputs = do
  properties ← schema_properties (get_field "properties" schema)
  names ← schema_required (get_field "required" schema)
  guard
      (not (
        is_closed (get_field "additionalProperties" schema)
        && not (fields_within inputs properties)))
      (app_error "AIOPS_6103" 422)
  lacks ← lacks_required names inputs
  guard (not lacks) (app_error "AIOPS_6103" 422)
  check_paths (get_field "paths" inputs)
  ok inputs

unfoldable pub require_all_permissions : Principal → List String → Result (Unit {0})
require_all_permissions p permissions =
    guard
      (has_text "*" p.permissions || all_of (λ needed. has_text needed p.permissions) permissions)
      (app_error "AIOPS_2002" 403)

abbrev pub root_path : Json
root_path = array (item (text "/") nil)

abbrev pub refused_body : Result Fields
refused_body = err (app_error "RequestValidationError" 422)

abbrev pub check_task_paths : Json → Result Fields
check_task_paths (array paths) =
    if not (leb 1 (count_items paths) && leb (count_items paths) 8)
    then refused_body
    else if not (all_items is_absolute_path paths)
    then refused_body
    else ok (field "paths" (array paths) end)
check_task_paths _ = refused_body

-- `AgentTaskCreate.validate_parameters`.
unfoldable pub validate_parameters : Fields → Result Fields
unfolding get_field
validate_parameters value =
    if not (fields_within value (field "paths" null end))
    then refused_body
    else check_task_paths (elim (get_field "paths" value) [ none ↦ root_path | some v ↦ v ])

-- What cannot be put into a set.
abbrev pub is_unhashable : Json → Bool
is_unhashable (array x) = true
is_unhashable (object x) = true
is_unhashable _ = false

abbrev pub is_text : String → Json → Bool
is_text s (text t) = str_eq t s
is_text s _ = false

-- `value.get("actions", [])` of `_validated_capabilities`.
unfoldable pub validated_capabilities : Fields → Result Fields
unfolding get_field
validated_capabilities value = check_actions (get_field "actions" value)
  where
    check_actions : Option Json → Result Fields
    check_actions none = ok value
    check_actions (some (array actions)) =
        if not (all_items (λ x. not (is_unhashable x)) actions)
        then err (app_error "TypeError" 500)
        else if not (all_items (is_text "system.disk_usage") actions)
        then err (app_error "AIOPS_4104" 422)
        else ok value
    check_actions (some _) = err (app_error "AIOPS_4104" 422)

-- `action in agent.capabilities.get("actions", [])`.
abbrev pub in_items : String → Items → Bool
in_items s nil = false
in_items s (item x rest) = is_text s x || in_items s rest

abbrev pub has_prefix : String → String → Bool
has_prefix String.[] t = true
has_prefix (String.◌∷◌ c s) String.[] = false
has_prefix (String.◌∷◌ c s) (String.◌∷◌ d t) = code c == code d && has_prefix s t

abbrev pub occurs_in : String → String → Bool
occurs_in s String.[] = has_prefix s ""
occurs_in s (String.◌∷◌ d t) = has_prefix s (String.◌∷◌ d t) || occurs_in s t

unfoldable pub has_action : String → Fields → Result Bool
unfolding get_field
has_action action capabilities = reported (get_field "actions" capabilities)
  where
    reported : Option Json → Result Bool
    reported none = ok false
    reported (some (array actions)) = ok (in_items action actions)
    reported (some (object actions)) = ok (has_field action actions)
    reported (some (text actions)) = ok (occurs_in action actions)
    reported (some _) = err (app_error "TypeError" 500)
