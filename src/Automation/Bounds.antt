-- ===== src/Automation/Bounds.antt =====
-- What `_validate_inputs` of apps/api/src/aiops_x_api/modules/automation/api.py and
-- `AgentTaskCreate.validate_parameters` of agent_control/schemas.py let through.
use Prim.Native.String.{String}
use aiops_x_enterprise_new.Prelude.{
  ◌≤◌, ◌≡◌, refl, ap, ◌∙◌, true, false, Option, not, ◌&&◌, ◌⊎◌, inl, inr, none, some, arith, leb,
  str_eq, Bool-cases,
}
use aiops_x_enterprise_new.Core.Errors.{ok, >>=-eq-ok, >>-eq-ok, guard, guard-eq-ok}
use aiops_x_enterprise_new.Core.Json.{
  Json, null, boolean, number, text, array, object, Items, nil, item, Fields, end, field,
}
use aiops_x_enterprise_new.Automation.Inputs.{
  get_field, has_field, count_items, count_chars, is_absolute_path, is_rooted, all_items,
  check_paths, schema_properties, schema_required, lacks_required, fields_within, is_closed,
  validate_inputs, validate_parameters, check_task_paths, root_path,
}

-- A text that begins with a slash and has 255 characters at most.
abbrev pub IsAbsolute : Json → Type 0
IsAbsolute v = (p : String) × (v ≡ text p) × (is_rooted p ≡ true) × (count_chars p ≤ 255)

abbrev pub AllItems : (Json → Type 0) → Items → Type 0
AllItems P nil = Unit
AllItems P (item x rest) = P x × AllItems P rest

-- A list of one to eight absolute paths.
abbrev pub IsPathList : Json → Type 0
IsPathList v =
    (paths : Items) × (v ≡ array paths)
    × (1 ≤ count_items paths)
    × (count_items paths ≤ 8)
    × AllItems IsAbsolute paths

absolute : (v : Json) → is_absolute_path v ≡ true → IsAbsolute v
absolute (text p) h = (p, refl, ground (arith, h), ground (arith, h))
absolute null h = cc
absolute (boolean b) h = cc
absolute (number n) h = cc
absolute (array x) h = cc
absolute (object x) h = cc

all-IsAbsolute :
    (paths : Items) → all_items is_absolute_path paths ≡ true → AllItems IsAbsolute paths
all-IsAbsolute nil h = tt
all-IsAbsolute (item x rest) h =
    (absolute x (ground (arith, h)), all-IsAbsolute rest (ground (arith, h)))

path_list :
    (paths : Items)
    → leb 1 (count_items paths) ≡ true
    → leb (count_items paths) 8 ≡ true
    → all_items is_absolute_path paths ≡ true
    → IsPathList (array paths)
path_list paths low high each =
    (paths, refl, ground (arith, low), ground (arith, high), all-IsAbsolute paths each)

checked_paths : (v : Json) → check_paths (some v) ≡ ok tt → (v ≡ null) ⊎ IsPathList v
unfolding check_paths
checked_paths null h = inl refl
checked_paths (array paths) h =
    inr (path_list paths (ground (arith, h)) (ground (arith, h)) (ground (arith, h)))
checked_paths (boolean b) h = cc
checked_paths (number n) h = cc
checked_paths (text s) h = cc
checked_paths (object x) h = cc

-- The paths of a job's inputs: none, `null`, or a list of one to eight absolute paths.
abbrev pub ArePaths : Option Json → Type 0
ArePaths none = Unit
ArePaths (some v) = (v ≡ null) ⊎ IsPathList v

checked_or_none : (o : Option Json) → check_paths o ≡ ok tt → ArePaths o
checked_or_none none h = tt
checked_or_none (some v) h = checked_paths v h

-- A name that is a field of the inputs.
abbrev pub IsGiven : Fields → Json → Type 0
IsGiven inputs name = (k : String) × (v : Json) × (name ≡ text k) × (get_field k inputs ≡ some v)

given-field :
    (k : String) (inputs : Fields)
    → has_field k inputs ≡ true
    → (v : Json) × (get_field k inputs ≡ some v)
unfolding get_field
given-field k end h = cc
given-field k (field j v rest) h = elim (Bool-cases (str_eq j k)) [
  | inl here ↦ (v, rw (here, get_field) refl)
  | inr other ↦
      let (w, found) = given-field k rest (rw other at h) in (w, rw (other, get_field) found)
]

complete_inputs :
    (names : Items) (inputs : Fields)
    → lacks_required names inputs ≡ ok false
    → AllItems (IsGiven inputs) names
complete_inputs nil inputs h = tt
complete_inputs (item (text k) rest) inputs h = elim (Bool-cases (has_field k inputs)) [
  | inl there ↦
      let (v, found) = given-field k inputs there in
      ((k, v, refl, found), complete_inputs rest inputs (rw there at h))
  | inr missing ↦ cc (rw missing at h)
]
complete_inputs (item null rest) inputs h = cc
complete_inputs (item (boolean b) rest) inputs h = cc
complete_inputs (item (number n) rest) inputs h = cc
complete_inputs (item (array x) rest) inputs h = cc
complete_inputs (item (object x) rest) inputs h = cc

-- Inputs that are accepted for a job are accepted as they are, whatever the schema of the runbook,
-- and have every field that the schema requires; if they have paths, these are `null` or a list
-- of one
-- to eight texts, each of which begins with a slash and has at most 255 characters.
pub accepted_inputs :
    (schema inputs accepted : Fields)
    → validate_inputs schema inputs ≡ ok accepted
    → (accepted ≡ inputs)
      × ((names : Items) × (schema_required (get_field "required" schema) ≡ ok names)
          × AllItems (IsGiven inputs) names)
      × ArePaths (get_field "paths" inputs)
unfolding validate_inputs
accepted_inputs schema inputs accepted h =
    let (properties, e1, h1) = >>=-eq-ok (schema_properties (get_field "properties" schema)) _ h in
    let (names, e2, h2) = >>=-eq-ok (schema_required (get_field "required" schema)) _ h1 in
    let (closed, h3) =
      >>-eq-ok
        (guard
          (not (
            is_closed (get_field "additionalProperties" schema)
            && not (fields_within inputs properties)))
          _)
        _ h2 in
    let (lacks, e3, h4) = >>=-eq-ok (lacks_required names inputs) _ h3 in
    let (complete, h5) = >>-eq-ok (guard (not lacks) _) _ h4 in
    let (checked, returned) = >>-eq-ok (check_paths (get_field "paths" inputs)) _ h5 in
    let same : accepted ≡ inputs = cc in
    let whole : lacks ≡ false = ground (arith, guard-eq-ok (not lacks) _ complete) in
    (
      same,
      (names, e2, complete_inputs names inputs (e3 ∙ ap ok whole)),
      checked_or_none (get_field "paths" inputs) checked,
    )

checked_task_paths :
    (v : Json) (accepted : Fields)
    → check_task_paths v ≡ ok accepted
    → (w : Json) × (accepted ≡ field "paths" w end) × IsPathList w
checked_task_paths (array paths) accepted h = (
  array paths,
  ground (arith, h),
  path_list paths (ground (arith, h)) (ground (arith, h)) (ground (arith, h)),
)
checked_task_paths null accepted h = cc
checked_task_paths (boolean b) accepted h = cc
checked_task_paths (number n) accepted h = cc
checked_task_paths (text s) accepted h = cc
checked_task_paths (object x) accepted h = cc

-- Parameters that are accepted for a task have one field, the paths: a list of one to eight
-- texts, each of which begins with a slash and has at most 255 characters.
pub accepted_parameters :
    (value accepted : Fields)
    → validate_parameters value ≡ ok accepted
    → (w : Json) × (accepted ≡ field "paths" w end) × IsPathList w
unfolding validate_parameters
accepted_parameters value accepted h =
    elim (Bool-cases (fields_within value (field "paths" null end))) [
      | inl within ↦
          checked_task_paths (elim (get_field "paths" value) [ none ↦ root_path | some v ↦ v ])
            accepted (rw within at h)
      | inr stray ↦ let refused = rw stray at h in cc
    ]
