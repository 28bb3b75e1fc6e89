-- ===== src/Identity/Scope.antt =====
-- apps/api/src/aiops_x_api/modules/identity/security.py: `require_permission`,
-- `ensure_project_scope`, `ensure_asset_scope` and what they read. The context variable that
-- `require_permission` sets is handed on as a value.
use Prim.Native.Char.{code}
use Prim.Native.String.{String}
use aiops_x_enterprise_new.Prelude.{
  ℕ, ◌==◌, Bool, true, false, not, ◌&&◌, Option, none, some, List, [], ◌∷◌, some_of, map,
  if◌then◌else◌, str_eq,
}
use aiops_x_enterprise_new.Prelude.Texts.{has_text, meets}
use aiops_x_enterprise_new.Core.Errors.{Result, ok, err, app_error, ◌>>◌, is_ok}
use aiops_x_enterprise_new.Identity.Principal.{AccessLevel, ProjectGrant, Principal}

-- The keys of `allowed_levels`: what a permission needs of a project.
pub data RequiredAccess : Type 0 where
  viewer operator approver manager : RequiredAccess

abbrev pub same_level : AccessLevel → AccessLevel → Bool
same_level AccessLevel.viewer AccessLevel.viewer = true
same_level AccessLevel.operator AccessLevel.operator = true
same_level AccessLevel.approver AccessLevel.approver = true
same_level AccessLevel.manager AccessLevel.manager = true
same_level AccessLevel.token AccessLevel.token = true
same_level _ _ = false

abbrev pub allowed_levels : RequiredAccess → List AccessLevel
allowed_levels viewer =
    AccessLevel.viewer ∷ AccessLevel.operator ∷ AccessLevel.approver ∷ AccessLevel.manager
    ∷ AccessLevel.token ∷ []
allowed_levels operator = AccessLevel.operator ∷ AccessLevel.manager ∷ AccessLevel.token ∷ []
allowed_levels approver = AccessLevel.approver ∷ AccessLevel.manager ∷ AccessLevel.token ∷ []
allowed_levels manager = AccessLevel.manager ∷ AccessLevel.token ∷ []

abbrev pub has_level : List AccessLevel → AccessLevel → Bool
has_level levels l = some_of (λ x. same_level x l) levels

abbrev pub levels_meet : List AccessLevel → List AccessLevel → Bool
levels_meet xs ys = some_of (λ x. has_level ys x) xs

-- `permission.rsplit(":", 1)[-1]`: what follows the last colon, or the whole text.
after_last_colon : String → String → String
after_last_colon best String.[] = best
after_last_colon best (String.◌∷◌ c rest) =
    after_last_colon (if code c == b':' then rest else best) rest

unfoldable pub access_for_permission : String → RequiredAccess
unfolding after_last_colon
access_for_permission permission =
    if has_text permission ("approval:decide" ∷ "change:approve" ∷ [])
    then approver
    else if has_text permission ("identity:write" ∷ "project:write" ∷ [])
    then manager
    else if has_text (after_last_colon permission permission) (
        "write" ∷ "create" ∷ "execute" ∷ "invoke" ∷ "ingest" ∷ "index" ∷ "evaluate" ∷ "analyze"
        ∷ "generate" ∷ [])
    then operator
    else viewer

-- The dependency of a route: the caller passes, and the access that the route needs is set.
unfoldable pub require_permission : String → Principal → Result RequiredAccess
unfolding access_for_permission
require_permission permission p =
    if not (has_text "*" p.permissions) && not (has_text permission p.permissions)
    then err (app_error "AIOPS_2003" 403)
    else ok (access_for_permission permission)

abbrev pub grant_for : ℕ → List ProjectGrant → Option ProjectGrant
grant_for project [] = none
grant_for project (g ∷ rest) =
    let found = grant_for project rest in if g.project_id == project then some g else found

-- The grants that bind a caller: none bind where there are no grants to look at, or with `*`.
abbrev pub binding_grants : Principal → Option (List ProjectGrant)
binding_grants p = if has_text "*" p.permissions then none else p.project_grants

abbrev pub out_of_scope : Result (Unit {0})
out_of_scope = err (app_error "AIOPS_2003" 403)

abbrev pub check_level : RequiredAccess → Option ProjectGrant → Result (Unit {0})
check_level needed none = out_of_scope
check_level needed (some g) =
    if levels_meet g.access_levels (allowed_levels needed) then ok tt else out_of_scope

unfoldable pub ensure_project_scope : Principal → RequiredAccess → ℕ → Result (Unit {0})
ensure_project_scope p needed project = elim (binding_grants p) [
  | none ↦ ok tt
  | some grants ↦ check_level needed (grant_for project grants)
]

unfoldable pub scoped_project_ids : Principal → Option (List ℕ)
scoped_project_ids p = elim (binding_grants p) [
  | none ↦ none
  | some grants ↦ some (map (λ (g : ProjectGrant). g.project_id) grants)
]

-- What the scope checks read of an asset.
pub record AssetScope : Type 0 where
  pub project_id : ℕ
  pub environment : String
  pub tags : List String
  pub gxp_classification : String

abbrev pub is_empty {ℓ} : {A : Type ℓ} → List A → Bool
is_empty [] = true
is_empty (x ∷ xs) = false

abbrev pub check_asset : AssetScope → Option ProjectGrant → Result (Unit {0})
check_asset a none = out_of_scope
check_asset a (some g) =
    if not (is_empty g.environment_constraints)
      && not (has_text a.environment g.environment_constraints)
    then out_of_scope
    else if not (is_empty g.asset_tag_constraints) && not (meets g.asset_tag_constraints a.tags)
    then out_of_scope
    else if str_eq a.gxp_classification "gxp" && not g.gxp_access
    then out_of_scope
    else ok tt

unfoldable pub ensure_asset_scope : Principal → RequiredAccess → AssetScope → Result (Unit {0})
unfolding ensure_project_scope
ensure_asset_scope p needed a = do
  ensure_project_scope p needed a.project_id
  elim (binding_grants p) [
    | none ↦ ok tt
    | some grants ↦ check_asset a (grant_for a.project_id grants)
  ]

-- `except ApplicationError: return False`.
unfoldable pub asset_in_scope : Principal → RequiredAccess → AssetScope → Bool
unfolding ensure_asset_scope
asset_in_scope p needed a = is_ok (ensure_asset_scope p needed a)

-- `for asset in linked_assets: ensure_asset_scope(…)`.
unfoldable pub ensure_assets_scope :
    Principal → RequiredAccess → List AssetScope → Result (Unit {0})
ensure_assets_scope p needed [] = ok tt
ensure_assets_scope p needed (a ∷ rest) = do
  ensure_asset_scope p needed a
  ensure_assets_scope p needed rest
