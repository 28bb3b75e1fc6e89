-- ===== src/Identity/Principal.antt =====
-- apps/api/src/aiops_x_api/modules/identity/security.py: the authenticated caller of a request.
use aiops_x_enterprise_new.Prelude.{ℕ, String, Bool, Option, List}

-- The access levels of a project membership, and `token` of an API token.
pub data AccessLevel : Type 0 where
  viewer operator approver manager token : AccessLevel

pub record ProjectGrant : Type 0 where
  pub project_id : ℕ
  pub access_levels : List AccessLevel
  pub environment_constraints : List String
  pub asset_tag_constraints : List String
  pub gxp_access : Bool

pub record Principal : Type 0 where
  pub user_id : ℕ
  pub tenant_id : ℕ
  pub email : String
  pub display_name : String
  pub roles : List String
  pub permissions : List String
  pub is_bootstrap_admin : Bool
  pub auth_type : String
  pub credential_id : Option ℕ
  pub project_grants : Option (List ProjectGrant)
