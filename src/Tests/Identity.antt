-- ===== src/Tests/Identity.antt =====
-- Runs of the scope checks.
use Prim.Native.String.{String}
use mathlib.Core.List.{Memᴰ}
use aiops_x_enterprise_new.Prelude.{ℕ, ◌≡◌, refl, true, some, [], ◌∷◌, contains}
use aiops_x_enterprise_new.Core.Errors.{ok}
use aiops_x_enterprise_new.Identity.Principal.{AccessLevel, ProjectGrant, Principal}
use aiops_x_enterprise_new.Identity.Scope.{
  operator, viewer, approver, manager, access_for_permission, ensure_project_scope,
  scoped_project_ids, AssetScope, asset_in_scope,
}
use aiops_x_enterprise_new.Identity.Access.{
  Covers, in_scope-Covers, project_scope_mono, reachable_listed,
}
use aiops_x_enterprise_new.Identity.Membership.{
  SubjectType, ProjectMembership, MembershipDb, group_ids, memberships_of, project_grants_for_user,
}
use aiops_x_enterprise_new.Identity.Grants.{in_scope-by_memberships}
use aiops_x_enterprise_new.Tests.Fixtures.{user, grant}

abbrev server : AssetScope
server = record {
  project_id = 3;
  environment = "prod";
  tags = "db" ∷ [];
  gxp_classification = "gxp";
}

server_in_scope : asset_in_scope (user 1 AccessLevel.operator []) operator server ≡ true
unfolding asset_in_scope
server_in_scope = refl

in_scope-Covers_example :
    (g : ProjectGrant) × Memᴰ g (grant 3 AccessLevel.operator ∷ []) × Covers operator server g
in_scope-Covers_example =
    in_scope-Covers (user 1 AccessLevel.operator []) operator server
      (grant 3 AccessLevel.operator ∷ []) refl server_in_scope

manager_in_scope : ensure_project_scope (user 1 AccessLevel.manager []) manager 3 ≡ ok tt
unfolding ensure_project_scope
manager_in_scope = refl

project_scope_mono_example : ensure_project_scope (user 1 AccessLevel.manager []) approver 3 ≡ ok tt
project_scope_mono_example =
    project_scope_mono (user 1 AccessLevel.manager []) manager approver 3 refl manager_in_scope

reachable_listed_example : contains 3 (3 ∷ []) ≡ true
unfolding scoped_project_ids ensure_project_scope
reachable_listed_example =
    reachable_listed (user 1 AccessLevel.manager []) manager 3 (3 ∷ []) refl manager_in_scope

accesses :
    (access_for_permission "change:approve" ≡ approver)
    × (access_for_permission "project:write" ≡ manager)
    × (access_for_permission "change:execute" ≡ operator)
    × (access_for_permission "postmortem:approve" ≡ viewer)
unfolding access_for_permission
accesses = (refl, refl, refl, refl)

abbrev member : ℕ → SubjectType → ℕ → AccessLevel → String → ProjectMembership
member i subject s level environment = record {
  id = i;
  tenant_id = 9;
  project_id = 3;
  subject_type = subject;
  subject_id = s;
  access_level = level;
  environment_constraints = environment ∷ [];
  asset_tag_constraints = [];
  gxp_access = true;
  created_by = 2;
}

-- User 1 manages the test systems, and with group 5 may read the production systems.
abbrev members : MembershipDb
members = record {
  group_memberships = record { group_id = 5; user_id = 1 } ∷ [];
  project_memberships =
      member 1 SubjectType.user 1 AccessLevel.manager "test"
      ∷ member 2 SubjectType.group 5 AccessLevel.viewer "prod"
      ∷ [];
  abac_enforced = true;
}

abbrev joint_grant : ProjectGrant
joint_grant = record {
  project_id = 3;
  access_levels = AccessLevel.viewer ∷ AccessLevel.manager ∷ [];
  environment_constraints = "prod" ∷ "test" ∷ [];
  asset_tag_constraints = [];
  gxp_access = true;
}

abbrev colleague : Principal
colleague = record (user 1 AccessLevel.viewer []) {
  tenant_id = 9;
  project_grants = some (joint_grant ∷ []);
}

-- Both memberships together make user 1 a manager of the production systems.
in_scope-by_memberships_example : asset_in_scope colleague manager server ≡ true
unfolding project_grants_for_user memberships_of group_ids
in_scope-by_memberships_example =
    in_scope-by_memberships colleague members manager server (joint_grant ∷ []) refl refl
