-- ===== src/Identity/Membership.antt =====
-- apps/api/src/aiops_x_api/modules/identity: `_project_grants_for_user` (security.py), which makes
-- the grants of a caller from the memberships of the user and of the user's groups, with the tables
-- that it reads (infrastructure/models.py). A set is a list of its elements, in any order and with
-- repetitions; identifiers are numbers, which order them as their texts do.
use Prim.Native.String.{String}
use aiops_x_enterprise_new.Prelude.{
  ℕ, ◌==◌, ltb, Bool, false, ◌&&◌, ◌||◌, Option, none, some, List, [], ◌∷◌, ◌++◌, map, select,
  contains, if◌then◌else◌,
}
use aiops_x_enterprise_new.Identity.Principal.{AccessLevel, ProjectGrant}

pub data SubjectType : Type 0 where
  user group : SubjectType

pub record GroupMembership : Type 0 where
  pub group_id : ℕ
  pub user_id : ℕ

pub record ProjectMembership : Type 0 where
  pub id : ℕ
  pub tenant_id : ℕ
  pub project_id : ℕ
  pub subject_type : SubjectType
  pub subject_id : ℕ
  pub access_level : AccessLevel
  pub environment_constraints : List String
  pub asset_tag_constraints : List String
  pub gxp_access : Bool
  pub created_by : ℕ

-- The tables and the setting that are read.
pub record MembershipDb : Type 0 where
  pub group_memberships : List GroupMembership
  pub project_memberships : List ProjectMembership
  pub abac_enforced : Bool

pub record ProjectGrantAccumulator : Type 0 where
  pub access_levels : List AccessLevel
  pub environment_constraints : List String
  pub asset_tag_constraints : List String
  pub gxp_access : Bool

abbrev pub empty_accumulator : ProjectGrantAccumulator
empty_accumulator = record {
  access_levels = [];
  environment_constraints = [];
  asset_tag_constraints = [];
  gxp_access = false;
}

-- `select(GroupMembership.group_id).where(GroupMembership.user_id == user_id)`.
unfoldable pub group_ids : MembershipDb → ℕ → List ℕ
group_ids db user_id =
    map (λ (g : GroupMembership). g.group_id)
      (select (λ (g : GroupMembership). g.user_id == user_id) db.group_memberships)

abbrev pub is_subject : ℕ → List ℕ → SubjectType → ℕ → Bool
is_subject user_id groups SubjectType.user subject = subject == user_id
is_subject user_id groups SubjectType.group subject = contains subject groups

-- The memberships of a user: the user's own, and those of the user's groups.
unfoldable pub memberships_of : MembershipDb → ℕ → ℕ → List ProjectMembership
unfolding group_ids
memberships_of db user_id tenant_id =
    select
      (λ (m : ProjectMembership).
        (m.tenant_id == tenant_id)
        && is_subject user_id (group_ids db user_id) m.subject_type m.subject_id)
      db.project_memberships

-- What one turn of the loop does to the accumulator of the project.
abbrev pub joined : ProjectMembership → ProjectGrantAccumulator → ProjectGrantAccumulator
joined m current = record {
  access_levels = m.access_level ∷ current.access_levels;
  environment_constraints = m.environment_constraints ++ current.environment_constraints;
  asset_tag_constraints = m.asset_tag_constraints ++ current.asset_tag_constraints;
  gxp_access = current.gxp_access || m.gxp_access;
}

-- `aggregated.setdefault(…)` and the changes of what it returns.
abbrev pub join_membership :
    ProjectMembership → List (ℕ × ProjectGrantAccumulator) → List (ℕ × ProjectGrantAccumulator)
join_membership m [] = (m.project_id, joined m empty_accumulator) ∷ []
join_membership m ((project, current) ∷ rest) =
    let later = join_membership m rest in
    if project == m.project_id
    then (project, joined m current) ∷ rest
    else (project, current) ∷ later

abbrev pub aggregated :
    List ProjectMembership → List (ℕ × ProjectGrantAccumulator) → List (ℕ × ProjectGrantAccumulator)
aggregated [] found = found
aggregated (m ∷ rest) found = aggregated rest (join_membership m found)

-- `sorted(aggregated.items(), key=…)`.
abbrev pub insert_item :
    ℕ × ProjectGrantAccumulator
    → List (ℕ × ProjectGrantAccumulator)
    → List (ℕ × ProjectGrantAccumulator)
insert_item (project, value) [] = (project, value) ∷ []
insert_item (project, value) ((other, x) ∷ rest) =
    let later = insert_item (project, value) rest in
    if ltb other project then (other, x) ∷ later else (project, value) ∷ (other, x) ∷ rest

abbrev pub sorted_items : List (ℕ × ProjectGrantAccumulator) → List (ℕ × ProjectGrantAccumulator)
sorted_items [] = []
sorted_items (item ∷ rest) = insert_item item (sorted_items rest)

abbrev pub project_grant : ℕ × ProjectGrantAccumulator → ProjectGrant
project_grant (project, value) = record {
  project_id = project;
  access_levels = value.access_levels;
  environment_constraints = value.environment_constraints;
  asset_tag_constraints = value.asset_tag_constraints;
  gxp_access = value.gxp_access;
}

-- The grants from the memberships: without any, nothing binds, unless ABAC is enforced.
abbrev pub grants_of : Bool → List ProjectMembership → Option (List ProjectGrant)
grants_of abac_enforced [] = if abac_enforced then some [] else none
grants_of abac_enforced (m ∷ rest) =
    some (map project_grant (sorted_items (aggregated (m ∷ rest) [])))

unfoldable pub project_grants_for_user : MembershipDb → ℕ → ℕ → Option (List ProjectGrant)
project_grants_for_user db user_id tenant_id =
    grants_of db.abac_enforced (memberships_of db user_id tenant_id)
