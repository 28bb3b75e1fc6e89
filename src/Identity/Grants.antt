-- ===== src/Identity/Grants.antt =====
-- What the grants that apps/api/src/aiops_x_api/modules/identity/security.py makes from memberships
-- (`_project_grants_for_user`) let a caller reach by its scope checks (`ensure_asset_scope`).
use Prim.Native.String.{String}
use aiops_x_enterprise_new.Prelude.{
  ℕ, ◌==◌, ==_iff, ◌≡◌, refl, sym, ap, ◌∙◌, Bool, true, false, not, ◌&&◌, ◌||◌, Option, none, some,
  List, [], ◌∷◌, ◌++◌, map, select, some_of, arith, str_eq, inl, inr, Bool-cases, if◌then◌else◌,
}
use aiops_x_enterprise_new.Prelude.Texts.{has_text, meets}
use aiops_x_enterprise_new.Core.Errors.{◌>>◌, is_ok}
use aiops_x_enterprise_new.Identity.Principal.{ProjectGrant, Principal}
use aiops_x_enterprise_new.Identity.Scope.{
  RequiredAccess, allowed_levels, has_level, levels_meet, grant_for, binding_grants, AssetScope,
  asset_in_scope, is_empty, check_asset, check_level,
}
use aiops_x_enterprise_new.Identity.Access.{asset_scope_bound}
use aiops_x_enterprise_new.Identity.Membership.{
  ProjectMembership, MembershipDb, ProjectGrantAccumulator, empty_accumulator, memberships_of,
  joined, join_membership, aggregated, insert_item, sorted_items, project_grant, grants_of,
  project_grants_for_user,
}

-- The policy, on the memberships of one project: one of them has the level; if any of them names
-- environments then one names the asset's, and so for tags; and for GxP one of them allows it.
abbrev pub constrains_environment : ProjectMembership → Bool
constrains_environment m = not (is_empty m.environment_constraints)

abbrev pub constrains_tags : ProjectMembership → Bool
constrains_tags m = not (is_empty m.asset_tag_constraints)

abbrev pub admitted : RequiredAccess → AssetScope → List ProjectMembership → Bool
admitted needed a ms =
    some_of (λ (m : ProjectMembership). has_level (allowed_levels needed) m.access_level) ms
    && (not (some_of constrains_environment ms)
        || some_of (λ (m : ProjectMembership). has_text a.environment m.environment_constraints) ms)
    && (not (some_of constrains_tags ms)
        || some_of (λ (m : ProjectMembership). meets m.asset_tag_constraints a.tags) ms)
    && (not (str_eq a.gxp_classification "gxp")
        || some_of (λ (m : ProjectMembership). m.gxp_access) ms)

abbrev pub of_project : ℕ → List ProjectMembership → List ProjectMembership
of_project project ms = select (λ (m : ProjectMembership). m.project_id == project) ms

-- The dictionary, as a function of the key.
abbrev accumulated : ℕ → List (ℕ × ProjectGrantAccumulator) → Option ProjectGrantAccumulator
accumulated project [] = none
accumulated project ((other, value) ∷ rest) =
    let later = accumulated project rest in if other == project then some value else later

abbrev or_empty : Option ProjectGrantAccumulator → ProjectGrantAccumulator
or_empty none = empty_accumulator
or_empty (some current) = current

abbrev all_joined : List ProjectMembership → ProjectGrantAccumulator → ProjectGrantAccumulator
all_joined [] current = current
all_joined (m ∷ rest) current = all_joined rest (joined m current)

abbrev all_added :
    List ProjectMembership → Option ProjectGrantAccumulator → Option ProjectGrantAccumulator
all_added [] found = found
all_added (m ∷ rest) found = some (all_joined rest (joined m (or_empty found)))

accumulated-join :
    (project : ℕ) (m : ProjectMembership) (found : List (ℕ × ProjectGrantAccumulator))
    → accumulated project (join_membership m found) ≡ (
        if m.project_id == project
        then some (joined m (or_empty (accumulated project found)))
        else accumulated project found)
accumulated-join project m [] = refl
accumulated-join project m ((other, value) ∷ rest) = ground (arith, accumulated-join project m rest)

all_added-some :
    (ms : List ProjectMembership) (v : ProjectGrantAccumulator)
    → all_added ms (some v) ≡ some (all_joined ms v)
all_added-some [] v = refl
all_added-some (m ∷ ms) v = refl

accumulated-aggregated :
    (project : ℕ) (ms : List ProjectMembership) (found : List (ℕ × ProjectGrantAccumulator))
    → accumulated project (aggregated ms found)
      ≡ all_added (of_project project ms) (accumulated project found)
accumulated-aggregated project [] found = refl
accumulated-aggregated project (m ∷ rest) found =
    accumulated-aggregated project rest (join_membership m found)
    ∙ ap (all_added (of_project project rest)) (accumulated-join project m found)
    ∙ elim (Bool-cases (m.project_id == project)) [
      | inl same ↦ rw same (
          all_added-some (of_project project rest)
            (joined m (or_empty (accumulated project found))))
      | inr differs ↦ rw differs refl
    ]

accumulated-insert :
    (project key : ℕ) (value : ProjectGrantAccumulator) (xs : List (ℕ × ProjectGrantAccumulator))
    → accumulated project (insert_item (key, value) xs) ≡ accumulated project ((key, value) ∷ xs)
accumulated-insert project key value [] = refl
accumulated-insert project key value ((other, x) ∷ rest) =
    ground (arith, accumulated-insert project key value rest)

accumulated-sorted :
    (project : ℕ) (xs : List (ℕ × ProjectGrantAccumulator))
    → accumulated project (sorted_items xs) ≡ accumulated project xs
accumulated-sorted project [] = refl
accumulated-sorted project ((key, value) ∷ rest) =
    accumulated-insert project key value (sorted_items rest)
    ∙ ap (λ later. if key == project then some value else later) (accumulated-sorted project rest)

abbrev grant_as : ℕ → Option ProjectGrantAccumulator → Option ProjectGrant
grant_as project none = none
grant_as project (some value) = some (project_grant (project, value))

grant_for-map :
    (project : ℕ) (xs : List (ℕ × ProjectGrantAccumulator))
    → grant_for project (map project_grant xs) ≡ grant_as project (accumulated project xs)
grant_for-map project [] = refl
grant_for-map project ((other, value) ∷ rest) = elim (Bool-cases (other == project)) [
  | inl same ↦ rw same (ap (λ k. some (project_grant (k, value))) ((==_iff other project).0 same))
  | inr differs ↦ rw differs (grant_for-map project rest)
]

-- A test of an accumulator that a membership passes on to it.
module _ (f : ProjectGrantAccumulator → Bool) (g : ProjectMembership → Bool) where
  test_of_joined :
      ((m : ProjectMembership) (v : ProjectGrantAccumulator) → f (joined m v) ≡ (g m || f v))
      → (ms : List ProjectMembership) (v : ProjectGrantAccumulator)
      → f (all_joined ms v) ≡ (some_of g ms || f v)
  test_of_joined step [] v = refl
  test_of_joined step (m ∷ ms) v =
      let later = test_of_joined step ms (joined m v) in let here = step m v in ground arith

  test_of_all :
      ((m : ProjectMembership) (v : ProjectGrantAccumulator) → f (joined m v) ≡ (g m || f v))
      → f empty_accumulator ≡ false
      → (ms : List ProjectMembership) → f (all_joined ms empty_accumulator) ≡ some_of g ms
  test_of_all step base ms = let joint = test_of_joined step ms empty_accumulator in ground arith

has_text-append :
    (s : String) (xs ys : List String) → has_text s (xs ++ ys) ≡ (has_text s xs || has_text s ys)
has_text-append s [] ys = refl
has_text-append s (x ∷ xs) ys = ground (arith, has_text-append s xs ys)

meets-append : (tags xs ys : List String) → meets (xs ++ ys) tags ≡ (meets xs tags || meets ys tags)
meets-append tags [] ys = refl
meets-append tags (x ∷ xs) ys = ground (arith, meets-append tags xs ys)

nonempty-append :
    (xs ys : List String) → not (is_empty (xs ++ ys)) ≡ (not (is_empty xs) || not (is_empty ys))
nonempty-append [] ys = refl
nonempty-append (x ∷ xs) ys = refl

-- The outcome of the checks of an asset.
abbrev passes : RequiredAccess → AssetScope → Option ProjectGrant → Bool
passes needed a found = is_ok (check_level needed found >> check_asset a found)

passes_grant :
    (needed : RequiredAccess) (a : AssetScope) (g : ProjectGrant)
    → passes needed a (some g) ≡ (
        levels_meet g.access_levels (allowed_levels needed)
        && (not (not (is_empty g.environment_constraints))
            || has_text a.environment g.environment_constraints)
        && (not (not (is_empty g.asset_tag_constraints)) || meets g.asset_tag_constraints a.tags)
        && (not (str_eq a.gxp_classification "gxp") || g.gxp_access))
passes_grant needed a g = ground arith

passes_joined :
    (needed : RequiredAccess) (a : AssetScope) (project : ℕ) (ms : List ProjectMembership)
    → passes needed a (grant_as project (some (all_joined ms empty_accumulator)))
      ≡ admitted needed a ms
passes_joined needed a project ms =
    let levels =
      test_of_all (λ v. levels_meet v.access_levels (allowed_levels needed))
        (λ m. has_level (allowed_levels needed) m.access_level) (λ m v. refl) refl ms in
    let names_environments =
      test_of_all (λ v. not (is_empty v.environment_constraints)) constrains_environment
        (λ m v. nonempty-append m.environment_constraints v.environment_constraints) refl ms in
    let environment =
      test_of_all (λ v. has_text a.environment v.environment_constraints)
        (λ m. has_text a.environment m.environment_constraints)
        (λ m v. has_text-append a.environment m.environment_constraints v.environment_constraints)
        refl ms in
    let names_tags =
      test_of_all (λ v. not (is_empty v.asset_tag_constraints)) constrains_tags
        (λ m v. nonempty-append m.asset_tag_constraints v.asset_tag_constraints) refl ms in
    let tags =
      test_of_all (λ v. meets v.asset_tag_constraints a.tags)
        (λ m. meets m.asset_tag_constraints a.tags)
        (λ m v. meets-append a.tags m.asset_tag_constraints v.asset_tag_constraints) refl ms in
    let gxp = test_of_all (λ v. v.gxp_access) (λ m. m.gxp_access) (λ m v. ground arith) refl ms in
    passes_grant needed a (project_grant (project, all_joined ms empty_accumulator))
    ∙ rw (levels, names_environments, environment, names_tags, tags, gxp)

passes_added :
    (needed : RequiredAccess) (a : AssetScope) (project : ℕ) (ms : List ProjectMembership)
    → passes needed a (grant_as project (all_added ms none)) ≡ admitted needed a ms
passes_added needed a project [] = refl
passes_added needed a project (m ∷ ms) = passes_joined needed a project (m ∷ ms)

passes_grants :
    (needed : RequiredAccess) (a : AssetScope) (enforced : Bool) (ms : List ProjectMembership)
    (grants : List ProjectGrant)
    → grants_of enforced ms ≡ some grants
    → passes needed a (grant_for a.project_id grants)
      ≡ admitted needed a (of_project a.project_id ms)
passes_grants needed a false [] grants h = cc
passes_grants needed a true [] grants h = let none_made : [] ≡ grants = cc in rw (← none_made) refl
passes_grants needed a enforced (m ∷ ms) grants h =
    let items = aggregated (m ∷ ms) [] in
    let made : map project_grant (sorted_items items) ≡ grants = cc in
    ap (λ gs. passes needed a (grant_for a.project_id gs)) (sym made)
    ∙ ap (passes needed a) (
        grant_for-map a.project_id (sorted_items items)
        ∙ ap (grant_as a.project_id) (
            accumulated-sorted a.project_id items
            ∙ accumulated-aggregated a.project_id (m ∷ ms) []))
    ∙ passes_added needed a a.project_id (of_project a.project_id (m ∷ ms))

granted :
    (p : Principal) (grants : List ProjectGrant)
    → binding_grants p ≡ some grants
    → p.project_grants ≡ some grants
granted p grants h = ground arith

-- A caller whose grants have been made from the memberships, and whom these bind, gets at an asset
-- exactly if the caller's memberships in the asset's project admit it together: one of them has a
-- level that the route needs; one names the asset's environment, unless none names any; one names
-- a tag of the asset, unless none names any; and one has access to GxP, if the asset is under GxP.
pub in_scope-by_memberships :
    (p : Principal) (db : MembershipDb) (needed : RequiredAccess) (a : AssetScope)
    (grants : List ProjectGrant)
    → p.project_grants ≡ project_grants_for_user db p.user_id p.tenant_id
    → binding_grants p ≡ some grants
    → asset_in_scope p needed a
      ≡ admitted needed a (of_project a.project_id (memberships_of db p.user_id p.tenant_id))
unfolding project_grants_for_user asset_in_scope
in_scope-by_memberships p db needed a grants loaded bound =
    let ms = memberships_of db p.user_id p.tenant_id in
    let made : grants_of db.abac_enforced ms ≡ some grants = sym loaded ∙ granted p grants bound in
    ap is_ok (asset_scope_bound p needed a grants bound)
    ∙ passes_grants needed a db.abac_enforced ms grants made
