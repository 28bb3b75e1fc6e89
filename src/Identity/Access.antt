-- ===== src/Identity/Access.antt =====
-- What the scope checks of apps/api/src/aiops_x_api/modules/identity/security.py guarantee.
use Prim.Native.String.{String}
use mathlib.Core.List.{Memᴰ}
use aiops_x_enterprise_new.Prelude.{
  ℕ, ◌==◌, ◌≡◌, refl, sym, ap, ◌⊎◌, inl, inr, ◌∙◌, Bool, true, false, not, ◌&&◌, Option, none, some,
  List, [], ◌∷◌, some_of, map, arith, str_eq, eq_iff, ==_iff, contains, Bool-cases, Option-cases,
}
use aiops_x_enterprise_new.Prelude.Texts.{has_text, meets}
use aiops_x_enterprise_new.Core.Errors.{ok, ◌>>◌, is_ok}
use aiops_x_enterprise_new.Identity.Principal.{AccessLevel, ProjectGrant, Principal}
use aiops_x_enterprise_new.Identity.Scope.{
  RequiredAccess, viewer, operator, approver, manager, allowed_levels, has_level, levels_meet,
  grant_for, binding_grants, ensure_project_scope, scoped_project_ids, AssetScope,
  ensure_asset_scope, asset_in_scope, is_empty, check_asset, check_level,
}

some_of-Memᴰ {ℓ} :
    {A : Type ℓ} (p : A → Bool) (xs : List A)
    → some_of p xs ≡ true
    → (a : A) × Memᴰ a xs × (p a ≡ true)
some_of-Memᴰ p [] h = cc
some_of-Memᴰ p (x ∷ xs) h = elim (Bool-cases (p x)) [
  | inl here ↦ (x, Memᴰ.head refl, here)
  | inr there ↦ let (a, m, q) = some_of-Memᴰ p xs (rw there at h) in (a, Memᴰ.tail m, q)
]

has_text-Memᴰ : (s : String) (xs : List String) → has_text s xs ≡ true → Memᴰ s xs
has_text-Memᴰ s [] h = cc
has_text-Memᴰ s (x ∷ xs) h = elim (Bool-cases (str_eq x s)) [
  | inl here ↦ Memᴰ.head (sym ((eq_iff x s).0 here))
  | inr there ↦ Memᴰ.tail (has_text-Memᴰ s xs (rw there at h))
]

grant_for-Memᴰ :
    (project : ℕ) (grants : List ProjectGrant) {g : ProjectGrant}
    → grant_for project grants ≡ some g
    → Memᴰ g grants × (g.project_id ≡ project)
grant_for-Memᴰ project [] h = cc
grant_for-Memᴰ project (x ∷ grants) {g} h = elim (Bool-cases (x.project_id == project)) [
  | inl here ↦
      let e : x ≡ g = ground arith in
      (
        Memᴰ.head (sym e),
        ap (λ (y : ProjectGrant). y.project_id) (sym e) ∙ (==_iff x.project_id project).0 here,
      )
  | inr there ↦ let (m, q) = grant_for-Memᴰ project grants (rw there at h) in (Memᴰ.tail m, q)
]

-- What a grant must say for an asset.
pub record Covers (needed : RequiredAccess) (a : AssetScope) (g : ProjectGrant) : Type 0 where
  pub project : g.project_id ≡ a.project_id
  pub level : levels_meet g.access_levels (allowed_levels needed) ≡ true
  pub environment : (g.environment_constraints ≡ []) ⊎ Memᴰ a.environment g.environment_constraints
  pub tags :
      (g.asset_tag_constraints ≡ [])
      ⊎ ((t : String) × Memᴰ t g.asset_tag_constraints × Memᴰ t a.tags)
  pub gxp : a.gxp_classification ≡ "gxp" → g.gxp_access ≡ true

empty_or_Memᴰ :
    (s : String) (xs : List String)
    → (not (is_empty xs) && not (has_text s xs)) ≡ false
    → (xs ≡ []) ⊎ Memᴰ s xs
empty_or_Memᴰ s [] h = inl refl
empty_or_Memᴰ s (x ∷ xs) h = inr (has_text-Memᴰ s (x ∷ xs) (ground arith))

empty_or_meets :
    (xs ys : List String)
    → (not (is_empty xs) && not (meets xs ys)) ≡ false
    → (xs ≡ []) ⊎ ((t : String) × Memᴰ t xs × Memᴰ t ys)
empty_or_meets [] ys h = inl refl
empty_or_meets (x ∷ xs) ys h =
    let (t, m, q) = some_of-Memᴰ (λ t. has_text t ys) (x ∷ xs) (ground arith) in
    inr (t, m, has_text-Memᴰ t ys q)

check_asset-Covers :
    (needed : RequiredAccess) (a : AssetScope) (g : ProjectGrant)
    → g.project_id ≡ a.project_id
    → check_level needed (some g) ≡ ok tt
    → check_asset a (some g) ≡ ok tt
    → Covers needed a g
check_asset-Covers needed a g own level h = record {
  project = own;
  level = ground arith;
  environment = empty_or_Memᴰ a.environment g.environment_constraints (ground arith);
  tags = empty_or_meets g.asset_tag_constraints a.tags (ground arith);
  gxp = λ e. ground (arith, eq_iff a.gxp_classification "gxp");
}

pub project_scope_bound :
    (p : Principal) (needed : RequiredAccess) (project : ℕ) (grants : List ProjectGrant)
    → binding_grants p ≡ some grants
    → ensure_project_scope p needed project ≡ check_level needed (grant_for project grants)
unfolding ensure_project_scope
project_scope_bound p needed project grants bound = rw (bound, ensure_project_scope)

pub asset_scope_bound :
    (p : Principal) (needed : RequiredAccess) (a : AssetScope) (grants : List ProjectGrant)
    → binding_grants p ≡ some grants
    → let found = grant_for a.project_id grants in
      ensure_asset_scope p needed a ≡ (check_level needed found >> check_asset a found)
unfolding ensure_asset_scope
asset_scope_bound p needed a grants bound =
    rw (bound, ensure_asset_scope) (rw (project_scope_bound p needed a.project_id grants bound))

covering_grant :
    (needed : RequiredAccess) (a : AssetScope) (grants : List ProjectGrant)
    (o : Option ProjectGrant)
    → grant_for a.project_id grants ≡ o
    → is_ok (check_level needed o >> check_asset a o) ≡ true
    → (g : ProjectGrant) × Memᴰ g grants × Covers needed a g
covering_grant needed a grants none e h = cc
covering_grant needed a grants (some g) e h =
    let (m, own) = grant_for-Memᴰ a.project_id grants e in
    (g, m, check_asset-Covers needed a g own (ground arith) (ground arith))

-- A caller whom grants bind gets at an asset only by a grant that covers it: one of its own, of the
-- asset's project, at a level that the route needs, whose environments and tags admit the asset,
-- and with access to GxP if the asset is under GxP.
pub in_scope-Covers :
    (p : Principal) (needed : RequiredAccess) (a : AssetScope) (grants : List ProjectGrant)
    → binding_grants p ≡ some grants
    → asset_in_scope p needed a ≡ true
    → (g : ProjectGrant) × Memᴰ g grants × Covers needed a g
unfolding asset_in_scope
in_scope-Covers p needed a grants bound h =
    covering_grant needed a grants (grant_for a.project_id grants) refl
      (ap is_ok (sym (asset_scope_bound p needed a grants bound)) ∙ h)

-- What one level is allowed, so is a higher one: managers may do all, operators and approvers may
-- read, and neither of these stands in for the other.
abbrev pub at_least : RequiredAccess → RequiredAccess → Bool
at_least manager needed = true
at_least operator viewer = true
at_least operator operator = true
at_least approver viewer = true
at_least approver approver = true
at_least viewer viewer = true
at_least _ _ = false

allowed_mono :
    (high low : RequiredAccess) (l : AccessLevel)
    → at_least high low ≡ true
    → has_level (allowed_levels high) l ≡ true
    → has_level (allowed_levels low) l ≡ true
allowed_mono high low l g h = ground arith

levels_meet_mono :
    (high low : RequiredAccess) (levels : List AccessLevel)
    → at_least high low ≡ true
    → levels_meet levels (allowed_levels high) ≡ true
    → levels_meet levels (allowed_levels low) ≡ true
levels_meet_mono high low [] g h = cc
levels_meet_mono high low (l ∷ levels) g h = elim (Bool-cases (has_level (allowed_levels high) l)) [
  | inl here ↦ rw (allowed_mono high low l g here)
  | inr there ↦ ground (arith, levels_meet_mono high low levels g)
]

check_level_mono :
    (high low : RequiredAccess) (o : Option ProjectGrant)
    → at_least high low ≡ true
    → check_level high o ≡ ok tt
    → check_level low o ≡ ok tt
check_level_mono high low none g h = cc
check_level_mono high low (some x) g h = ground (arith, levels_meet_mono high low x.access_levels g)

-- Access at a level carries every level below it.
pub project_scope_mono :
    (p : Principal) (high low : RequiredAccess) (project : ℕ)
    → at_least high low ≡ true
    → ensure_project_scope p high project ≡ ok tt
    → ensure_project_scope p low project ≡ ok tt
unfolding ensure_project_scope
project_scope_mono p high low project g h = elim (Option-cases (binding_grants p)) [
  | inl free ↦ rw (free, ensure_project_scope)
  | inr (grants, bound) ↦
      project_scope_bound p low project grants bound
      ∙ check_level_mono high low (grant_for project grants) g
          (sym (project_scope_bound p high project grants bound) ∙ h)
]

project_ids_of : List ProjectGrant → List ℕ
project_ids_of = map (λ (x : ProjectGrant). x.project_id)

listed :
    (needed : RequiredAccess) (project : ℕ) (grants : List ProjectGrant)
    → check_level needed (grant_for project grants) ≡ ok tt
    → contains project (project_ids_of grants) ≡ true
unfolding project_ids_of
listed needed project [] h = cc
listed needed project (x ∷ grants) h = elim (Bool-cases (x.project_id == project)) [
  | inl here ↦ rw here
  | inr there ↦ rw there (listed needed project grants (rw there at h))
]

scoped_ids_bound :
    (p : Principal) (grants : List ProjectGrant)
    → binding_grants p ≡ some grants
    → scoped_project_ids p ≡ some (project_ids_of grants)
unfolding scoped_project_ids project_ids_of
scoped_ids_bound p grants bound = rw (bound, scoped_project_ids)

-- What a detail route admits, the list route shows: a project that a caller may reach is among
-- those that its lists are filtered by, if they are filtered at all.
pub reachable_listed :
    (p : Principal) (needed : RequiredAccess) (project : ℕ) (ids : List ℕ)
    → scoped_project_ids p ≡ some ids
    → ensure_project_scope p needed project ≡ ok tt
    → contains project ids ≡ true
unfolding scoped_project_ids
reachable_listed p needed project ids s h = elim (Option-cases (binding_grants p)) [
  | inl free ↦ cc (rw (free, scoped_project_ids) at s)
  | inr (grants, bound) ↦
      let same : project_ids_of grants ≡ ids = cc (s, scoped_ids_bound p grants bound) in
      rw (← same)
        (listed needed project grants (sym (project_scope_bound p needed project grants bound) ∙ h))
]
