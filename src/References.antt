-- ===== src/References.antt =====
-- How a handler checks the identifiers of a request against tables of other components: the
-- `require_…_refs` functions under apps/api/src/aiops_x_api/modules. Of a row only what the
-- queries read is kept.
use aiops_x_enterprise_new.Prelude.{
  ℕ, Bool, ◌==◌, ◌&&◌, Option, none, some, List, [], ◌∷◌, select, some_of, map, contains, same_set,
  if◌then◌else◌,
}
use aiops_x_enterprise_new.Core.Errors.{
  ApplicationError, Result, ok, app_error, guard, required, ◌>>=◌, ◌>>◌,
}
use aiops_x_enterprise_new.Identity.Scope.{AssetScope}

pub record ScopedRow : Type 0 where
  pub id : ℕ
  pub tenant_id : ℕ
  pub project_id : ℕ

pub record AssetRow : Type 0 where
  pub id : ℕ
  pub tenant_id : ℕ
  pub scope : AssetScope
  pub open scope use *

pub record UserRow : Type 0 where
  pub id : ℕ
  pub tenant_id : ℕ
  pub is_active : Bool

-- What the other components' tables hold when a request is handled.
pub record Directory : Type 0 where
  pub projects : List ScopedRow
  pub evidence : List ScopedRow
  pub assets : List AssetRow
  pub incidents : List ScopedRow
  pub automation_jobs : List ScopedRow
  pub events : List ScopedRow
  pub alerts : List ScopedRow
  pub changes : List ScopedRow
  pub users : List UserRow

abbrev ids_in_scope : List ScopedRow → ℕ → ℕ → List ℕ → List ℕ
ids_in_scope rows tenant project ids =
    map (λ (r : ScopedRow). r.id)
      (select
        (λ (r : ScopedRow). contains r.id ids && (r.tenant_id == tenant && r.project_id == project))
        rows)

-- `if not ids: return`, then the query, then the comparison of the two sets.
unfoldable pub require_refs : ApplicationError → List ScopedRow → ℕ → ℕ → List ℕ → Result (Unit {0})
require_refs e rows tenant project [] = ok tt
require_refs e rows tenant project (i ∷ ids) =
    guard (same_set (ids_in_scope rows tenant project (i ∷ ids)) (i ∷ ids)) e

unfoldable pub require_evidence_refs : Directory → ℕ → ℕ → List ℕ → Result (Unit {0})
unfolding require_refs
require_evidence_refs d = require_refs (app_error "AIOPS_8005" 422) d.evidence

unfoldable pub require_incident_refs : Directory → ℕ → ℕ → List ℕ → Result (Unit {0})
unfolding require_refs
require_incident_refs d = require_refs (app_error "AIOPS_8206" 404) d.incidents

unfoldable pub require_alert_refs : Directory → ℕ → ℕ → List ℕ → Result (Unit {0})
unfolding require_refs
require_alert_refs d = require_refs (app_error "AIOPS_8106" 404) d.alerts

unfoldable pub require_change_refs : Directory → ℕ → ℕ → List ℕ → Result (Unit {0})
unfolding require_refs
require_change_refs d = require_refs (app_error "AIOPS_8107" 404) d.changes

-- One optional reference.
abbrev require_ref : ApplicationError → List ScopedRow → ℕ → ℕ → Option ℕ → Result (Unit {0})
require_ref e rows tenant project none = ok tt
require_ref e rows tenant project (some id) =
    guard
      (some_of (λ (r : ScopedRow). r.id == id && (r.tenant_id == tenant && r.project_id == project))
        rows)
      e

unfoldable pub require_automation_job_ref : Directory → ℕ → ℕ → Option ℕ → Result (Unit {0})
require_automation_job_ref d = require_ref (app_error "AIOPS_8219" 404) d.automation_jobs

unfoldable pub require_event_ref : Directory → ℕ → ℕ → Option ℕ → Result (Unit {0})
require_event_ref d = require_ref (app_error "AIOPS_8105" 404) d.events

unfoldable pub require_active_user_refs : Directory → ℕ → List ℕ → Result (Unit {0})
require_active_user_refs d tenant [] = ok tt
require_active_user_refs d tenant (i ∷ ids) =
    guard
      (same_set
        (map (λ (r : UserRow). r.id)
          (select
            (λ (r : UserRow). contains r.id (i ∷ ids) && (r.tenant_id == tenant && r.is_active))
            d.users))
        (i ∷ ids))
      (app_error "AIOPS_2110" 404)

unfoldable pub get_project_in_tenant : Directory → ℕ → ℕ → Result (Unit {0})
get_project_in_tenant d tenant project =
    guard (some_of (λ (r : ScopedRow). r.id == project && r.tenant_id == tenant) d.projects)
      (app_error "AIOPS_3004" 404)

abbrev assets_in_scope : List AssetRow → ℕ → ℕ → List ℕ → List AssetRow
assets_in_scope rows tenant project ids =
    select
      (λ (r : AssetRow). contains r.id ids && (r.tenant_id == tenant && r.project_id == project))
      rows

-- `by_id[asset_id]`, for each identifier that was asked for.
abbrev asset_by_id : ℕ → List AssetRow → Option AssetRow
asset_by_id i [] = none
asset_by_id i (r ∷ rest) = let found = asset_by_id i rest in if r.id == i then some r else found

views : List AssetRow → List ℕ → Result (List AssetScope)
views rows [] = ok []
views rows (i ∷ ids) = do
  row ← required (asset_by_id i rows) (app_error "KeyError" 500)
  rest ← views rows ids
  ok (row.scope ∷ rest)

unfoldable pub require_asset_refs : Directory → ℕ → ℕ → List ℕ → Result (List AssetScope)
unfolding views
require_asset_refs d tenant project [] = ok []
require_asset_refs d tenant project (i ∷ ids) = do
  let rows = assets_in_scope d.assets tenant project (i ∷ ids)
  guard (same_set (map (λ (r : AssetRow). r.id) rows) (i ∷ ids)) (app_error "AIOPS_3105" 404)
  views rows (i ∷ ids)
