-- ===== src/Cmdb/Dependencies.antt =====
-- apps/api/src/aiops_x_api/modules/cmdb: `dependency_correlation_key` (application.py), by which
-- alerts of assets that depend on each other are correlated, with the columns that it reads
-- (infrastructure/models.py). A dictionary is a function; a set is a list of its elements, and the
-- order in which Python walks through a set is read from outside.
use Prim.Native.String.{String}
use aiops_x_enterprise_new.Prelude.{
  ℕ, zero, suc, ◌==◌, ltb, leb, Bool, true, false, not, ◌&&◌, Option, none, some, List, [], ◌∷◌,
  map, select, contains, length, if◌then◌else◌, str_eq,
}
use aiops_x_enterprise_new.Prelude.Texts.{has_text}

pub record DependencyAsset : Type 0 where
  pub id : ℕ
  pub tenant_id : ℕ
  pub project_id : ℕ
  pub lifecycle_status : String

pub record AssetRelation : Type 0 where
  pub id : ℕ
  pub tenant_id : ℕ
  pub source_asset_id : ℕ
  pub target_asset_id : ℕ
  pub relation_type : String
  pub expires_at : Option ℕ

-- The tables, the clock, and the order of the elements of a set.
pub record DependencyDb : Type 0 where
  pub assets : List DependencyAsset
  pub asset_relations : List AssetRelation
  pub now : ℕ
  pub set_order : List ℕ → List ℕ

-- The texts `asset:<id>:service:<service>` and `dependency:<id>:service:<service>`.
pub data CorrelationKey : Type 0 where
  of_asset of_dependency : ℕ → String → CorrelationKey

unfoldable pub project_asset_ids : DependencyDb → ℕ → ℕ → List ℕ
project_asset_ids db tenant_id project_id =
    map (λ (a : DependencyAsset). a.id)
      (select
        (λ (a : DependencyAsset).
          (a.tenant_id == tenant_id)
          && (a.project_id == project_id)
          && not (str_eq a.lifecycle_status "retired"))
        db.assets)

abbrev pub is_in_force : ℕ → Option ℕ → Bool
is_in_force now none = true
is_in_force now (some expires_at) = ltb now expires_at

unfoldable pub dependency_rows : DependencyDb → ℕ → List ℕ → List AssetRelation
dependency_rows db tenant_id ids =
    select
      (λ (r : AssetRelation).
        (r.tenant_id == tenant_id)
        && contains r.source_asset_id ids
        && contains r.target_asset_id ids
        && has_text r.relation_type
            ("DEPENDS_ON" ∷ "RUNS_ON" ∷ "CONNECTS_TO" ∷ "STORES_DATA_IN" ∷ "EXPOSES" ∷ [])
        && is_in_force db.now r.expires_at)
      db.asset_relations

-- `graph.setdefault(a, set()).add(b)`.
abbrev pub add_edge : ℕ → ℕ → (ℕ → List ℕ) → ℕ → List ℕ
add_edge a b graph x = if a == x then b ∷ graph x else graph x

abbrev pub graph_of : List AssetRelation → ℕ → List ℕ
graph_of [] x = []
graph_of (r ∷ rest) x =
    add_edge r.target_asset_id r.source_asset_id
      (add_edge r.source_asset_id r.target_asset_id (graph_of rest)) x

-- The component and the frontier, whose last element stands first.
pub record Search : Type 0 where
  pub component : List ℕ
  pub frontier : List ℕ

-- `set.add`: an element that is there is not added again, so that the length of the list is that of
-- the set.
abbrev pub set_add : ℕ → List ℕ → List ℕ
set_add x xs = if contains x xs then xs else x ∷ xs

abbrev pub add_neighbor : ℕ → Search → Search
add_neighbor neighbor s =
    if not (contains neighbor s.component)
    then record { component = set_add neighbor s.component; frontier = neighbor ∷ s.frontier }
    else s

abbrev pub add_neighbors : List ℕ → Search → Search
add_neighbors [] s = s
add_neighbors (neighbor ∷ rest) s = add_neighbors rest (add_neighbor neighbor s)

abbrev pub component_limit : ℕ
component_limit = 200

-- The loop, on fuel: there is no result if the fuel ends before the loop.
abbrev pub explore : (ℕ → List ℕ) → ℕ → List ℕ → List ℕ → Option (List ℕ)
explore graph fuel component [] = some component
explore graph zero component (current ∷ rest) =
    if leb component_limit (length component) then some component else none
explore graph (suc fuel) component (current ∷ rest) =
    elim (leb component_limit (length component)) [
      | true ↦ some component
      | false ↦
          let s =
            add_neighbors (graph current) (record { component = component; frontier = rest }) in
          explore graph fuel s.component s.frontier
    ]

abbrev pub component_of : (ℕ → List ℕ) → ℕ → Option (List ℕ)
component_of graph asset_id = explore graph component_limit (set_add asset_id []) (asset_id ∷ [])

abbrev pub least : ℕ → List ℕ → ℕ
least a [] = a
least a (x ∷ rest) = least (if ltb x a then x else a) rest

abbrev pub key_of_component : ℕ → String → List ℕ → CorrelationKey
key_of_component asset_id service [] = of_asset asset_id service
key_of_component asset_id service (x ∷ []) = of_asset asset_id service
key_of_component asset_id service (x ∷ y ∷ rest) = of_dependency (least x (y ∷ rest)) service

unfoldable pub dependency_graph : DependencyDb → ℕ → ℕ → ℕ → List ℕ
unfolding project_asset_ids dependency_rows
dependency_graph db tenant_id project_id x =
    let ids = project_asset_ids db tenant_id project_id in
    db.set_order (graph_of (dependency_rows db tenant_id ids) x)

unfoldable pub dependency_correlation_key :
    DependencyDb → ℕ → ℕ → ℕ → String → Option CorrelationKey
unfolding project_asset_ids dependency_graph
dependency_correlation_key db tenant_id project_id asset_id service =
    if not (contains asset_id (project_asset_ids db tenant_id project_id))
    then some (of_asset asset_id service)
    else elim (component_of (dependency_graph db tenant_id project_id) asset_id) [
      | none ↦ none
      | some component ↦ some (key_of_component asset_id service component)
    ]
