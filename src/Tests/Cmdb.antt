-- ===== src/Tests/Cmdb.antt =====
-- A run of the search for dependencies.
use Prim.Native.String.{String}
use aiops_x_enterprise_new.Prelude.{ℕ, ◌≡◌, refl, arith, none, some, [], ◌∷◌}
use aiops_x_enterprise_new.Cmdb.Dependencies.{
  DependencyAsset, AssetRelation, DependencyDb, CorrelationKey, of_asset, of_dependency,
  project_asset_ids, dependency_rows, dependency_graph, dependency_correlation_key,
}
use aiops_x_enterprise_new.Cmdb.Correlation.{Connected, self, link, key_given, same_key_if_linked}

abbrev asset : ℕ → String → DependencyAsset
asset i status = record { id = i; tenant_id = 7; project_id = 3; lifecycle_status = status }

abbrev relation : ℕ → ℕ → ℕ → String → AssetRelation
relation i source target kind = record {
  id = i;
  tenant_id = 7;
  source_asset_id = source;
  target_asset_id = target;
  relation_type = kind;
  expires_at = none;
}

-- Assets 4 and 6 depend on asset 5; asset 9 has been retired.
abbrev landscape : DependencyDb
landscape = record {
  assets = asset 4 "active" ∷ asset 5 "active" ∷ asset 6 "active" ∷ asset 9 "retired" ∷ [];
  asset_relations =
      relation 1 4 5 "DEPENDS_ON" ∷ relation 2 6 5 "RUNS_ON" ∷ relation 3 9 6 "RUNS_ON" ∷ [];
  now = 100;
  set_order = λ xs. xs;
}

four_five_six : dependency_correlation_key landscape 7 3 6 "db" ≡ some (of_dependency 4 "db")
unfolding dependency_correlation_key
four_five_six = refl

retired_alone : dependency_correlation_key landscape 7 3 9 "db" ≡ some (of_asset 9 "db")
unfolding dependency_correlation_key
retired_alone = refl

chain : Connected (dependency_graph landscape 7 3) 4 6
unfolding dependency_graph project_asset_ids dependency_rows
chain = link {x = 5} {y = 6} (link {x = 4} {y = 5} self refl) refl

key_given_example :
    (key : CorrelationKey) × (dependency_correlation_key landscape 7 3 6 "db" ≡ some key)
key_given_example = key_given landscape 7 3 6 "db"

same_key_if_linked_example :
    dependency_correlation_key landscape 7 3 4 "db"
    ≡ dependency_correlation_key landscape 7 3 6 "db"
unfolding dependency_graph project_asset_ids dependency_rows
same_key_if_linked_example =
    same_key_if_linked landscape 7 3 4 6 "db" (6 ∷ 5 ∷ 4 ∷ []) (4 ∷ 5 ∷ 6 ∷ []) (λ xs x. refl) refl
      refl refl refl (omega arith) (omega arith) chain
