-- ===== src/Cmdb/Correlation.antt =====
-- The key that `dependency_correlation_key` in
-- apps/api/src/aiops_x_api/modules/cmdb/application.py gives to the assets of one component.
use Prim.Native.String.{String}
use aiops_x_enterprise_new.Prelude.{
  ℕ, ◌≤◌, ◌<◌, ◌==◌, ==_iff, ==_refl, ltb, ◌≡◌, refl, sym, ap, ◌∙◌, inl, inr, true, false, some,
  List, [], ◌∷◌, arith, contains, length, Bool-cases, if◌then◌else◌,
}
use aiops_x_enterprise_new.Cmdb.Dependencies.{
  AssetRelation, DependencyDb, CorrelationKey, of_asset, project_asset_ids, dependency_rows,
  graph_of, component_limit, component_of, least, key_of_component, dependency_graph,
  dependency_correlation_key,
}
use aiops_x_enterprise_new.Cmdb.Exploration.{
  In, IsClosed, component-ends, component-start, component-IsClosed, component-within,
}

-- A chain of dependencies, each walked in either direction.
pub data Connected (graph : ℕ → List ℕ) (a : ℕ) : ℕ → Type 0 where
  self : Connected graph a a
  link : {x y : ℕ} → Connected graph a x → In y (graph x) → Connected graph a y

abbrev pub IsSymmetric : (ℕ → List ℕ) → Type 0
IsSymmetric graph = (x y : ℕ) → In y (graph x) → In x (graph y)

graph_of-IsSymmetric : (rows : List AssetRelation) → IsSymmetric (graph_of rows)
graph_of-IsSymmetric [] x y h = cc
graph_of-IsSymmetric (r ∷ rows) x y h = ground (arith, graph_of-IsSymmetric rows x y)

abbrev smaller : ℕ → ℕ → ℕ
smaller a y = if ltb y a then y else a

-- The least of a list.
least-lower : (a : ℕ) (xs : List ℕ) (x : ℕ) → In x (a ∷ xs) → least a xs ≤ x
least-lower a [] x h = ground arith
least-lower a (y ∷ ys) x h =
    let m = smaller a y in
    let bound : least m ys ≤ m = least-lower m ys m (ground (arith, ==_refl m)) in
    let below : (m ≤ a) × (m ≤ y) = ground arith in
    elim (Bool-cases (contains x (a ∷ y ∷ []))) [
      | inl first ↦ let upper : m ≤ x = ground (arith, below) in omega (arith, bound, upper)
      | inr other ↦ least-lower m ys x (ground arith)
    ]

least-In : (a : ℕ) (xs : List ℕ) → In (least a xs) (a ∷ xs)
least-In a [] = rw (==_refl a) refl
least-In a (y ∷ ys) = let m = smaller a y in let later = least-In m ys in ground arith

least-same :
    (a b : ℕ) (xs ys : List ℕ)
    → ((x : ℕ) → In x (a ∷ xs) → In x (b ∷ ys))
    → ((x : ℕ) → In x (b ∷ ys) → In x (a ∷ xs))
    → least a xs ≡ least b ys
least-same a b xs ys f g =
    let below = least-lower b ys (least a xs) (f (least a xs) (least-In a xs)) in
    let above = least-lower a xs (least b ys) (g (least b ys) (least-In b ys)) in
    omega (arith, below, above)

-- Two lists with the same elements, among which are two different ones, have the same key.
key-same :
    (a b : ℕ) (service : String) (xs ys : List ℕ)
    → In a xs
    → In b xs
    → ((x : ℕ) → In x xs → In x ys)
    → ((x : ℕ) → In x ys → In x xs)
    → (a == b) ≡ false
    → key_of_component a service xs ≡ key_of_component b service ys
key-same a b service [] ys p q f g differ = cc
key-same a b service (x ∷ []) ys p q f g differ = absurd (ground arith)
key-same a b service (x ∷ y ∷ xs) [] p q f g differ = cc (f a p)
key-same a b service (x ∷ y ∷ xs) (z ∷ []) p q f g differ =
    let one = f a p in let two = f b q in absurd (ground (arith, one, two))
key-same a b service (x ∷ y ∷ xs) (z ∷ w ∷ ys) p q f g differ =
    ap (λ n. CorrelationKey.of_dependency n service) (least-same x z (y ∷ xs) (w ∷ ys) f g)

module _ (graph : ℕ → List ℕ) (symmetric : IsSymmetric graph) where
  Connected-In :
      (a b : ℕ) (set : List ℕ) → IsClosed graph set → In a set → Connected graph a b → In b set
  Connected-In a b set closed m self = m
  Connected-In a b set closed m (link {x} {y} chain last) =
      closed x b (Connected-In a x set closed m chain) last

  Connected-In_start :
      (a b : ℕ) (set : List ℕ) → IsClosed graph set → In b set → Connected graph a b → In a set
  Connected-In_start a b set closed m self = m
  Connected-In_start a b set closed m (link {x} {y} chain last) =
      Connected-In_start a x set closed (closed b x m (symmetric x b last)) chain

  component-same :
      (a b : ℕ) (service : String) (xs ys : List ℕ)
      → component_of graph a ≡ some xs
      → component_of graph b ≡ some ys
      → length xs < component_limit
      → length ys < component_limit
      → Connected graph a b
      → key_of_component a service xs ≡ key_of_component b service ys
  component-same a b service xs ys e h small tiny chain =
      let from_a = component-IsClosed graph a xs e small in
      let from_b = component-IsClosed graph b ys h tiny in
      let a_first = component-start graph a xs e in
      let b_first = component-start graph b ys h in
      let b_later = Connected-In a b xs from_a a_first chain in
      let a_later = Connected-In_start a b ys from_b b_first chain in
      elim (Bool-cases (a == b)) [
        | inl same ↦
            let eq : a ≡ b = (==_iff a b).0 same in let found : xs ≡ ys = cc in rw (eq, found) refl
        | inr differ ↦
            key-same a b service xs ys a_first b_later
              (component-within graph a ys xs from_b a_later e)
              (component-within graph b xs ys from_a b_later h) differ
      ]

-- The order in which a set is walked through gives its elements, and no others.
abbrev pub KeepsElements : (List ℕ → List ℕ) → Type 0
KeepsElements order = (xs : List ℕ) (x : ℕ) → contains x (order xs) ≡ contains x xs

dependency_graph-IsSymmetric :
    (db : DependencyDb) (tenant_id project_id : ℕ)
    → KeepsElements db.set_order
    → IsSymmetric (dependency_graph db tenant_id project_id)
unfolding dependency_graph
dependency_graph-IsSymmetric db tenant_id project_id keeps x y h =
    let rows = dependency_rows db tenant_id (project_asset_ids db tenant_id project_id) in
    keeps (graph_of rows y) x ∙ graph_of-IsSymmetric rows x y (sym (keeps (graph_of rows x) y) ∙ h)

-- The key of an asset whose component has been found.
key_found :
    (db : DependencyDb) (tenant_id project_id a : ℕ) (service : String) (found : List ℕ)
    → In a (project_asset_ids db tenant_id project_id)
    → component_of (dependency_graph db tenant_id project_id) a ≡ some found
    → dependency_correlation_key db tenant_id project_id a service
      ≡ some (key_of_component a service found)
unfolding dependency_correlation_key
key_found db tenant_id project_id a service found active e =
    rw (active, e, dependency_correlation_key)

-- The loop that collects a component always ends, so that every asset gets a key.
pub key_given :
    (db : DependencyDb) (tenant_id project_id asset_id : ℕ) (service : String)
    → (key : CorrelationKey) × (dependency_correlation_key db tenant_id project_id asset_id service
        ≡ some key)
unfolding dependency_correlation_key
key_given db tenant_id project_id asset_id service =
    elim (Bool-cases (contains asset_id (project_asset_ids db tenant_id project_id))) [
      | inl active ↦
          let (found, e) = component-ends (dependency_graph db tenant_id project_id) asset_id in
          (
            key_of_component asset_id service found,
            key_found db tenant_id project_id asset_id service found active e,
          )
      | inr retired ↦ (of_asset asset_id service, rw (retired, dependency_correlation_key))
    ]

-- Two active assets of a project that a chain of dependencies in force connects, in whichever
-- directions, get the same key for a service, if from each of them fewer assets are found than the
-- limit.
pub same_key_if_linked :
    (db : DependencyDb) (tenant_id project_id a b : ℕ) (service : String) (xs ys : List ℕ)
    → KeepsElements db.set_order
    → contains a (project_asset_ids db tenant_id project_id) ≡ true
    → contains b (project_asset_ids db tenant_id project_id) ≡ true
    → component_of (dependency_graph db tenant_id project_id) a ≡ some xs
    → component_of (dependency_graph db tenant_id project_id) b ≡ some ys
    → length xs < component_limit
    → length ys < component_limit
    → Connected (dependency_graph db tenant_id project_id) a b
    → dependency_correlation_key db tenant_id project_id a service
      ≡ dependency_correlation_key db tenant_id project_id b service
same_key_if_linked db tenant_id project_id a b service xs ys keeps here there e h small tiny chain =
    let graph = dependency_graph db tenant_id project_id in
    key_found db tenant_id project_id a service xs here e
    ∙ ap some (
        component-same graph (dependency_graph-IsSymmetric db tenant_id project_id keeps) a b
          service xs ys e h small tiny chain)
    ∙ sym (key_found db tenant_id project_id b service ys there h)
