-- ===== src/Cmdb/Exploration.antt =====
-- The loop of `dependency_correlation_key` in apps/api/src/aiops_x_api/modules/cmdb/application.py,
-- which collects the component of an asset.
use aiops_x_enterprise_new.Prelude.{
  ℕ, zero, suc, ◌+◌, ◌≤◌, ◌<◌, ◌==◌, ==_iff, ==_refl, leb, ◌≡◌, refl, sym, ◌∙◌, ◌⊎◌, inl, inr, true,
  false, some, List, [], ◌∷◌, arith, contains, length, Bool-cases,
}
use aiops_x_enterprise_new.Cmdb.Dependencies.{
  Search, add_neighbor, add_neighbors, component_limit, explore, component_of,
}

abbrev pub In : ℕ → List ℕ → Type 0
In x xs = contains x xs ≡ true

-- Nothing that has been found is lost.
component-kept :
    (x : ℕ) (ns : List ℕ) (s : Search) → In x s.component → In x (add_neighbors ns s).component
component-kept x [] s h = h
component-kept x (n ∷ ns) s h = component-kept x ns (add_neighbor n s) (ground arith)

frontier-kept :
    (x : ℕ) (ns : List ℕ) (s : Search) → In x s.frontier → In x (add_neighbors ns s).frontier
frontier-kept x [] s h = h
frontier-kept x (n ∷ ns) s h = frontier-kept x ns (add_neighbor n s) (ground arith)

neighbor-In : (n : ℕ) (s : Search) → In n (add_neighbor n s).component
neighbor-In n s = ground arith

neighbors-In : (x : ℕ) (ns : List ℕ) (s : Search) → In x ns → In x (add_neighbors ns s).component
neighbors-In x [] s h = cc
neighbors-In x (n ∷ ns) s h = elim (Bool-cases (n == x)) [
  | inl same ↦
      let e : n ≡ x = (==_iff n x).0 same in
      component-kept x ns (add_neighbor n s) (rw (← e) (neighbor-In n s))
  | inr differs ↦ neighbors-In x ns (add_neighbor n s) (ground arith)
]

-- What is new in the component is in the frontier, and was a neighbour.
new-In_frontier :
    (x : ℕ) (ns : List ℕ) (s : Search)
    → In x (add_neighbors ns s).component
    → In x s.component ⊎ In x (add_neighbors ns s).frontier
new-In_frontier x [] s h = inl h
new-In_frontier x (n ∷ ns) s h = elim (new-In_frontier x ns (add_neighbor n s) h) [
  | inl earlier ↦ elim (Bool-cases (contains x s.component)) [
    | inl old ↦ inl old
    | inr new ↦ inr (frontier-kept x ns (add_neighbor n s) (ground arith))
  ]
  | inr later ↦ inr later
]

found-In :
    (x : ℕ) (ns : List ℕ) (s : Search)
    → In x (add_neighbors ns s).component
    → In x s.component ⊎ In x ns
found-In x [] s h = inl h
found-In x (n ∷ ns) s h = elim (found-In x ns (add_neighbor n s) h) [
  | inl earlier ↦ ground arith
  | inr later ↦ inr (ground arith)
]

frontier-In :
    (x : ℕ) (ns : List ℕ) (s : Search)
    → In x (add_neighbors ns s).frontier
    → In x s.frontier ⊎ In x ns
frontier-In x [] s h = inl h
frontier-In x (n ∷ ns) s h = elim (frontier-In x ns (add_neighbor n s) h) [
  | inl earlier ↦ ground arith
  | inr later ↦ inr (ground arith)
]

-- The component and the frontier grow alike.
lengths-add :
    (ns : List ℕ) (s : Search)
    → let t = add_neighbors ns s in
      length t.component + length s.frontier ≡ length t.frontier + length s.component
lengths-add [] s = omega arith
lengths-add (n ∷ ns) s = let later = lengths-add ns (add_neighbor n s) in ground arith

module _ (graph : ℕ → List ℕ) where
  abbrev after : ℕ → List ℕ → List ℕ → Search
  after current component rest =
      add_neighbors (graph current) (record { component = component; frontier = rest })

  explore-step :
      (fuel current : ℕ) (component rest : List ℕ)
      → leb component_limit (length component) ≡ false
      → let s = after current component rest in
        explore graph (suc fuel) component (current ∷ rest)
        ≡ explore graph fuel s.component s.frontier
  explore-step fuel current component rest more = rw (more, explore)

  explore-full :
      (fuel current : ℕ) (component rest : List ℕ)
      → leb component_limit (length component) ≡ true
      → explore graph (suc fuel) component (current ∷ rest) ≡ some component
  explore-full fuel current component rest full = rw (full, explore)

  explore-ends :
      (fuel : ℕ) (component frontier : List ℕ)
      → component_limit + length frontier ≤ fuel + length component
      → (found : List ℕ) × (explore graph fuel component frontier ≡ some found)
  explore-ends fuel component [] h = (component, refl)
  explore-ends zero component (current ∷ rest) h = (component, ground arith)
  explore-ends (suc fuel) component (current ∷ rest) h =
      elim (Bool-cases (leb component_limit (length component))) [
        | inl full ↦ (component, explore-full fuel current component rest full)
        | inr more ↦
            let s = after current component rest in
            let start : Search = record { component = component; frontier = rest } in
            let (found, ended) =
              explore-ends fuel s.component s.frontier
                (omega (arith, h, lengths-add (graph current) start)) in
            (found, explore-step fuel current component rest more ∙ ended)
      ]

  -- The neighbours of each asset that has been visited are in the component.
  abbrev IsVisited : List ℕ → List ℕ → Type 0
  IsVisited component frontier =
      (x : ℕ) → In x component → In x frontier ⊎ ((y : ℕ) → In y (graph x) → In y component)

  abbrev pub IsClosed : List ℕ → Type 0
  IsClosed component = (x y : ℕ) → In x component → In y (graph x) → In y component

  IsVisited-after :
      (current : ℕ) (component rest : List ℕ)
      → IsVisited component (current ∷ rest)
      → let s = after current component rest in IsVisited s.component s.frontier
  IsVisited-after current component rest h x m =
      let start : Search = record { component = component; frontier = rest } in
      elim (new-In_frontier x (graph current) start m) [
        | inl old ↦ elim (h x old) [
          | inl waiting ↦ elim (Bool-cases (current == x)) [
            | inl same ↦
                let e : current ≡ x = (==_iff current x).0 same in
                inr (λ y n. neighbors-In y (graph current) start (rw e n))
            | inr other ↦ inl (frontier-kept x (graph current) start (ground arith))
          ]
          | inr visited ↦ inr (λ y n. component-kept y (graph current) start (visited y n))
        ]
        | inr new ↦ inl new
      ]

  explore-IsClosed :
      (fuel : ℕ) (component frontier found : List ℕ)
      → IsVisited component frontier
      → explore graph fuel component frontier ≡ some found
      → length found < component_limit
      → IsClosed found
  explore-IsClosed fuel component [] found h e small x y m n =
      let same : component ≡ found = cc in
      elim (h x (rw same m)) [ inl waiting ↦ cc | inr visited ↦ rw (← same) (visited y n) ]
  explore-IsClosed zero component (current ∷ rest) found h e small x y m n = absurd (ground arith)
  explore-IsClosed (suc fuel) component (current ∷ rest) found h e small x y m n =
      elim (Bool-cases (leb component_limit (length component))) [
        | inl full ↦
            let ended = explore-full fuel current component rest full in
            let same : component ≡ found = cc in absurd (ground arith)
        | inr more ↦
            let s = after current component rest in
            explore-IsClosed fuel s.component s.frontier found
              (IsVisited-after current component rest h)
              (sym (explore-step fuel current component rest more) ∙ e) small x y m n
      ]

  explore-kept :
      (fuel : ℕ) (component frontier found : List ℕ) (x : ℕ)
      → explore graph fuel component frontier ≡ some found
      → In x component
      → In x found
  explore-kept fuel component [] found x e m = let same : component ≡ found = cc in rw (← same) m
  explore-kept zero component (current ∷ rest) found x e m =
      let same : component ≡ found = ground arith in rw (← same) m
  explore-kept (suc fuel) component (current ∷ rest) found x e m =
      elim (Bool-cases (leb component_limit (length component))) [
        | inl full ↦
            let ended = explore-full fuel current component rest full in
            let same : component ≡ found = cc in rw (← same) m
        | inr more ↦
            let s = after current component rest in
            let start : Search = record { component = component; frontier = rest } in
            explore-kept fuel s.component s.frontier found x
              (sym (explore-step fuel current component rest more) ∙ e)
              (component-kept x (graph current) start m)
      ]

  -- The search does not leave a set that is closed.
  explore-within :
      (set : List ℕ)
      → IsClosed set
      → (fuel : ℕ) (component frontier found : List ℕ) → ((x : ℕ) → In x component → In x set)
      → ((x : ℕ) → In x frontier → In x set)
      → explore graph fuel component frontier ≡ some found
      → (x : ℕ) → In x found
      → In x set
  explore-within set closed fuel component [] found h g e x m =
      let same : component ≡ found = cc in h x (rw same m)
  explore-within set closed zero component (current ∷ rest) found h g e x m =
      let same : component ≡ found = ground arith in h x (rw same m)
  explore-within set closed (suc fuel) component (current ∷ rest) found h g e x m =
      elim (Bool-cases (leb component_limit (length component))) [
        | inl full ↦
            let ended = explore-full fuel current component rest full in
            let same : component ≡ found = cc in h x (rw same m)
        | inr more ↦
            let s = after current component rest in
            let start : Search = record { component = component; frontier = rest } in
            let inside : (y : ℕ) → In y (graph current) → In y set =
              λ y n. closed current y (g current (ground (arith, ==_refl current))) n in
            explore-within set closed fuel s.component s.frontier found
              (λ y n. elim (found-In y (graph current) start n) [
                | inl old ↦ h y old
                | inr new ↦ inside y new
              ])
              (λ y n. elim (frontier-In y (graph current) start n) [
                | inl old ↦ g y (ground arith)
                | inr new ↦ inside y new
              ])
              (sym (explore-step fuel current component rest more) ∙ e) x m
      ]

  only_self : (a x : ℕ) → In x (a ∷ []) → a ≡ x
  only_self a x m = ground arith

  -- The loop always ends within as many turns as the limit.
  pub component-ends : (a : ℕ) → (found : List ℕ) × (component_of graph a ≡ some found)
  component-ends a = explore-ends component_limit (a ∷ []) (a ∷ []) (omega arith)

  pub component-start : (a : ℕ) (found : List ℕ) → component_of graph a ≡ some found → In a found
  component-start a found e =
      explore-kept component_limit (a ∷ []) (a ∷ []) found a e (ground (arith, ==_refl a))

  pub component-IsClosed :
      (a : ℕ) (found : List ℕ)
      → component_of graph a ≡ some found
      → length found < component_limit
      → IsClosed found
  component-IsClosed a found e small =
      explore-IsClosed component_limit (a ∷ []) (a ∷ []) found (λ x m. inl m) e small

  pub component-within :
      (a : ℕ) (set found : List ℕ)
      → IsClosed set
      → In a set
      → component_of graph a ≡ some found
      → (x : ℕ) → In x found
      → In x set
  component-within a set found closed m e =
      let own : (x : ℕ) → In x (a ∷ []) → In x set = λ x n. rw (← only_self a x n) m in
      explore-within set closed component_limit (a ∷ []) (a ∷ []) found own own e
