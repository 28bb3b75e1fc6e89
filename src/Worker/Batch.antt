-- ===== src/Worker/Batch.antt =====
-- The query of a periodic task in apps/worker/src/aiops_x_worker/tasks.py: the oldest rows that
-- qualify, `order_by(created_at).limit(100).with_for_update(skip_locked=True)`.
use mathlib.Core.List.{Memᴰ}
use aiops_x_enterprise_new.Prelude.{
  ℕ, zero, suc, ◌≤◌, ==_refl, ◌≡◌, refl, ap, subst, ◌∙◌, Bool, true, List, [], ◌∷◌, map, leb,
  length, select, contains, arith, if◌then◌else◌, Bool-cases, inl, inr,
}

module _ {A : Type 0} (created : A → ℕ) where
  insert_row : A → List A → List A
  insert_row e [] = e ∷ []
  insert_row e (x ∷ rest) =
      let later = insert_row e rest in
      if leb (created e) (created x) then e ∷ x ∷ rest else x ∷ later

  by_creation : List A → List A
  unfolding insert_row
  by_creation [] = []
  by_creation (e ∷ rest) = insert_row e (by_creation rest)

abbrev pub take {ℓ} : {A : Type ℓ} → ℕ → List A → List A
take zero xs = []
take (suc n) [] = []
take (suc n) (x ∷ xs) = x ∷ take n xs

abbrev pub batch_limit : ℕ
batch_limit = 100

-- The identifiers of the rows that the query returns.
unfoldable pub oldest : {A : Type 0} → (A → ℕ) → (A → ℕ) → (A → Bool) → List A → List ℕ
unfolding by_creation
oldest id created qualifies rows =
    map id (take batch_limit (by_creation created (select qualifies rows)))

module _ {A : Type 0} (id created : A → ℕ) where
  contains_inserted :
      (i : ℕ) (e : A) (xs : List A)
      → contains i (map id (insert_row created e xs)) ≡ contains i (map id (e ∷ xs))
  unfolding insert_row
  contains_inserted i e [] = refl
  contains_inserted i e (x ∷ xs) = ground (arith, contains_inserted i e xs)

  contains_sorted :
      (i : ℕ) (xs : List A) → contains i (map id (by_creation created xs)) ≡ contains i (map id xs)
  unfolding by_creation
  contains_sorted i [] = refl
  contains_sorted i (x ∷ xs) =
      ground (arith, contains_inserted i x (by_creation created xs), contains_sorted i xs)

  length-insert_row : (e : A) (xs : List A) → length (insert_row created e xs) ≡ suc (length xs)
  unfolding insert_row
  length-insert_row e [] = refl
  length-insert_row e (x ∷ xs) = ground (arith, length-insert_row e xs)

  length-by_creation : (xs : List A) → length (by_creation created xs) ≡ length xs
  unfolding by_creation
  length-by_creation [] = refl
  length-by_creation (x ∷ xs) =
      omega (arith, length-insert_row x (by_creation created xs), length-by_creation xs)

take_all {ℓ} : {A : Type ℓ} (n : ℕ) (xs : List A) → length xs ≤ n → take n xs ≡ xs
take_all zero [] h = refl
take_all zero (x ∷ xs) h = absurd (omega (arith, h))
take_all (suc n) [] h = refl
take_all (suc n) (x ∷ xs) h = ap (λ ys. x ∷ ys) (take_all n xs (omega (arith, h)))

contains_selected :
    {A : Type 0} (id : A → ℕ) (qualifies : A → Bool) {r : A} {xs : List A}
    → Memᴰ r xs
    → qualifies r ≡ true
    → contains (id r) (map id (select qualifies xs)) ≡ true
contains_selected id qualifies {r} (Memᴰ.head {x} {xs} e) q =
    let here : qualifies x ≡ true = subst (λ y. qualifies y ≡ true) e q in
    rw here (rw e (ground (arith, ==_refl (id x))))
contains_selected id qualifies {r} (Memᴰ.tail {x} {xs} m) q =
    let later = contains_selected id qualifies m q in
    elim (Bool-cases (qualifies x)) [
      | inl here ↦ rw here (ground (arith, later))
      | inr passed ↦ rw passed later
    ]

-- A batch that is not full holds every row that qualifies.
pub all_selected :
    {A : Type 0} (id created : A → ℕ) (qualifies : A → Bool) (rows : List A) {r : A}
    → length (select qualifies rows) ≤ batch_limit
    → Memᴰ r rows
    → qualifies r ≡ true
    → contains (id r) (oldest id created qualifies rows) ≡ true
unfolding oldest
all_selected id created qualifies rows {r} fits m q =
    let due : List _ = select qualifies rows in
    rw
      (take_all batch_limit (by_creation created due)
        (omega (arith, fits, length-by_creation id created due)))
      (contains_sorted id created (id r) due ∙ contains_selected id qualifies m q)

-- A row of the table before has its image in the table after.
pub member-map :
    {A B : Type 0} (f : A → B) {x : A} {xs : List A} → Memᴰ x xs → Memᴰ (f x) (map f xs)
member-map f (Memᴰ.head e) = Memᴰ.head (ap f e)
member-map f (Memᴰ.tail m) = Memᴰ.tail (member-map f m)
