-- ===== src/Core/Table.antt =====
-- Database tables whose rows have a primary key, under apps/api/src/aiops_x_api/modules: a row is
-- looked up by its key, and the row of a changed object is written back.
use mathlib.Core.List.{Memᴰ}
use aiops_x_enterprise_new.Prelude.{
  ℕ, ◌==◌, ==_iff, ◌≡◌, refl, sym, ap, ◌∙◌, Bool, true, false, Option, none, some, List, [], ◌∷◌,
  map, select, arith, ◌⊎◌, inl, inr, Bool-cases, if◌then◌else◌, All,
}
use aiops_x_enterprise_new.Core.Patch.{given}

-- A row that qualifies.
abbrev pub meets_test : {A : Type 0} → (A → Bool) → Option A → Bool
meets_test test none = false
meets_test test (some x) = test x

-- `select(X).where(test)`, of which the first row is taken.
abbrev pub first_where : {A : Type 0} → (A → Bool) → List A → Option A
first_where test [] = none
first_where test (x ∷ xs) = let rest = first_where test xs in if test x then some x else rest

pub first_where-found :
    {A : Type 0} (test : A → Bool) (xs : List A) {a : A}
    → first_where test xs ≡ some a
    → Memᴰ a xs × (test a ≡ true)
first_where-found test [] h = cc
first_where-found test (x ∷ xs) {a} h = elim (Bool-cases (test x)) [
  | inl here ↦
      let same : some x ≡ some a = rw here at h in
      let eq : x ≡ a = cc in (Memᴰ.head (sym eq), sym (ap test eq) ∙ here)
  | inr there ↦
      let (later, passes) = first_where-found test xs (rw there at h) in (Memᴰ.tail later, passes)
]

module _ {A : Type 0} (key : A → ℕ) where
  -- `select(X).where(X.id == i)`.
  abbrev pub find_row : ℕ → List A → Option A
  find_row i [] = none
  find_row i (x ∷ xs) = let rest = find_row i xs in if key x == i then some x else rest

  -- `select(X).where(X.id == i, test)`.
  abbrev pub find_where : (A → Bool) → ℕ → List A → Option A
  find_where test i xs = elim (find_row i xs) [
    | none ↦ none
    | some x ↦ if test x then some x else none
  ]

  unfoldable pub put_row : A → List A → List A
  put_row c [] = []
  put_row c (x ∷ xs) = (if key x == key c then c else x) ∷ put_row c xs

  -- The keys of the rows that `select(X).where(test)` returns.
  unfoldable pub keys_where : (A → Bool) → List A → List ℕ
  keys_where test xs = select (λ i. meets_test test (find_row i xs)) (map key xs)

  -- What holds of every row.
  abbrev pub Every {ℓ} : (A → Type ℓ) → List A → Type ℓ
  Every P xs = (i : ℕ) (x : A) → find_row i xs ≡ some x → P x

  pub key-find : (i : ℕ) (xs : List A) {x : A} → find_row i xs ≡ some x → key x ≡ i
  key-find i [] h = cc
  key-find i (y ∷ ys) {x} h = ground (arith, key-find i ys {x = x})

  pub find_where-found :
      (test : A → Bool) (i : ℕ) (xs : List A) {x : A}
      → find_where test i xs ≡ some x
      → (find_row i xs ≡ some x) × (test x ≡ true)
  find_where-found test i xs h = ground arith

  pub find-put_other :
      (i : ℕ) (c : A) (xs : List A)
      → (i == key c) ≡ false
      → find_row i (put_row c xs) ≡ find_row i xs
  unfolding put_row
  find-put_other i c [] h = refl
  find-put_other i c (y ∷ ys) h = ground (arith, find-put_other i c ys h)

  pub find-put_same :
      (i : ℕ) (c : A) (xs : List A) {x : A}
      → find_row i xs ≡ some x
      → i ≡ key c
      → find_row i (put_row c xs) ≡ some c
  unfolding put_row
  find-put_same i c [] h e = cc
  find-put_same i c (y ∷ ys) {x} h e = ground (arith, find-put_same i c ys {x = x})

  -- A row that is found after a write is the written one, or was there and has another key.
  pub find-put_cases :
      (i : ℕ) (c : A) (xs : List A) {x : A}
      → find_row i (put_row c xs) ≡ some x
      → ((i ≡ key c) × (x ≡ c)) ⊎ (((i == key c) ≡ false) × (find_row i xs ≡ some x))
  unfolding put_row
  find-put_cases i c [] h = cc
  find-put_cases i c (y ∷ ys) {x} h = ground (arith, find-put_cases i c ys {x = x})

  pub find-new_cases :
      (i : ℕ) (c : A) (xs : List A) {x : A}
      → find_row i (c ∷ xs) ≡ some x
      → ((i ≡ key c) × (x ≡ c)) ⊎ (((i == key c) ≡ false) × (find_row i xs ≡ some x))
  find-new_cases i c xs h = ground arith

  -- A new row has a new key, so that it hides no row.
  pub find-new_old :
      (i : ℕ) (c : A) (xs : List A) {x : A}
      → given (find_row (key c) xs) ≡ false
      → find_row i xs ≡ some x
      → find_row i (c ∷ xs) ≡ some x
  find-new_old i c xs fresh h = elim (Bool-cases (key c == i)) [
    | inl same ↦ let e : key c ≡ i = (==_iff (key c) i).0 same in cc
    | inr other ↦ rw other h
  ]

  pub Every-put {ℓ} :
      (P : A → Type ℓ) (c : A) (xs : List A) → P c → Every P xs → Every P (put_row c xs)
  Every-put P c xs new h i x e = elim (find-put_cases i c xs e) [
    | inl (same, here) ↦ rw here new
    | inr (other, there) ↦ h i x there
  ]

  pub Every-new {ℓ} : (P : A → Type ℓ) (c : A) (xs : List A) → P c → Every P xs → Every P (c ∷ xs)
  Every-new P c xs new h i x e = elim (find-new_cases i c xs e) [
    | inl (same, here) ↦ rw here new
    | inr (other, there) ↦ h i x there
  ]

  -- A row that is written over keeps a column: each row that is found later was there before, with
  -- that column.
  pub find-put_kept {ℓ} :
      {B : Type ℓ} (column : A → B) (new : A) (xs : List A) {old : A}
      → find_row (key new) xs ≡ some old
      → column new ≡ column old
      → (i : ℕ) (x : A) → find_row i (put_row new xs) ≡ some x
      → (y : A) × (find_row i xs ≡ some y) × (column y ≡ column x)
  find-put_kept column new xs {old} there keeps i x g = elim (find-put_cases i new xs g) [
    | inl (same, here) ↦
        (old, ap (λ k. find_row k xs) same ∙ there, sym keeps ∙ sym (ap column here))
    | inr (other, found) ↦ (x, found, refl)
  ]

  selected :
      (test : A → Bool) (xs : List A) (is : List ℕ)
      → All
          (λ i. meets_test test (find_row i xs) ≡ true)
          (select (λ i. meets_test test (find_row i xs)) is)
  selected test xs [] = tt
  selected test xs (i ∷ is) = elim (Bool-cases (meets_test test (find_row i xs))) [
    | inl passes ↦ rw passes (passes, selected test xs is)
    | inr fails ↦ rw fails (selected test xs is)
  ]

  pub keys_where-All :
      (test : A → Bool) (xs : List A)
      → All (λ i. meets_test test (find_row i xs) ≡ true) (keys_where test xs)
  unfolding keys_where
  keys_where-All test xs = selected test xs (map key xs)
