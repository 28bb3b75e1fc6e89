-- ===== src/Core/Errors.antt =====
-- apps/api/src/aiops_x_api/core/errors.py: an `ApplicationError` ends its request, and the
-- transaction that raised it is rolled back. The message and the details are for display only and
-- are left out.
use aiops_x_enterprise_new.Prelude.{ℕ, String, Bool, true, false, Option, none, some, ◌≡◌, refl}

pub record ApplicationError : Type 0 where
  pub code : String
  pub status_code : ℕ

-- What a handler returns: the exception that ended it, or its value.
pub data Result {ℓ} (Value : Type ℓ) : Type ℓ where
  err : (raised : ApplicationError) → Result Value
  ok : (returned : Value) → Result Value

infixl 5 ◌>>=◌ ◌>>◌
abbrev pub ◌>>=◌ {κ ℓ} :
    {Value : Type κ} {Next : Type ℓ} → Result Value → (Value → Result Next) → Result Next
err raised >>= then_do = err raised
ok value >>= then_do = then_do value

abbrev pub ◌>>◌ {κ} : {Next : Type κ} → Result (Unit {0}) → Result Next → Result Next
err raised >> after = err raised
ok done >> after = after

abbrev pub app_error : String → ℕ → ApplicationError
app_error code status = record { code = code; status_code = status }

-- `if not test: raise ApplicationError(code=…, status_code=…)`.
abbrev pub guard : Bool → ApplicationError → Result (Unit {0})
guard true e = ok tt
guard false e = err e

-- `if row is None: raise …`.
abbrev pub required {ℓ} : {A : Type ℓ} → Option A → ApplicationError → Result A
required (some a) e = ok a
required none e = err e

abbrev pub is_ok {ℓ} : {A : Type ℓ} → Result A → Bool
is_ok (ok a) = true
is_ok (err e) = false

-- A chain that returns has returned at its first step, with a value from which the rest returns.
module _ {κ ℓ} {Value : Type κ} {Next : Type ℓ} where
  pub >>=-eq-ok :
      (first : Result Value) (then_do : Value → Result Next) {last : Next}
      → (first >>= then_do) ≡ ok last
      → (value : Value) × (first ≡ ok value) × (then_do value ≡ ok last)
  >>=-eq-ok (err raised) then_do returned = cc
  >>=-eq-ok (ok value) then_do returned = (value, refl, returned)

pub >>-eq-ok {κ} :
    {Next : Type κ} (first : Result (Unit {0})) (after : Result Next) {last : Next}
    → (first >> after) ≡ ok last
    → (first ≡ ok tt) × (after ≡ ok last)
>>-eq-ok (err raised) after returned = cc
>>-eq-ok (ok u) after returned = (refl, returned)

pub guard-eq-ok : (b : Bool) (e : ApplicationError) {u : Unit {0}} → guard b e ≡ ok u → b ≡ true
guard-eq-ok true e h = refl
guard-eq-ok false e h = cc

pub required-eq-ok {ℓ} :
    {A : Type ℓ} (o : Option A) (e : ApplicationError) {a : A} → required o e ≡ ok a → o ≡ some a
required-eq-ok (some a) e h = cc
required-eq-ok none e h = cc
