-- ===== src/Prelude/Res.antt =====
-- Go's `(T, error)` results, with one error type for each component.
use mathlib.Core.Path.{◌≡◌, refl}
use mathlib.Core.Bool.{Bool, true, false}
use mathlib.Core.Logic.{◌⊎◌, inl, inr}

pub data Result {ℓ κ} (E : Type ℓ) (A : Type κ) : Type (ℓ ⊔ κ) where
  ok : (value : A) → Result E A
  err : (error : E) → Result E A

module _ {ℓ κ} {E : Type ℓ} {B : Type κ} where
  infixl 5 ◌>>=◌ ◌>>◌
  -- `if err != nil { return ..., err }` after a call.
  abbrev pub ◌>>=◌ {μ} : {A : Type μ} → Result E A → (A → Result E B) → Result E B
  err error >>= next = err error
  ok value >>= next = next value

  -- The same after a call that returns nothing else.
  abbrev pub ◌>>◌ : Result E (Unit {0}) → Result E B → Result E B
  first >> next = first >>= λ unit. next

  -- A chain that succeeds has a first step that succeeds.
  pub >>=-eq-ok {μ} :
      {A : Type μ} (first : Result E A) (next : A → Result E B) {answer : B}
      → (first >>= next) ≡ ok answer
      → (value : A) × (first ≡ ok value) × (next value ≡ ok answer)
  >>=-eq-ok (err error) next succeeds = cc
  >>=-eq-ok (ok value) next succeeds = (value, refl, succeeds)

module _ {ℓ κ} {E : Type ℓ} {A : Type κ} where
  abbrev pub is_ok : Result E A → Bool
  is_ok (err error) = false
  is_ok (ok value) = true

  pub Result-cases :
      (r : Result E A) → ((value : A) × (r ≡ ok value)) ⊎ ((error : E) × (r ≡ err error))
  Result-cases (err error) = inr (error, refl)
  Result-cases (ok value) = inl (value, refl)
