-- ===== src/Prelude/Steps.antt =====
-- Steps on a state that answer a value, for the code that changes shared state call by call.

abbrev pub Step {ℓ} : Type ℓ → Type 0 → Type ℓ
Step S A = S → S × A

module _ {ℓ} {S : Type ℓ} where
  abbrev pub pure : {A : Type 0} → A → Step S A
  pure a s = (s, a)

  abbrev pub then_do : {A B : Type 0} → Step S A → (A → Step S B) → Step S B
  then_do m k s = k (m s).1 (m s).0

  module _ {κ} (Inv : S → Type κ) where
    -- A property of the state that a step keeps, whatever it answers.
    abbrev pub Preserves : {A : Type 0} → Step S A → Type (ℓ ⊔ κ)
    Preserves m = (s : S) → Inv s → Inv (m s).0
