-- ===== src/Prelude/SortLaws.antt =====
-- Stable sorting by a weak order.
use mathlib.Core.Path.{◌≡◌, refl}
use mathlib.Core.Bool.{Bool, true, false, not, ◌&&◌}
use mathlib.Core.List.{List, [], ◌∷◌, Perm}
use mathlib.Core.List.Perm
use native.Mathlib.Omega.{arith}
use dalikamata.Prelude.Tests.{Bool-cases}
use dalikamata.Prelude.Lists.{All, filter, count}
use dalikamata.Prelude.Sorting.{insert_sorted, sort_stable}
use mathlib.Core.Logic.{inl, inr}

-- `less` is a strict weak order on the elements that satisfy `P`.
pub record IsWeakOrder {ℓ κ} {A : Type ℓ} (P : A → Type κ) (less : A → A → Bool)
    : Type (ℓ ⊔ κ) where
  pub asym : (a b : A) → P a → P b → less a b ≡ true → less b a ≡ false
  pub trans : (a b c : A) → P a → P b → P c → less b a ≡ false → less c b ≡ false → less c a ≡ false

module _ {ℓ} {A : Type ℓ} (less : A → A → Bool) where
  -- No element is less than one that stands before it.
  abbrev pub IsSorted : List A → Type 0
  IsSorted [] = Unit
  IsSorted (x ∷ xs) = All (λ y. less y x ≡ false) xs × IsSorted xs

  insert_sorted-Perm : (x : A) (xs : List A) → Perm (insert_sorted less x xs) (x ∷ xs)
  unfolding insert_sorted
  insert_sorted-Perm x [] = Perm.refl (x ∷ [])
  insert_sorted-Perm x (y ∷ ys) = elim (Bool-cases (less y x)) [
    | inl before ↦ rw before (Perm.trans (Perm.cons y (insert_sorted-Perm x ys)) (Perm.swap x y ys))
    | inr other ↦ rw other (Perm.refl (x ∷ y ∷ ys))
  ]

  pub sort_stable-Perm : (xs : List A) → Perm (sort_stable less xs) xs
  unfolding sort_stable
  sort_stable-Perm [] = Perm.refl []
  sort_stable-Perm (x ∷ xs) =
      Perm.trans (insert_sorted-Perm x (sort_stable less xs)) (Perm.cons x (sort_stable-Perm xs))

  insert_sorted-All {κ} :
      (Q : A → Type κ) (x : A) (xs : List A) → Q x → All Q xs → All Q (insert_sorted less x xs)
  unfolding insert_sorted
  insert_sorted-All Q x [] q h = (q, tt)
  insert_sorted-All Q x (y ∷ ys) q h = elim (Bool-cases (less y x)) [
    | inl before ↦ rw before (h.0, insert_sorted-All Q x ys q h.1)
    | inr other ↦ rw other (q, h)
  ]

  pub sort_stable-All {κ} : (Q : A → Type κ) (xs : List A) → All Q xs → All Q (sort_stable less xs)
  unfolding sort_stable
  sort_stable-All Q [] h = tt
  sort_stable-All Q (x ∷ xs) h =
      insert_sorted-All Q x (sort_stable less xs) h.0 (sort_stable-All Q xs h.1)

  count-insert_sorted :
      (p : A → Bool) (x : A) (xs : List A) → count p (insert_sorted less x xs) ≡ count p (x ∷ xs)
  unfolding insert_sorted
  count-insert_sorted p x [] = refl
  count-insert_sorted p x (y ∷ ys) = elim (Bool-cases (less y x)) [
    | inl before ↦ rw before (omega (arith, count-insert_sorted p x ys))
    | inr other ↦ rw other
  ]

  pub count-sort_stable : (p : A → Bool) (xs : List A) → count p (sort_stable less xs) ≡ count p xs
  unfolding sort_stable
  count-sort_stable p [] = refl
  count-sort_stable p (x ∷ xs) =
      omega (arith, count-insert_sorted p x (sort_stable less xs), count-sort_stable p xs)

  module _ {κ} {P : A → Type κ} (order : IsWeakOrder P less) where
    -- What is not before `x` is not before anything that `x` is not before.
    after-All :
        (x y : A) (ys : List A)
        → P x
        → P y
        → All P ys
        → less y x ≡ false
        → All (λ z. less z y ≡ false) ys
        → All (λ z. less z x ≡ false) ys
    after-All x y [] px py p h s = tt
    after-All x y (z ∷ zs) px py p h s =
        (order.trans x y z px py p.0 h s.0, after-All x y zs px py p.1 h s.1)

    insert_sorted-IsSorted :
        (x : A) (xs : List A) → P x → All P xs → IsSorted xs → IsSorted (insert_sorted less x xs)
    unfolding insert_sorted
    insert_sorted-IsSorted x [] px p s = (tt, tt)
    insert_sorted-IsSorted x (y ∷ ys) px p s = elim (Bool-cases (less y x)) [
      | inl before ↦ rw before (
        insert_sorted-All (λ z. less z y ≡ false) x ys (order.asym y x p.0 px before) s.0,
        insert_sorted-IsSorted x ys px p.1 s.1,
      )
      | inr other ↦ rw other ((other, after-All x y ys px p.0 p.1 other s.0), s)
    ]

    -- The result is in order.
    pub sort_stable-IsSorted : (xs : List A) → All P xs → IsSorted (sort_stable less xs)
    unfolding sort_stable
    sort_stable-IsSorted [] p = tt
    sort_stable-IsSorted (x ∷ xs) p =
        insert_sorted-IsSorted x (sort_stable less xs) p.0 (sort_stable-All P xs p.1)
          (sort_stable-IsSorted xs p.1)

    abbrev pub equivalent : A → A → Bool
    equivalent z x = not (less z x) && not (less x z)

    insert_sorted-stable :
        (z x : A) (xs : List A)
        → P z
        → P x
        → All P xs
        → filter (equivalent z) (insert_sorted less x xs) ≡ filter (equivalent z) (x ∷ xs)
    unfolding insert_sorted
    insert_sorted-stable z x [] pz px p = refl
    insert_sorted-stable z x (y ∷ ys) pz px p = elim (Bool-cases (less y x)) [
      | inl before ↦ ground (
        arith,
        insert_sorted-stable z x ys pz px p.1,
        order.asym y x p.0 px,
        order.asym x z px pz,
        order.asym y z p.0 pz,
        order.asym z x pz px,
        order.asym z y pz p.0,
        order.trans x z y px pz p.0,
      )
      | inr other ↦ rw other
    ]

    -- Elements that the order does not tell apart keep the order in which they came.
    pub sort_stable-stable :
        (z : A) (xs : List A)
        → P z
        → All P xs
        → filter (equivalent z) (sort_stable less xs) ≡ filter (equivalent z) xs
    unfolding sort_stable
    sort_stable-stable z [] pz p = refl
    sort_stable-stable z (x ∷ xs) pz p = ground (
      arith,
      insert_sorted-stable z x (sort_stable less xs) pz p.0 (sort_stable-All P xs p.1),
      sort_stable-stable z xs pz p.1,
    )
