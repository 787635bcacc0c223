-- ===== src/Prelude/Perms.antt =====
-- What a test answers on all of a list, or on some of it, it answers in every other order.
use mathlib.Core.Path.{◌≡◌, refl}
use mathlib.Core.Logic.{inl, inr, ∥∥₁_elim}
use mathlib.Core.Bool.{Bool, true, not, Bool-set}
use mathlib.Core.List.{
  List, [], ◌∷◌, Perm, Mem, mem-cons_self, mem-cons_of_mem, eq-or-mem_of_mem-cons, not-mem-nil,
}
use mathlib.Core.List.Perm
use native.Mathlib.Omega.{arith}
use dalikamata.Prelude.Lists.{all, any}

module _ {ℓ} {A : Type ℓ} (test : A → Bool) where
  all-Mem : (xs : List A) (a : A) → all test xs ≡ true → Mem a xs → test a ≡ true
  all-Mem [] a h m = absurd (not-mem-nil m)
  all-Mem (x ∷ xs) a h m =
      ∥∥₁_elim (eq-or-mem_of_mem-cons m) (Bool-set (test a) true)
        (λ s. elim s [ inl e ↦ rw e (ground arith) | inr rest ↦ all-Mem xs a (ground arith) rest ])

  all_of_mem : (xs : List A) → ((a : A) → Mem a xs → test a ≡ true) → all test xs ≡ true
  all_of_mem [] h = refl
  all_of_mem (x ∷ xs) h =
      rw (h x mem-cons_self, all_of_mem xs (λ a m. h a (mem-cons_of_mem x m))) refl

  all_of_all : {xs ys : List A} → Perm xs ys → all test xs ≡ true → all test ys ≡ true
  all_of_all {xs} {ys} p h = all_of_mem ys (λ a m. all-Mem xs a h ((Perm.mem_iff p).1 m))

  pub all-Perm : {xs ys : List A} → Perm xs ys → all test xs ≡ all test ys
  all-Perm {xs} {ys} p = ground (arith, all_of_all p, all_of_all {xs = ys} {ys = xs} (Perm.symm p))

module _ {ℓ} {A : Type ℓ} (test : A → Bool) where
  any-eq-not-all : (xs : List A) → any test xs ≡ not (all (λ x. not (test x)) xs)
  any-eq-not-all [] = refl
  any-eq-not-all (x ∷ xs) = ground (arith, any-eq-not-all xs)

  pub any-Perm : {xs ys : List A} → Perm xs ys → any test xs ≡ any test ys
  any-Perm {xs} {ys} p =
      rw (any-eq-not-all xs, any-eq-not-all ys, all-Perm (λ x. not (test x)) p) refl
