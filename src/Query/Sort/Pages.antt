-- ===== src/Query/Sort/Pages.antt =====
-- internal/domain/query/evaluator.go: `Paginate` cuts a result into pages.
use dalikamata.Prelude.{
  ℕ, suc, zero, ◌+◌, ◌*◌, ◌<◌, ◌≤◌, ◌≡◌, refl, Option, none, some, List, [], ◌∷◌, ◌++◌, arith,
  length, take, drop, ap, ◌∙◌, ◌↔◌, true,
}
use dalikamata.Prelude.Int.{ℤ, pos, negsuc, ltb_ℤ}
use dalikamata.Query.Sort.{paginate}

module _ {A : Type 0} where
  take-all : (n : ℕ) (xs : List A) → length xs ≤ n → take n xs ≡ xs
  take-all zero [] h = refl
  take-all zero (x ∷ xs) h = absurd (omega arith)
  take-all (suc n) [] h = refl
  take-all (suc n) (x ∷ xs) h = rw (take-all n xs (omega arith))

  drop-all : (n : ℕ) (xs : List A) → length xs ≤ n → drop n xs ≡ []
  drop-all zero [] h = refl
  drop-all zero (x ∷ xs) h = absurd (omega arith)
  drop-all (suc n) [] h = refl
  drop-all (suc n) (x ∷ xs) h = drop-all n xs (omega arith)

  take-nil : (n : ℕ) → take {A = A} n [] ≡ []
  take-nil zero = refl
  take-nil (suc n) = refl

  take-append-take : (m n : ℕ) (xs : List A) → take m xs ++ take n (drop m xs) ≡ take (m + n) xs
  take-append-take zero n xs = let e : 0 + n ≡ n = omega arith in rw e
  take-append-take (suc m) n [] = rw (take-nil n, take-nil (suc m + n))
  take-append-take (suc m) n (x ∷ xs) =
      let e : suc m + n ≡ suc (m + n) = omega arith in rw (e, take-append-take m n xs)

  pub length-take-le : (n : ℕ) (xs : List A) → length (take n xs) ≤ n
  length-take-le zero xs = omega arith
  length-take-le (suc n) [] = omega arith
  length-take-le (suc n) (x ∷ xs) = omega (arith, length-take-le n xs)

  -- A page of a positive size is that many items from the offset, or what is left.
  pub paginate-take :
      (items : List A) (from size : ℕ)
      → 0 < size
      → paginate items (pos from) (pos size) ≡ some (take size (drop from items))
  unfolding paginate
  paginate-take items from size h =
      ground (arith, drop-all from items, take-nil size, take-all size (drop from items))

  abbrev both : Option (List A) → Option (List A) → Option (List A)
  both (some p) (some q) = some (p ++ q)
  both _ _ = none

  -- A client's walk: the pages 0, 1, ..., n - 1, one after the other.
  abbrev pub first_pages : List A → ℕ → ℕ → Option (List A)
  first_pages items size zero = some []
  first_pages items size (suc n) =
      both (first_pages items size n) (paginate items (pos (n * size)) (pos size))

  take-pages :
      (items : List A) (size n : ℕ)
      → 0 < size
      → first_pages items size n ≡ some (take (n * size) items)
  take-pages items size zero h = let e : 0 * size ≡ 0 = omega arith in rw e
  take-pages items size (suc n) h =
      let e : suc n * size ≡ n * size + size = omega arith in
      rw (take-pages items size n h, paginate-take items (n * size) size h, e)
        (ap some (take-append-take (n * size) size items))

  -- The pages of a positive size never panic. Enough of them, put together, are all the items in
  -- order, each once, and none is larger than the size.
  pub paginate_pages :
      (items : List A) (size n : ℕ)
      → 0 < size
      → length items ≤ n * size
      → (first_pages items size n ≡ some items)
        × ((from : ℕ)
            → (page : List A) × (paginate items (pos from) (pos size) ≡ some page)
              × (length page ≤ size))
  paginate_pages items size n h fits = (
    take-pages items size n h ∙ ap some (take-all (n * size) items fits),
    λ from. (
      take size (drop from items),
      paginate-take items from size h,
      length-take-le size (drop from items),
    ),
  )

  -- The one panic: an offset below zero. Any other offset has a page, whatever the size.
  pub paginate-none_iff :
      (items : List A) (from size : ℤ)
      → (paginate items from size ≡ none) ↔ (ltb_ℤ from (pos 0) ≡ true)
  unfolding paginate
  paginate-none_iff items (pos n) size = ground arith
  paginate-none_iff items (negsuc n) size = ground arith
