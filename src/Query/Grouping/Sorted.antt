-- ===== src/Query/Grouping/Sorted.antt =====
-- internal/domain/query/aggregator.go: the groups in the order of their keys, and their buckets.
use dalikamata.Prelude.{
  ℕ, String, ◌≡◌, refl, ap, ◌∙◌, subst, sym, Bool, false, Option, none, some, List, [], ◌∷◌, ◌==◌,
  eq_iff, arith, All, length, is_empty, Result, ok, >>=-eq-ok, insert_sorted, sort_stable,
  if◌then◌else◌, Bool-cases, inl, inr,
}
use dalikamata.Prelude.Dict.{Dict, Distinct, contains, keys, lookup}
use dalikamata.Prelude.Texts.{str_lt}
use dalikamata.Prelude.Order.{compare-flip, compare_trans}
use dalikamata.Prelude.SortLaws.{IsSorted, IsWeakOrder, sort_stable-IsSorted, sort_stable-All}
use dalikamata.Platform.{Platform}
use dalikamata.Query.Value.{Error, Fields}
use dalikamata.Query.Aggregation.{Buckets, Results}
use dalikamata.Query.Grouping.{Group, sprint, sort_groups, make_buckets}
use dalikamata.Query.Grouping.Laws.{items_of, items_at, IsGroup, IsGrouping}

module _ {V : Type 0} where
  abbrev entry_lt : String × V → String × V → Bool
  entry_lt a b = str_lt a.0 b.0

  lookup-insert_sorted :
      (j : String) (e : String × V) (m : Dict V)
      → contains (keys m) e.0 ≡ false
      → lookup j (insert_sorted entry_lt e m) ≡ lookup j (e ∷ m)
  unfolding insert_sorted lookup
  lookup-insert_sorted j e [] h = refl
  lookup-insert_sorted j e (f ∷ m) h =
      ground (arith, eq_iff f.0 e.0, eq_iff f.0 j, eq_iff e.0 j, lookup-insert_sorted j e m)

  contains-insert_sorted :
      (j : String) (e : String × V) (m : Dict V)
      → contains (keys (insert_sorted entry_lt e m)) j ≡ contains (keys (e ∷ m)) j
  unfolding insert_sorted
  contains-insert_sorted j e [] = refl
  contains-insert_sorted j e (f ∷ m) = ground (arith, contains-insert_sorted j e m)

  contains-sort :
      (j : String) (m : Dict V) → contains (keys (sort_stable entry_lt m)) j ≡ contains (keys m) j
  unfolding sort_stable
  contains-sort j [] = refl
  contains-sort j (e ∷ m) =
      ground (arith, contains-insert_sorted j e (sort_stable entry_lt m), contains-sort j m)

  -- Sorting a dictionary by its keys changes no lookup.
  lookup-sort :
      (j : String) (m : Dict V) → Distinct (keys m) → lookup j (sort_stable entry_lt m) ≡ lookup j m
  unfolding sort_stable lookup
  lookup-sort j [] h = refl
  lookup-sort j (e ∷ m) h =
      lookup-insert_sorted j e (sort_stable entry_lt m) (contains-sort e.0 m ∙ h.0)
      ∙ ap (λ o. if e.0 == j then some e.1 else o) (lookup-sort j m h.1)

  insert_sorted-Distinct :
      (e : String × V) (m : Dict V)
      → contains (keys m) e.0 ≡ false
      → Distinct (keys m)
      → Distinct (keys (insert_sorted entry_lt e m))
  unfolding insert_sorted
  insert_sorted-Distinct e [] h d = (refl, tt)
  insert_sorted-Distinct e (f ∷ m) h d = ground (
    arith,
    eq_iff f.0 e.0,
    eq_iff e.0 f.0,
    contains-insert_sorted f.0 e m,
    insert_sorted-Distinct e m,
  )

  sort-Distinct : (m : Dict V) → Distinct (keys m) → Distinct (keys (sort_stable entry_lt m))
  unfolding sort_stable
  sort-Distinct [] d = tt
  sort-Distinct (e ∷ m) d =
      insert_sorted-Distinct e (sort_stable entry_lt m) (contains-sort e.0 m ∙ d.0)
        (sort-Distinct m d.1)

  entry-IsWeakOrder : IsWeakOrder (λ (e : String × V). Unit {0}) entry_lt
  entry-IsWeakOrder = record {
    asym = λ a b _ _ h. ground (arith, compare-flip a.0 b.0);
    trans = λ a b c _ _ _ h k. ground (
      arith,
      compare-flip a.0 b.0,
      compare-flip b.0 c.0,
      compare-flip a.0 c.0,
      compare_trans a.0 b.0 c.0,
    );
  }

  All-units : (m : Dict V) → All (λ e. Unit {0}) m
  All-units [] = tt
  All-units (e ∷ m) = (tt, All-units m)

  keys-All :
      (k : String) (m : Dict V)
      → All (λ e. entry_lt e (k, e.1) ≡ false) m
      → All (λ j. str_lt j k ≡ false) (keys m)
  keys-All k [] h = tt
  keys-All k (e ∷ m) h = (h.0, keys-All k m h.1)

  keys-IsSorted : (m : Dict V) → IsSorted entry_lt m → IsSorted str_lt (keys m)
  keys-IsSorted [] h = tt
  keys-IsSorted ((k, v) ∷ m) h = (keys-All k m h.0, keys-IsSorted m h.1)

  sort-keys-IsSorted : (m : Dict V) → IsSorted str_lt (keys (sort_stable entry_lt m))
  sort-keys-IsSorted m =
      keys-IsSorted (sort_stable entry_lt m)
        (sort_stable-IsSorted entry_lt entry-IsWeakOrder m (All-units m))

module _ ⦃go : Platform⦄ where
  abbrev pub bucket_keys : Buckets → List String
  bucket_keys Buckets.nil = []
  bucket_keys (Buckets.cons key n aggs bs) = sprint key ∷ bucket_keys bs

  -- The first bucket whose key prints as the text: its count and its results.
  abbrev pub bucket_at : String → Buckets → Option (ℕ × Results)
  bucket_at k Buckets.nil = none
  bucket_at k (Buckets.cons key n aggs bs) =
      if sprint key == k then some (n, aggs) else bucket_at k bs

  -- No bucket for no items; else one that counts the items and holds the results for just them.
  abbrev pub IsBucketOf :
      (List Fields → Result Error Results) → List Fields → Option (ℕ × Results) → Type 0
  IsBucketOf sub [] none = Unit
  IsBucketOf sub [] (some b) = ⊥
  IsBucketOf sub (item ∷ items) none = ⊥
  IsBucketOf sub (item ∷ items) (some (n, aggs)) =
      (n ≡ length (item ∷ items)) × (sub (item ∷ items) ≡ ok aggs)

  IsBucketOf-some :
      (sub : List Fields → Result Error Results) (items : List Fields) (aggs : Results)
      → is_empty items ≡ false
      → sub items ≡ ok aggs
      → IsBucketOf sub items (some (length items, aggs))
  IsBucketOf-some sub [] aggs h e = cc
  IsBucketOf-some sub (x ∷ xs) aggs h e = (refl, e)

  make_buckets-nil :
      (sub : List Fields → Result Error Results) (bs : Buckets)
      → make_buckets sub [] ≡ ok bs
      → bs ≡ Buckets.nil
  unfolding make_buckets
  make_buckets-nil sub bs h = ground arith

  make_buckets-inv :
      (sub : List Fields → Result Error Results) (k : String) (g : Group) (groups : Dict Group)
      (bs : Buckets)
      → make_buckets sub ((k, g) ∷ groups) ≡ ok bs
      → (aggs : Results) × (rest : Buckets) × (sub g.items ≡ ok aggs)
        × (make_buckets sub groups ≡ ok rest)
        × (bs ≡ Buckets.cons g.key (length g.items) aggs rest)
  unfolding make_buckets
  make_buckets-inv sub k g groups bs h =
      let (aggs, e, h') = >>=-eq-ok (sub g.items) _ h in
      let (rest, r, last) = >>=-eq-ok (make_buckets sub groups) _ h' in
      (aggs, rest, e, r, ground arith)

  buckets-keys :
      (sub : List Fields → Result Error Results) (groups : Dict Group) (bs : Buckets)
      → All IsGroup groups
      → make_buckets sub groups ≡ ok bs
      → bucket_keys bs ≡ keys groups
  buckets-keys sub [] bs g h = rw (make_buckets-nil sub bs h)
  buckets-keys sub ((k, g) ∷ groups) bs ok_groups h =
      let (aggs, rest, e, r, same) = make_buckets-inv sub k g groups bs h in
      rw (same, ok_groups.0.0, buckets-keys sub groups rest ok_groups.1 r)

  buckets-lookup :
      (sub : List Fields → Result Error Results) (j : String) (groups : Dict Group) (bs : Buckets)
      → All IsGroup groups
      → make_buckets sub groups ≡ ok bs
      → IsBucketOf sub (items_at j groups) (bucket_at j bs)
  unfolding lookup
  buckets-lookup sub j [] bs g h = rw (make_buckets-nil sub bs h) tt
  buckets-lookup sub j ((k, g) ∷ groups) bs ok_groups h =
      let (aggs, rest, e, r, same) = make_buckets-inv sub k g groups bs h in
      elim (Bool-cases (k == j)) [
        | inl here ↦
            rw (same, ok_groups.0.0, here) (IsBucketOf-some sub g.items aggs ok_groups.0.1 e)
        | inr there ↦
            rw (same, ok_groups.0.0, there) (buckets-lookup sub j groups rest ok_groups.1 r)
      ]

  -- The buckets made of a grouping, sorted: their keys are distinct and in order, and the bucket
  -- of a key is that of its group's items.
  pub make_buckets_lem :
      (sub : List Fields → Result Error Results) (groups : Dict Group) (bs : Buckets)
      → IsGrouping groups
      → make_buckets sub (sort_groups groups) ≡ ok bs
      → Distinct (bucket_keys bs)
        × IsSorted str_lt (bucket_keys bs)
        × ((k : String) → IsBucketOf sub (items_at k groups) (bucket_at k bs))
  make_buckets_lem sub groups bs g h =
      let sorted : Dict Group = sort_groups groups in
      let entries : All IsGroup sorted = sort_stable-All entry_lt IsGroup groups g.1 in
      let named = buckets-keys sub sorted bs entries h in
      (
        subst Distinct (sym named) (sort-Distinct groups g.0),
        subst (IsSorted str_lt) (sym named) (sort-keys-IsSorted groups),
        λ k.
            subst (λ o. IsBucketOf sub (items_of o) (bucket_at k bs)) (lookup-sort k groups g.0)
              (buckets-lookup sub k sorted bs entries h),
      )
