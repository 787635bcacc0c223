-- ===== src/Query/Histogram/Cumulative.antt =====
-- internal/domain/query/aggregator.go: the bucket counts of a histogram in the order of the bounds.
use dalikamata.Prelude.{
  ℕ, suc, ◌*◌, ◌%◌, ◌^◌, ◌≤◌, ◌<◌, String, ◌≡◌, ◌∙◌, subst, sym, false, Option, none, some, List,
  [], ◌∷◌, arith, All, length, Result, ok, >>=-eq-ok, sort_stable,
}
use dalikamata.Prelude.Dict.{lookup}
use dalikamata.Prelude.SortLaws.{
  IsSorted, IsWeakOrder, sort_stable-IsSorted, sort_stable-All, count-sort_stable,
}
use dalikamata.Platform.{Platform, IsLawful}
use dalikamata.Query.Value.{Error, Any, Fields}
use dalikamata.Query.Aggregation.{Aggs, AggregationResult, result, Buckets}
use dalikamata.Query.Histogram.{to_float64, float_less, apply_histogram}
use dalikamata.Query.Histogram.Counts.{multiplicity, at_most}
use dalikamata.Query.Histogram.Exact.{
  observations, next_value, exact_buckets, exact_result, apply_histogram_lem,
}

-- From `low` on the numbers do not fall, and none passes `high`.
abbrev pub Ascends : ℕ → List ℕ → ℕ → Type 0
Ascends low [] high = low ≤ high
Ascends low (n ∷ ns) high = (low ≤ n) × Ascends n ns high

module _ ⦃go : Platform⦄ where
  open go use {Float, is_nan, float_lt, float_le}

  abbrev pub bucket_counts : Buckets → List ℕ
  bucket_counts Buckets.nil = []
  bucket_counts (Buckets.cons key n aggs bs) = n ∷ bucket_counts bs

  abbrev pub IsCumulative : AggregationResult → Type 0
  IsCumulative (result bs total sum) = Ascends 0 (bucket_counts bs) total

  at_most-le-length : (b : Float) (fs : List Float) → at_most b fs ≤ length fs
  at_most-le-length b [] = omega arith
  at_most-le-length b (f ∷ fs) = ground (arith, at_most-le-length b fs)

  length-next_value :
      (field : String) (n : ℕ) (rest : Result Error (List Float)) (o : Option Any) {fs : List Float}
      → ((gs : List Float) → rest ≡ ok gs → length gs ≤ n)
      → next_value field o rest ≡ ok fs
      → length fs ≤ suc n
  length-next_value field n rest none small h = omega (arith, small _ h)
  length-next_value field n rest (some val) small h =
      let (f, _, h') = >>=-eq-ok (to_float64 field val) _ h in
      let (gs, e, same) = >>=-eq-ok rest _ h' in
      subst (λ l. length l ≤ suc n) {x = f ∷ gs} (ground arith) (omega (arith, small gs e))

  length-observations :
      (field : String) (items : List Fields) (fs : List Float)
      → observations field items ≡ ok fs
      → length fs ≤ length items
  unfolding observations
  length-observations field [] fs h =
      subst (λ l. length l ≤ 0) {x = []} (ground arith) (omega arith)
  length-observations field (item ∷ items) fs h =
      length-next_value field (length items) (observations field items) (lookup field item)
        (length-observations field items) h

  module _ (laws : IsLawful) where
    float-IsWeakOrder : IsWeakOrder (λ b. is_nan b ≡ false) float_less
    float-IsWeakOrder = record {
      asym = λ a b na nb h. ground (arith, laws.float_asym a b);
      trans = λ a b c na nb nc h k. ground (arith, laws.float_trans a b c);
    }

    at_most_mono :
        (b c : Float) (fs : List Float)
        → is_nan b ≡ false
        → is_nan c ≡ false
        → float_less c b ≡ false
        → at_most b fs ≤ at_most c fs
    at_most_mono b c [] nb nc h = omega arith
    at_most_mono b c (f ∷ fs) nb nc h = ground (
      arith,
      at_most_mono b c fs nb nc h,
      laws.float_le_iff f b,
      laws.float_le_iff f c,
      laws.float_trans f b c,
    )

    exact-Ascends :
        (bounds fs bs : List Float) (low : ℕ)
        → length fs < 2 ^ 64
        → All (λ b. is_nan b ≡ false) bs
        → All (λ b. multiplicity b bounds ≡ 1) bs
        → All (λ b. low ≤ at_most b fs) bs
        → low ≤ length fs
        → IsSorted float_less bs
        → Ascends low (bucket_counts (exact_buckets bounds fs bs)) (length fs)
    exact-Ascends bounds fs [] low small n m lows h s = h
    exact-Ascends bounds fs (b ∷ bs) low small n m lows h s =
        let exact : (multiplicity b bounds * at_most b fs) % 2 ^ 64 ≡ at_most b fs =
          rw m.0 (omega (arith, at_most-le-length b fs)) in
        rw exact (
          lows.0,
          exact-Ascends bounds fs bs (at_most b fs) small n.1 m.1 (above b bs n.0 n.1 s.0)
              (at_most-le-length b fs) s.1,
        )
      where
        above :
            (x : Float) (ys : List Float)
            → is_nan x ≡ false
            → All (λ y. is_nan y ≡ false) ys
            → All (λ y. float_less y x ≡ false) ys
            → All (λ y. at_most x fs ≤ at_most y fs) ys
        above x [] nx ny l = tt
        above x (y ∷ ys) nx ny l = (at_most_mono x y fs nx ny.0 l.0, above x ys nx ny.1 l.1)

    All-lows : (fs bs : List Float) → All (λ b. 0 ≤ at_most b fs) bs
    All-lows fs [] = tt
    All-lows fs (b ∷ bs) = (omega arith, All-lows fs bs)

    All-once :
        (bounds sorted bs : List Float)
        → ((b : Float) → multiplicity b sorted ≡ multiplicity b bounds)
        → All (λ b. multiplicity b bounds ≡ 1) bs
        → All (λ b. multiplicity b sorted ≡ 1) bs
    All-once bounds sorted [] e h = tt
    All-once bounds sorted (b ∷ bs) e h = (e b ∙ h.0, All-once bounds sorted bs e h.1)

    -- On a platform whose floats are ordered as documented, over bounds that are given once each and are no NaN, and fewer than 2^64 items: the counts of
    -- the buckets, bounds upwards, never fall, and none passes the total.
    pub apply_histogram-IsCumulative :
        (field : String) (b : Float) (bs : List Float) (items : List Fields) (r : AggregationResult)
        → All (λ c. is_nan c ≡ false) (b ∷ bs)
        → All (λ c. multiplicity c (b ∷ bs) ≡ 1) (b ∷ bs)
        → length items < 2 ^ 64
        → apply_histogram field (b ∷ bs) Aggs.nil items ≡ ok r
        → IsCumulative r
    apply_histogram-IsCumulative field b bs items r n once small h =
        let bounds = sort_stable float_less (b ∷ bs) in
        let (fs, seen, same) =
          >>=-eq-ok (observations field items) _
            (sym (apply_histogram_lem laws field b bs items) ∙ h) in
        let few : length fs < 2 ^ 64 = omega (arith, length-observations field items fs seen) in
        let total : length fs % 2 ^ 64 ≡ length fs = omega arith in
        let made : exact_result bounds fs ≡ r = ground arith in
        subst IsCumulative made (
          rw total (
            exact-Ascends bounds fs bounds 0 few
              (sort_stable-All float_less (λ c. is_nan c ≡ false) (b ∷ bs) n)
              (All-once (b ∷ bs) bounds bounds (λ c. count-sort_stable float_less _ (b ∷ bs))
                (sort_stable-All float_less (λ c. multiplicity c (b ∷ bs) ≡ 1) (b ∷ bs) once))
              (All-lows fs bounds) (omega arith)
              (sort_stable-IsSorted float_less float-IsWeakOrder (b ∷ bs) n)))
