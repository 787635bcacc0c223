-- ===== src/Query/Histogram/Exact.antt =====
-- internal/domain/query/aggregator.go: a histogram's buckets, total and sum, as functions of the
-- values that it observes.
use dalikamata.Prelude.{
  ◌+◌, ◌*◌, ◌%◌, ◌^◌, ◌<◌, String, ◌≡◌, refl, ◌∙◌, Option, none, some, List, [], ◌∷◌, arith, length,
  Result, ok, err, ◌>>=◌, sort_stable,
}
use dalikamata.Prelude.Int.{pos}
use dalikamata.Prelude.Dict.{lookup}
use dalikamata.Platform.{Platform, IsLawful}
use dalikamata.Query.Value.{Error, Any, Fields}
use dalikamata.Query.Aggregation.{Aggs, incr64, AggregationResult, result, Buckets, Results}
use dalikamata.Query.Histogram.{
  to_float64, float_less, Counts, count_at, zero_counts, bump_counts, Tally, observe, tally_items,
  histogram_buckets, start, count_items, apply_histogram,
}
use dalikamata.Query.Histogram.Counts.{multiplicity, at_most, count_at-set, count_at-bump}

module _ ⦃go : Platform⦄ where
  open go use {Float, float_le, float_add, float_of_int}

  abbrev pub next_value :
      String → Option Any → Result Error (List Float) → Result Error (List Float)
  next_value field none rest = rest
  next_value field (some val) rest = do f ← to_float64 field val; fs ← rest; ok (f ∷ fs)

  -- The values of a field over the items that have it, or the first error.
  unfoldable pub observations : String → List Fields → Result Error (List Float)
  observations field [] = ok []
  observations field (item ∷ items) =
      next_value field (lookup field item) (observations field items)

  abbrev pub sum_from : Float → List Float → Float
  sum_from acc [] = acc
  sum_from acc (f ∷ fs) = sum_from (float_add acc f) fs

  -- For each bound, how many values lie at or below it, times how often the bound was given.
  abbrev pub exact_buckets : List Float → List Float → List Float → Buckets
  exact_buckets all_bounds fs [] = Buckets.nil
  exact_buckets all_bounds fs (b ∷ bs) =
      Buckets.cons (Any.float64 b) ((multiplicity b all_bounds * at_most b fs) % 2 ^ 64)
        Results.no_results (exact_buckets all_bounds fs bs)

  abbrev tally_one : List Float → Float → Tally → Tally
  tally_one bounds f t = record {
    cumulative = bump_counts f bounds t.cumulative;
    total_count = incr64 t.total_count;
    sum = float_add t.sum f;
  }

  abbrev tally_all : List Float → List Float → Tally → Tally
  tally_all bounds [] t = t
  tally_all bounds (f ∷ fs) t = tally_all bounds fs (tally_one bounds f t)

  tally_items-all :
      (field : String) (bounds : List Float) (items : List Fields) (t : Tally)
      → tally_items field bounds items t
        ≡ (observations field items >>= λ fs. ok (tally_all bounds fs t))
  unfolding tally_items observations
  tally_items-all field bounds [] t = refl
  tally_items-all field bounds (item ∷ items) t =
      step (lookup field item) (tally_items-all field bounds items)
    where
      step :
          (o : Option Any)
          → ((u : Tally)
              → tally_items field bounds items u
                ≡ (observations field items >>= λ fs. ok (tally_all bounds fs u)))
          → (observe field bounds o t >>= tally_items field bounds items)
            ≡ (next_value field o (observations field items) >>= λ fs. ok (tally_all bounds fs t))
      step none rest = rest t
      step (some val) rest = read (to_float64 field val)
        where
          read :
              (r : Result Error Float)
              → ((r >>= λ f. ok (tally_one bounds f t)) >>= tally_items field bounds items) ≡ (
                  (r >>= λ f. observations field items >>= λ fs. ok (f ∷ fs)) >>= λ fs.
                  ok (tally_all bounds fs t))
          read (err e) = refl
          read (ok f) = rest (tally_one bounds f t) ∙ assoc (observations field items)
            where
              assoc :
                  (m : Result Error (List Float))
                  → (m >>= λ fs. ok (tally_all bounds fs (tally_one bounds f t)))
                    ≡ ((m >>= λ fs. ok (f ∷ fs)) >>= λ fs. ok (tally_all bounds fs t))
              assoc (ok fs) = refl
              assoc (err e) = refl

  total-all :
      (bounds fs : List Float) (t : Tally)
      → t.total_count < 2 ^ 64
      → (tally_all bounds fs t).total_count ≡ (t.total_count + length fs) % 2 ^ 64
  total-all bounds [] t h = omega arith
  total-all bounds (f ∷ fs) t h =
      omega (arith, total-all bounds fs (tally_one bounds f t) (omega arith))

  sum-all : (bounds fs : List Float) (t : Tally) → (tally_all bounds fs t).sum ≡ sum_from t.sum fs
  sum-all bounds [] t = refl
  sum-all bounds (f ∷ fs) t = sum-all bounds fs (tally_one bounds f t)

  count_at-zero :
      (laws : IsLawful) (b : Float) (bounds : List Float) (m : Counts)
      → count_at b m ≡ 0
      → count_at b (zero_counts bounds m) ≡ 0
  unfolding zero_counts
  count_at-zero laws b [] m h = h
  count_at-zero laws b (c ∷ cs) m h =
      count_at-zero laws b cs _ (ground (arith, count_at-set laws b c 0 m))

  count_at-all :
      (laws : IsLawful) (b : Float) (bounds fs : List Float) (t : Tally)
      → count_at b t.cumulative < 2 ^ 64
      → count_at b (tally_all bounds fs t).cumulative
        ≡ (count_at b t.cumulative + multiplicity b bounds * at_most b fs) % 2 ^ 64
  count_at-all laws b bounds [] t h = omega arith
  count_at-all laws b bounds (f ∷ fs) t h = ground (
    arith,
    count_at-bump laws f b bounds t.cumulative h,
    count_at-all laws b bounds fs (tally_one bounds f t),
  )

  count_at-final :
      (laws : IsLawful) (b : Float) (bounds fs : List Float)
      → count_at b (tally_all bounds fs (start bounds)).cumulative
        ≡ (multiplicity b bounds * at_most b fs) % 2 ^ 64
  unfolding count_at
  count_at-final laws b bounds fs =
      let zero_start : count_at b (zero_counts bounds []) ≡ 0 =
        count_at-zero laws b bounds [] refl in
      omega (
        arith,
        zero_start,
        count_at-all laws b bounds fs (start bounds) (omega (arith, zero_start)),
      )

  buckets-exact :
      (laws : IsLawful) (bounds fs bs : List Float)
      → histogram_buckets bs (tally_all bounds fs (start bounds)).cumulative
        ≡ exact_buckets bounds fs bs
  unfolding histogram_buckets
  buckets-exact laws bounds fs [] = refl
  buckets-exact laws bounds fs (b ∷ bs) =
      rw (count_at-final laws b bounds fs, buckets-exact laws bounds fs bs)

  -- The result over given values, with the bounds in order.
  abbrev pub exact_result : List Float → List Float → AggregationResult
  exact_result bounds fs =
      result (exact_buckets bounds fs bounds) (length fs % 2 ^ 64)
        (sum_from (float_of_int (pos 0)) fs)

  count_items-exact :
      (laws : IsLawful) (field : String) (bounds : List Float) (items : List Fields)
      → count_items field bounds items
        ≡ (observations field items >>= λ fs. ok (exact_result bounds fs))
  count_items-exact laws field bounds items =
      rw (tally_items-all field bounds items (start bounds)) (finish (observations field items))
    where
      finish :
          (m : Result Error (List Float))
          → ((m >>= λ fs. ok (tally_all bounds fs (start bounds))) >>= λ t.
              ok (result (histogram_buckets bounds t.cumulative) t.total_count t.sum))
            ≡ (m >>= λ fs. ok (exact_result bounds fs))
      finish (err e) = refl
      finish (ok fs) =
          rw
            (
              buckets-exact laws bounds fs bounds,
              total-all bounds fs (start bounds) (omega arith),
              sum-all bounds fs (start bounds),
            )
            (let e : 0 + length fs ≡ length fs = omega arith in rw e)

  -- On a platform whose floats are ordered as documented, a histogram with at least one bound and no sub-aggregations: over the items that have the
  -- field (an item whose value is no number is the error of the whole), the total counts them, the
  -- sum adds them up in order, and the bucket of a bound, bounds upwards, counts the values at or
  -- below it times the number of times that the bound was given. Counters wrap at 2^64.
  pub apply_histogram_lem :
      (laws : IsLawful) (field : String) (b : Float) (bs : List Float) (items : List Fields)
      → apply_histogram field (b ∷ bs) Aggs.nil items ≡ (
          observations field items >>= λ fs. ok (exact_result (sort_stable float_less (b ∷ bs)) fs))
  unfolding apply_histogram
  apply_histogram_lem laws field b bs items =
      count_items-exact laws field (sort_stable float_less (b ∷ bs)) items
