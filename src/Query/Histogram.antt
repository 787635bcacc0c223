-- ===== src/Query/Histogram.antt =====
-- internal/domain/query/aggregator.go: applyHistogram.
pub mod Counts
pub mod Exact
pub mod Cumulative
use dalikamata.Prelude.{
  ℕ, zero, suc, ◌+◌, String, Bool, true, false, not, ◌&&◌, ◌||◌, Option, none, some, List, [], ◌∷◌,
  if◌then◌else◌, Result, ok, err, ◌>>=◌, sort_stable,
}
use dalikamata.Prelude.Int.{pos}
use dalikamata.Prelude.Dict.{lookup}
use dalikamata.Platform.{Platform}
use dalikamata.Query.Value.{
  Error, no_bucket_boundaries, sub_aggregations_unsupported, want_numeric, Any, Fields,
}
use dalikamata.Query.Aggregation.{
  Aggs, has_aggs, incr64, AggregationResult, result, Buckets, Results,
}

module _ ⦃go : Platform⦄ where
  open go use {Float, is_nan, float_lt, float_le, float_add, float_of_int}

  unfoldable pub to_float64 : String → Any → Result Error Float
  to_float64 field (Any.float64 f) = ok f
  to_float64 field (Any.float32 f) = ok f
  to_float64 field (Any.int n) = ok (float_of_int n)
  to_float64 field (Any.int64 n) = ok (float_of_int n)
  to_float64 field _ = err (want_numeric field)

  -- sort.Float64s: upwards, a NaN before the numbers
  abbrev pub float_less : Float → Float → Bool
  float_less a b = float_lt a b || (is_nan a && not (is_nan b))

  -- Equality of map keys: NaN is equal to no key.
  unfoldable pub same_key : Float → Float → Bool
  same_key a b = not (is_nan a) && not (is_nan b) && not (float_lt a b) && not (float_lt b a)

  abbrev pub Counts : Type 0
  Counts = List (Float × ℕ)

  -- cumulative[b]
  unfoldable pub count_at : Float → Counts → ℕ
  count_at b [] = 0
  count_at b ((c, n) ∷ m) = if same_key c b then n else count_at b m

  -- cumulative[b] = n
  unfoldable pub set_count : Float → ℕ → Counts → Counts
  set_count b n [] = (b, n) ∷ []
  set_count b n ((c, k) ∷ m) = if same_key c b then (c, n) ∷ m else (c, k) ∷ set_count b n m

  unfoldable pub zero_counts : List Float → Counts → Counts
  zero_counts [] m = m
  zero_counts (b ∷ bs) m = zero_counts bs (set_count b 0 m)

  -- for _, b := range bounds { if f <= b { cumulative[b]++ } }
  unfoldable pub bump_counts : Float → List Float → Counts → Counts
  bump_counts f [] m = m
  bump_counts f (b ∷ bs) m =
      bump_counts f bs (if float_le f b then set_count b (incr64 (count_at b m)) m else m)

  pub record Tally : Type 0 where
    pub cumulative : Counts
    pub total_count : ℕ
    pub sum : Float

  -- A missing field is skipped.
  abbrev observe : String → List Float → Option Any → Tally → Result Error Tally
  observe field bounds none t = ok t
  observe field bounds (some val) t = do
    f ← to_float64 field val
    ok (record {
      cumulative = bump_counts f bounds t.cumulative;
      total_count = incr64 t.total_count;
      sum = float_add t.sum f;
    })

  unfoldable pub tally_items : String → List Float → List Fields → Tally → Result Error Tally
  tally_items field bounds [] t = ok t
  tally_items field bounds (item ∷ items) t = do
    next ← observe field bounds (lookup field item) t
    tally_items field bounds items next

  unfoldable pub histogram_buckets : List Float → Counts → Buckets
  histogram_buckets [] m = Buckets.nil
  histogram_buckets (b ∷ bs) m =
      Buckets.cons (Any.float64 b) (count_at b m) Results.no_results (histogram_buckets bs m)

  abbrev pub start : List Float → Tally
  start bounds = record {
    cumulative = zero_counts bounds [];
    total_count = 0;
    sum = float_of_int (pos 0);
  }

  abbrev count_items : String → List Float → List Fields → Result Error AggregationResult
  count_items field bounds items = do
    t ← tally_items field bounds items (start bounds)
    ok (result (histogram_buckets bounds t.cumulative) t.total_count t.sum)

  unfoldable pub apply_histogram :
      String → List Float → Aggs → List Fields → Result Error AggregationResult
  apply_histogram field [] aggs items = err (no_bucket_boundaries field)
  apply_histogram field buckets (Aggs.cons _ _ _) items = err sub_aggregations_unsupported
  apply_histogram field buckets Aggs.nil items =
      count_items field (sort_stable float_less buckets) items
