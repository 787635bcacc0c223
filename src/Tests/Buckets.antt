-- ===== src/Tests/Buckets.antt =====
-- Aggregations over two rows.
use dalikamata.Prelude.{
  ◌≡◌, refl, List, [], ◌∷◌, filter, arith, String, if◌then◌else◌, ◌==◌, Result, ok, ◌>>=◌,
  sort_stable, insert_sorted,
}
use dalikamata.Prelude.Dict.{Distinct, lookup, insert}
use dalikamata.Prelude.Texts.{str_lt, sprint_int, decimal_from}
use dalikamata.Prelude.SortLaws.{IsSorted}
use dalikamata.Query.Value.{Any, Error, Fields}
use dalikamata.Query.Aggregation.{Aggs, AggregationResult, result, Buckets, Results}
use dalikamata.Query.Grouping.{
  sprint, add_to_bucket, add_elements, group_terms, truncate_time, group_dates, make_buckets,
}
use dalikamata.Query.Grouping.Laws.{item_has}
use dalikamata.Query.Grouping.Dates.{item_in}
use dalikamata.Query.Grouping.Sorted.{bucket_keys, bucket_at, IsBucketOf}
use dalikamata.Query.Histogram.{
  to_float64, float_less, same_key, count_at, set_count, zero_counts, bump_counts, tally_items,
  histogram_buckets, apply_histogram,
}
use dalikamata.Query.Histogram.Exact.{observations, exact_result, apply_histogram_lem}
use dalikamata.Query.Histogram.Cumulative.{IsCumulative, apply_histogram-IsCumulative}
use dalikamata.Query.Aggregator.{rfc3339, apply_terms, apply_date_histogram}
use dalikamata.Query.Aggregator.Terms.{apply_terms_lem, apply_date_histogram_lem}
use dalikamata.Tests.World.{numbers, numbers-IsLawful, rows}

abbrev no_sub : List Fields → Result Error Results
no_sub xs = ok Results.no_results

abbrev by_team : Buckets
by_team =
    Buckets.cons (Any.string "blue") 1 Results.no_results
      (Buckets.cons (Any.string "red") 2 Results.no_results Buckets.nil)

apply_terms_example :
    Distinct (bucket_keys by_team)
    × IsSorted str_lt (bucket_keys by_team)
    × ((k : String) → IsBucketOf no_sub (filter (item_has "teams" k) rows) (bucket_at k by_team))
unfolding apply_terms make_buckets group_terms add_elements add_to_bucket sprint lookup insert
    sort_stable insert_sorted
apply_terms_example = apply_terms_lem "teams" no_sub rows by_team refl

abbrev by_hour : Buckets
by_hour = Buckets.cons (Any.string "7200") 2 Results.no_results Buckets.nil

apply_date_histogram_example :
    Distinct (bucket_keys by_hour)
    × IsSorted str_lt (bucket_keys by_hour)
    × ((k : String)
        → IsBucketOf no_sub
            (filter (item_in "started_at" "hour" (if "" == "" then rfc3339 else "") k) rows)
            (bucket_at k by_hour))
unfolding apply_date_histogram make_buckets group_dates truncate_time add_to_bucket sprint lookup
    insert sort_stable insert_sorted sprint_int decimal_from
apply_date_histogram_example =
    apply_date_histogram_lem "started_at" "hour" "" no_sub rows by_hour refl

apply_histogram_example : apply_histogram "duration" (60 ∷ 100 ∷ []) Aggs.nil rows ≡ (
    observations "duration" rows >>= λ fs.
    ok (exact_result (sort_stable float_less (60 ∷ 100 ∷ [])) fs))
apply_histogram_example = apply_histogram_lem numbers-IsLawful "duration" 60 (100 ∷ []) rows

abbrev durations : AggregationResult
durations =
    result
      (Buckets.cons (Any.float64 60) 1 Results.no_results
        (Buckets.cons (Any.float64 100) 2 Results.no_results Buckets.nil))
      2 130

apply_histogram-IsCumulative_example : IsCumulative durations
unfolding apply_histogram to_float64 same_key count_at set_count zero_counts bump_counts tally_items
    histogram_buckets lookup sort_stable insert_sorted
apply_histogram-IsCumulative_example =
    apply_histogram-IsCumulative numbers-IsLawful "duration" 60 (100 ∷ []) rows durations
      (refl, (refl, tt)) (refl, (refl, tt)) (omega arith) refl
