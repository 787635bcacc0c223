-- ===== src/Query/Aggregator.antt =====
-- internal/domain/query/aggregator.go: `EvaluateAggs` and the dispatch on the operator.
pub mod Terms
use dalikamata.Prelude.{
  String, true, false, List, [], ◌∷◌, ◌==◌, if◌then◌else◌, Result, ok, err, ◌>>=◌,
}
use dalikamata.Prelude.Int.{pos}
use dalikamata.Prelude.Dict.{Dict}
use dalikamata.Platform.{Platform}
use dalikamata.Query.Value.{Error, unknown_aggregation_op, in_aggregation, Fields}
use dalikamata.Query.Aggregation.{
  agg_terms, agg_histogram, agg_date_histogram, AggregationOp, Aggregation, aggregation, Aggs, nil,
  cons, has_aggs, AggregationResult, result, Buckets, Results,
}
use dalikamata.Query.Grouping.{Group, group_terms, group_dates, sort_groups, make_buckets}
use dalikamata.Query.Histogram.{apply_histogram}

-- time.RFC3339
abbrev pub rfc3339 : String
rfc3339 = "2006-01-02T15:04:05Z07:00"

module _ ⦃go : Platform⦄ where
  open go use {Float, float_of_int}

  -- A result with buckets only: the other fields keep their zero values.
  abbrev pub bucket_result : Buckets → AggregationResult
  bucket_result bs = result bs 0 (float_of_int (pos 0))

  -- `if len(agg.Aggs) > 0 { ... }` with the sub-aggregations' evaluation handed in
  unfoldable pub apply_terms :
      String → (List Fields → Result Error Results) → List Fields → Result Error AggregationResult
  apply_terms field sub items = do
    bs ← make_buckets sub (sort_groups (group_terms field items []))
    ok (bucket_result bs)

  unfoldable pub apply_date_histogram :
      String
      → String
      → String
      → (List Fields → Result Error Results)
      → List Fields
      → Result Error AggregationResult
  apply_date_histogram field interval format sub items = do
    groups ← group_dates field interval (if format == "" then rfc3339 else format) items []
    bs ← make_buckets sub (sort_groups groups)
    ok (bucket_result bs)

  abbrev in_named : String → Result Error AggregationResult → Result Error AggregationResult
  in_named name (ok r) = ok r
  in_named name (err e) = err (in_aggregation name e)

  -- EvaluateAggs of no aggregations is nil, which is also what a bucket has without any.
  unfoldable mutual
    unfolding apply_terms apply_date_histogram apply_histogram

    pub evaluate_aggs : Aggs → List Fields → Result Error Results
    evaluate_aggs nil items = ok Results.no_results
    evaluate_aggs (cons name agg rest) items = do
      r ← in_named name (apply_agg agg items)
      others ← evaluate_aggs rest items
      ok (Results.named name r others)

    pub apply_agg : Aggregation → List Fields → Result Error AggregationResult
    apply_agg (aggregation agg_terms field buckets interval format aggs) items =
        apply_terms field (evaluate_aggs aggs) items
    apply_agg (aggregation agg_date_histogram field buckets interval format aggs) items =
        apply_date_histogram field interval format (evaluate_aggs aggs) items
    apply_agg (aggregation agg_histogram field buckets interval format aggs) items =
        apply_histogram field buckets aggs items
    apply_agg (aggregation (AggregationOp.unknown op) field buckets interval format aggs) items =
        err (unknown_aggregation_op op)
