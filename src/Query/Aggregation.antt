-- ===== src/Query/Aggregation.antt =====
-- internal/domain/query/aggregation.go and result.go: aggregation trees and their results.
use dalikamata.Prelude.{ℕ, ◌+◌, ◌%◌, ◌^◌, String, Bool, true, false, List}
use dalikamata.Platform.{Platform}
use dalikamata.Query.Value.{Any}

pub data AggregationOp : Type 0 where
  agg_terms agg_histogram agg_date_histogram : AggregationOp
  unknown : String → AggregationOp

-- A uint64 counter's `++`.
abbrev pub incr64 : ℕ → ℕ
incr64 n = (n + 1) % 2 ^ 64

module _ ⦃go : Platform⦄ where
  open go use {Float}

  -- The struct's fields in order: op, field, buckets, interval, format, aggs. The map `aggs` is
  -- given by its entries in the order in which a `range` visits them.
  mutual
    pub data Aggregation : Type 0 where
      aggregation : AggregationOp → String → List Float → String → String → Aggs → Aggregation

    pub data Aggs : Type 0 where
      nil : Aggs
      cons : String → Aggregation → Aggs → Aggs

  -- A result is its buckets, its doc_count and its sum. A bucket is a key, its doc_count and the
  -- results of its sub-aggregations.
  mutual
    pub data AggregationResult : Type 0 where
      result : Buckets → ℕ → Float → AggregationResult

    pub data Buckets : Type 0 where
      nil : Buckets
      cons : Any → ℕ → Results → Buckets → Buckets

    pub data Results : Type 0 where
      no_results : Results
      named : String → AggregationResult → Results → Results

  abbrev pub has_aggs : Aggs → Bool
  has_aggs Aggs.nil = false
  has_aggs (Aggs.cons name agg rest) = true
