-- ===== src/Query/Aggregator/Terms.antt =====
-- internal/domain/query/aggregator.go: what the buckets of terms and date histogram aggregations
-- hold.
use dalikamata.Prelude.{
  String, ◌≡◌, List, [], arith, filter, ◌==◌, if◌then◌else◌, Result, ok, >>=-eq-ok, subst,
}
use dalikamata.Prelude.Dict.{Dict, Distinct, lookup}
use dalikamata.Prelude.Texts.{str_lt}
use dalikamata.Prelude.SortLaws.{IsSorted}
use dalikamata.Platform.{Platform}
use dalikamata.Query.Value.{Error, Fields}
use dalikamata.Query.Aggregation.{AggregationResult, result, Buckets, Results}
use dalikamata.Query.Grouping.{Group, group_terms, group_dates, sort_groups, make_buckets}
use dalikamata.Query.Grouping.Laws.{item_has, items_at, IsGrouping, items-terms, terms-IsGrouping}
use dalikamata.Query.Grouping.Dates.{item_in, items-dates, dates-IsGrouping}
use dalikamata.Query.Grouping.Sorted.{bucket_keys, bucket_at, IsBucketOf, make_buckets_lem}
use dalikamata.Query.Aggregator.{bucket_result, rfc3339, apply_terms, apply_date_histogram}

module _ ⦃go : Platform⦄ where
  abbrev buckets_of : AggregationResult → Buckets
  buckets_of (result bs n s) = bs

  empty-IsGrouping : IsGrouping []
  empty-IsGrouping = (tt, tt)

  items-terms_of :
      (k field : String) (items : List Fields)
      → items_at k (group_terms field items []) ≡ filter (item_has field k) items
  unfolding lookup
  items-terms_of k field items = items-terms k field items []

  items-dates_of :
      (field interval layout k : String) (items : List Fields) {groups : Dict Group}
      → group_dates field interval layout items [] ≡ ok groups
      → items_at k groups ≡ filter (item_in field interval layout k) items
  unfolding lookup
  items-dates_of field interval layout k items h = items-dates field interval layout k items [] h

  -- The buckets of a terms aggregation have distinct keys in the order of texts. A key has a bucket
  -- exactly if some item has the key (an element of a list field, each counted once for an item,
  -- or else the text of the field's value); the bucket counts those items, and its sub-aggregations
  -- are evaluated on just those, in their order.
  pub apply_terms_lem :
      (field : String) (sub : List Fields → Result Error Results) (items : List Fields)
      (bs : Buckets)
      → apply_terms field sub items ≡ ok (bucket_result bs)
      → Distinct (bucket_keys bs)
        × IsSorted str_lt (bucket_keys bs)
        × ((k : String) → IsBucketOf sub (filter (item_has field k) items) (bucket_at k bs))
  unfolding apply_terms
  apply_terms_lem field sub items bs h =
      let groups : Dict Group = group_terms field items [] in
      let (made, e, same) = >>=-eq-ok (make_buckets sub (sort_groups groups)) _ h in
      let made-eq : made ≡ bs = ground arith in
      let (distinct, sorted, at) =
        make_buckets_lem sub groups bs (terms-IsGrouping field items [] empty-IsGrouping)
          (subst (λ x. make_buckets sub (sort_groups groups) ≡ ok x) made-eq e) in
      (
        distinct,
        sorted,
        λ k. subst (λ xs. IsBucketOf sub xs (bucket_at k bs)) (items-terms_of k field items) (at k),
      )

  -- The buckets of a date histogram likewise: a key has a bucket exactly if the field of some item
  -- is a time whose truncation to the interval prints as the key (by RFC 3339 where no format is
  -- given). Items that lack the field are in no bucket.
  pub apply_date_histogram_lem :
      (field interval format : String) (sub : List Fields → Result Error Results)
      (items : List Fields) (bs : Buckets)
      → apply_date_histogram field interval format sub items ≡ ok (bucket_result bs)
      → Distinct (bucket_keys bs)
        × IsSorted str_lt (bucket_keys bs)
        × ((k : String)
            → IsBucketOf sub
                (filter (item_in field interval (if format == "" then rfc3339 else format) k) items)
                (bucket_at k bs))
  unfolding apply_date_histogram
  apply_date_histogram_lem field interval format sub items bs h =
      let layout : String = if format == "" then rfc3339 else format in
      let (groups, grouped, h') = >>=-eq-ok (group_dates field interval layout items []) _ h in
      let (made, e, same) = >>=-eq-ok (make_buckets sub (sort_groups groups)) _ h' in
      let made-eq : made ≡ bs = ground arith in
      let (distinct, sorted, at) =
        make_buckets_lem sub groups bs
          (dates-IsGrouping field interval layout items [] grouped empty-IsGrouping)
          (subst (λ x. make_buckets sub (sort_groups groups) ≡ ok x) made-eq e) in
      (
        distinct,
        sorted,
        λ k.
            subst (λ xs. IsBucketOf sub xs (bucket_at k bs))
              (items-dates_of field interval layout k items grouped) (at k),
      )
