-- ===== src/Metrics/Samples.antt =====
-- internal/metrics/service.go: the histograms that are emitted for a tree of aggregation results. What
-- is sent before an error stays sent.
use dalikamata.Prelude.{
  ℕ, String, ◌&&◌, Option, none, some, List, [], ◌∷◌, ◌++◌, ◌==◌, if◌then◌else◌, Result, ok, err,
}
use dalikamata.Prelude.Int.{ℤ, pos, ltb_ℤ, leb_ℤ}
use dalikamata.Prelude.Texts.{concat, sprint_int}
use dalikamata.Platform.{Platform}
use dalikamata.Query.Value.{Any, string, int, int64, float64}
use dalikamata.Query.OwnerKey.{split_owner_key}
use dalikamata.Query.Aggregation.{AggregationResult, result, Buckets, Results, no_results, named}

module _ ⦃go : Platform⦄ where
  open go use {Float, float_to_int}

  -- MustNewConstHistogram; a bound that comes again would replace the count of its first entry.
  pub record Sample : Type 0 where
    pub metric : String
    pub count : ℕ
    pub sum : Float
    pub bucket_map : List (Float × ℕ)
    pub labels : List String

  -- A bucket key of another type than the label wants.
  pub data KeyError : Type 0 where
    want_string : String → Any → KeyError
    want_int : String → Any → KeyError
    want_float64 : Any → KeyError

  abbrev pub Emitted : Type 0
  Emitted = List Sample × Option KeyError

  abbrev nothing : Emitted
  nothing = ([], none)

  abbrev and_then : Emitted → Emitted → Emitted
  and_then (sent, some e) rest = (sent, some e)
  and_then (sent, none) rest = (sent ++ rest.0, rest.1)

  -- result[name], and its buckets: none for a missing name.
  unfoldable pub agg_at : String → Results → Option AggregationResult
  agg_at name no_results = none
  agg_at name (named other agg rest) =
      let found = agg_at name rest in if other == name then some agg else found

  abbrev buckets_of : Option AggregationResult → Buckets
  buckets_of none = Buckets.nil
  buckets_of (some (result buckets doc_count sum)) = buckets

  -- A `for` over the buckets of a named aggregation; the first error ends it.
  unfoldable pub each_bucket : (Any → Results → Emitted) → Buckets → Emitted
  each_bucket body Buckets.nil = nothing
  each_bucket body (Buckets.cons key doc_count aggs rest) =
      let more = each_bucket body rest in and_then (body key aggs) more

  abbrev each : String → Results → (Any → Results → Emitted) → Emitted
  each name aggs body = each_bucket body (buckets_of (agg_at name aggs))

  unfoldable pub str_key : String → Any → Result KeyError String
  str_key label (string s) = ok s
  str_key label key = err (want_string label key)

  unfoldable pub int_key : String → Any → Result KeyError ℤ
  int_key label (int n) = ok n
  int_key label (int64 n) = ok n
  int_key label (float64 x) = ok (float_to_int x)
  int_key label key = err (want_int label key)

  abbrev or_error : {A : Type 0} → Result KeyError A → (A → Emitted) → Emitted
  or_error (err e) next = ([], some e)
  or_error (ok a) next = next a

  unfoldable pub extract_bucket_map : Buckets → Result KeyError (List (Float × ℕ))
  extract_bucket_map Buckets.nil = ok []
  extract_bucket_map (Buckets.cons key doc_count aggs rest) =
      let more = extract_bucket_map rest in add_bound key doc_count more
    where
      add_bound : Any → ℕ → Result KeyError (List (Float × ℕ)) → Result KeyError (List (Float × ℕ))
      add_bound (float64 upper) n (ok m) = ok ((upper, n) ∷ m)
      add_bound (float64 upper) n (err e) = err e
      add_bound key n more = err (want_float64 key)

  abbrev emit_histogram : String → List String → Option AggregationResult → Emitted
  emit_histogram metric labels none = nothing
  emit_histogram metric labels (some (result buckets doc_count sum)) =
      or_error (extract_bucket_map buckets) (λ bucket_map. (
        record {
          metric = metric;
          count = doc_count;
          sum = sum;
          bucket_map = bucket_map;
          labels = labels;
        }
            ∷ [],
        none,
      ))

  unfoldable pub emit_pr_cycle_tree : Results → Emitted
  emit_pr_cycle_tree tree = each "by_repo" tree (λ repo_key by_repo.
      or_error (str_key "by_repo" repo_key) (λ repo_id.
        each "by_month" by_repo (λ month_key by_month.
          or_error (str_key "by_month" month_key) (λ month.
            each "by_state" by_month (λ state_key by_state.
              or_error (str_key "by_state" state_key) (λ state.
                emit_histogram "pr_cycle_time_seconds" (repo_id ∷ month ∷ state ∷ [])
                  (agg_at "cycle_time" by_state)))))))

  -- A key that cannot be split is logged, and its bucket is passed over.
  abbrev with_owner : Result String (String × String) → (String → String → Emitted) → Emitted
  with_owner (err key) next = nothing
  with_owner (ok (team, comp)) next = next team comp

  -- The levels that runs and tasks share.
  abbrev each_branch :
      Results → (String → String → String → String → String → Results → Emitted) → Emitted
  each_branch tree body = each "by_owner" tree (λ owner_key by_owner.
      or_error (str_key "by_owner" owner_key) (λ owner.
        with_owner (split_owner_key owner) (λ team comp.
          each "by_workflow_id" by_owner (λ id_key by_id.
            or_error (str_key "by_workflow_id" id_key) (λ wf_id.
              each "by_workflow_name" by_id (λ name_key by_name.
                or_error (str_key "by_workflow_name" name_key) (λ wf_name.
                  each "by_branch" by_name (λ branch_key by_branch.
                    or_error (str_key "by_branch" branch_key)
                      (λ branch. body team comp wf_id wf_name branch by_branch)))))))))

  unfoldable pub emit_workflow_run_tree : Results → Emitted
  emit_workflow_run_tree tree = each_branch tree (λ team comp wf_id wf_name branch by_branch.
      each "by_status" by_branch (λ status_key by_status.
        or_error (str_key "by_status" status_key) (λ status.
          emit_histogram "workflow_run_duration_seconds"
            (team ∷ comp ∷ wf_id ∷ wf_name ∷ branch ∷ status ∷ []) (agg_at "duration" by_status))))

  -- fmt.Sprintf("%02d", order)
  abbrev two_digits : ℤ → String
  two_digits n =
      if leb_ℤ (pos 0) n && ltb_ℤ n (pos 10) then concat "0" (sprint_int n) else sprint_int n

  unfoldable pub emit_workflow_task_tree : Results → Emitted
  emit_workflow_task_tree tree = each_branch tree (λ team comp wf_id wf_name branch by_branch.
      each "by_task_name" by_branch (λ task_key by_task.
        or_error (str_key "by_task_name" task_key) (λ task_name.
          each "by_task_order" by_task (λ order_key by_order.
            or_error (int_key "by_task_order" order_key) (λ order.
              each "by_status" by_order (λ status_key by_status.
                or_error (str_key "by_status" status_key) (λ status.
                  emit_histogram "workflow_task_duration_seconds"
                    (team
                      ∷ comp
                      ∷ wf_id
                      ∷ wf_name
                      ∷ branch
                      ∷ task_name
                      ∷ two_digits order
                      ∷ status
                      ∷ [])
                    (agg_at "duration" by_status))))))))
