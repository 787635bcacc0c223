-- ===== src/Metrics/Queries.antt =====
-- internal/metrics/service.go: the aggregation queries behind the three metrics.
use dalikamata.Prelude.{ℕ, true, none, List, [], ◌∷◌, map}
use dalikamata.Prelude.Int.{pos}
use dalikamata.Platform.{Platform}
use dalikamata.Query.FieldNames
use dalikamata.Query.Aggregation.{agg_terms, agg_histogram, agg_date_histogram, aggregation, Aggs}
use dalikamata.Repo.Queries.{
  Query, Entity, entity_pull_request, entity_workflow_run, entity_workflow_task,
}

module _ ⦃go : Platform⦄ where
  open go use {Float, float_of_int}

  abbrev bounds : List ℕ → List Float
  bounds = map (λ n. float_of_int (pos n))

  abbrev pub pr_cycle_buckets : List Float
  pr_cycle_buckets = bounds (3600 ∷ 14400 ∷ 86400 ∷ 259200 ∷ 604800 ∷ [])

  abbrev pub workflow_run_buckets : List Float
  workflow_run_buckets = bounds (60 ∷ 300 ∷ 900 ∷ 1800 ∷ 3600 ∷ 7200 ∷ 21600 ∷ [])

  abbrev pub workflow_task_buckets : List Float
  workflow_task_buckets = bounds (30 ∷ 60 ∷ 120 ∷ 300 ∷ 600 ∷ 1800 ∷ 3600 ∷ [])

  abbrev only_aggs : Entity → Aggs → Query
  only_aggs entity aggs = record {
    entity = entity;
    filter = none;
    sort = [];
    from = pos 0;
    size = pos 0;
    aggs_only = true;
    aggs = aggs;
  }

  abbrev pub workflow_run_query : Query
  workflow_run_query = only_aggs entity_workflow_run (
      Aggs.cons "by_owner"
        (aggregation agg_terms FieldNames.run_owner [] "" "" (
          Aggs.cons "by_workflow_id"
            (aggregation agg_terms FieldNames.run_workflow_id [] "" "" (
              Aggs.cons "by_workflow_name"
                (aggregation agg_terms FieldNames.run_workflow_name [] "" "" (
                  Aggs.cons "by_branch"
                    (aggregation agg_terms FieldNames.run_branch [] "" "" (
                      Aggs.cons "by_status"
                        (aggregation agg_terms FieldNames.run_status [] "" "" (
                          Aggs.cons "duration"
                            (aggregation agg_histogram FieldNames.run_duration workflow_run_buckets
                              "" "" Aggs.nil)
                            Aggs.nil))
                        Aggs.nil))
                    Aggs.nil))
                Aggs.nil))
            Aggs.nil))
        Aggs.nil)

  abbrev pub workflow_task_query : Query
  workflow_task_query = only_aggs entity_workflow_task (
      Aggs.cons "by_owner"
        (aggregation agg_terms FieldNames.task_owner [] "" "" (
          Aggs.cons "by_workflow_id"
            (aggregation agg_terms FieldNames.task_workflow_id [] "" "" (
              Aggs.cons "by_workflow_name"
                (aggregation agg_terms FieldNames.task_workflow_name [] "" "" (
                  Aggs.cons "by_branch"
                    (aggregation agg_terms FieldNames.task_branch [] "" "" (
                      Aggs.cons "by_task_name"
                        (aggregation agg_terms FieldNames.task_name [] "" "" (
                          Aggs.cons "by_task_order"
                            (aggregation agg_terms FieldNames.task_order [] "" "" (
                              Aggs.cons "by_status"
                                (aggregation agg_terms FieldNames.task_status [] "" "" (
                                  Aggs.cons "duration"
                                    (aggregation agg_histogram FieldNames.task_duration
                                      workflow_task_buckets "" "" Aggs.nil)
                                    Aggs.nil))
                                Aggs.nil))
                            Aggs.nil))
                        Aggs.nil))
                    Aggs.nil))
                Aggs.nil))
            Aggs.nil))
        Aggs.nil)

  abbrev pub pr_cycle_query : Query
  pr_cycle_query = only_aggs entity_pull_request (
      Aggs.cons "by_repo"
        (aggregation agg_terms FieldNames.pr_repo_id [] "" "" (
          Aggs.cons "by_month"
            (aggregation agg_date_histogram FieldNames.pr_created_at [] "month" "2006-01" (
              Aggs.cons "by_state"
                (aggregation agg_terms FieldNames.pr_state [] "" "" (
                  Aggs.cons "cycle_time"
                    (aggregation agg_histogram FieldNames.pr_cycle_time_seconds pr_cycle_buckets ""
                      "" Aggs.nil)
                    Aggs.nil))
                Aggs.nil))
            Aggs.nil))
        Aggs.nil)
