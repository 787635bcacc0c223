-- ===== src/Tests/Aggregated.antt =====
-- An aggregation over two stored workflows.
use dalikamata.Prelude.{◌≡◌, refl, true, some, none, List, [], ◌∷◌, String, filter}
use dalikamata.Prelude.Int.{pos}
use dalikamata.Prelude.Dict.{lookup, insert}
use dalikamata.Model.{Workflow}
use dalikamata.Query.Value.{Fields}
use dalikamata.Query.Builders.{string_value, term_filter}
use dalikamata.Query.Semantics.{meaning}
use dalikamata.Query.Semantics.Typed.{well_typed}
use dalikamata.Query.Aggregation.{Aggs, aggregation, agg_terms}
use dalikamata.Query.Aggregator.{evaluate_aggs}
use dalikamata.Query.FieldNames
use dalikamata.Repo.Memory.{MemoryRepository, new_memory, add_workflow}
use dalikamata.Repo.Projection.{project_workflow}
use dalikamata.Repo.Queries.{Context, Query, entity_workflow, in_query, aggregate}
use dalikamata.Repo.Queries.Aggregated.{aggregate_lem}
use dalikamata.Tests.World.{numbers}

abbrev build : Workflow
build = record { id = "b"; name = "build"; repo_ids = "p/web" ∷ [] }

abbrev deploy : Workflow
deploy = record { id = "d"; name = "deploy"; repo_ids = "p/api" ∷ [] }

abbrev stored : MemoryRepository
stored = add_workflow deploy (add_workflow build new_memory)

abbrev by_repo : Query
by_repo = record {
  entity = entity_workflow;
  filter = some (term_filter FieldNames.workflow_repo_ids (string_value "p/web"));
  sort = [];
  from = pos 0;
  size = pos 0;
  aggs_only = true;
  aggs =
      Aggs.cons "repos" (aggregation agg_terms FieldNames.workflow_repo_ids [] "" "" Aggs.nil)
        Aggs.nil;
}

abbrev live : Context String
live n = none

abbrev both_rows : List Fields
both_rows = project_workflow build ∷ project_workflow deploy ∷ []

aggregate_example :
    aggregate live stored by_repo 0
    ≡ in_query (evaluate_aggs by_repo.aggs (filter (meaning by_repo.filter) both_rows))
unfolding add_workflow insert lookup project_workflow well_typed term_filter
aggregate_example =
    aggregate_lem live stored by_repo 0 both_rows (λ n. refl) refl refl (refl, (refl, tt))
