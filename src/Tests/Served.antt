-- ===== src/Tests/Served.antt =====
-- A query over two workflows, sent over a connection.
use dalikamata.Prelude.{
  ◌≡◌, refl, false, some, List, [], ◌∷◌, String, Result, ok, err, sort_stable, insert_sorted,
}
use dalikamata.Prelude.Int.{pos}
use dalikamata.Prelude.Dict.{lookup}
use dalikamata.Model.{Workflow}
use dalikamata.Query.Value.{sort_asc}
use dalikamata.Query.Builders.{string_value, term_filter}
use dalikamata.Query.Match.{match, match_filter, found_field}
use dalikamata.Query.Compare.{compare_field_value, cmp_ordered, compare_any}
use dalikamata.Query.Sort.{less, sort_by, paginate}
use dalikamata.Query.Aggregation.{Aggs}
use dalikamata.Query.FieldNames
use dalikamata.Repo.Projection.{project_workflow}
use dalikamata.Repo.Queries.{Query, Failure, entity_workflow, select_items}
use dalikamata.Nats.Messages.{Codec}
use dalikamata.Nats.QueryPort.{SendError}
use dalikamata.Nats.QueryClient.{query_all}
use dalikamata.Nats.Protocol.{loopback, serve, query_all-serve}
use dalikamata.Tests.World.{numbers}

abbrev build : Workflow
build = record { id = "b"; name = "build"; repo_ids = "p/web" ∷ [] }

abbrev deploy : Workflow
deploy = record { id = "d"; name = "deploy"; repo_ids = "p/web" ∷ "p/api" ∷ [] }

abbrev stored : List Workflow
stored = deploy ∷ build ∷ record { id = "t"; name = "test"; repo_ids = [] } ∷ []

abbrev of_web : Query
of_web = record {
  entity = entity_workflow;
  filter = some (term_filter FieldNames.workflow_repo_ids (string_value "p/web"));
  sort = record { field = FieldNames.workflow_name; order = sort_asc } ∷ [];
  from = pos 0;
  size = pos 5;
  aggs_only = false;
  aggs = Aggs.nil;
}

-- What the bodies encode.
data Body : Type 0 where
  no_body : Body
  of_query : Query → Body
  of_workflow : Workflow → Body
  of_error : String → Body

abbrev read_query : Body → Result String Query
read_query (of_query q) = ok q
read_query other = err "no query"

abbrev read_workflow : Body → Result String Workflow
read_workflow (of_workflow w) = ok w
read_workflow other = err "no workflow"

abbrev read_error : Body → Result String String
read_error (of_error text) = ok text
read_error other = err "no error"

abbrev query_codec : Codec Body String Query
query_codec = record { marshal = λ q. ok (of_query q); unmarshal = read_query }

abbrev workflow_codec : Codec Body String Workflow
workflow_codec = record { marshal = λ w. ok (of_workflow w); unmarshal = read_workflow }

abbrev text_of : Failure (SendError String) → String
text_of e = "query failed"

query_all-serve_example :
    query_all read_error workflow_codec query_codec
      (loopback (
        serve no_body of_error text_of
          (λ e. e)
          read_error
          query_codec
          workflow_codec
          project_workflow
          (λ w. w)
          stored))
      of_web
    ≡ some (ok (build ∷ deploy ∷ []))
unfolding project_workflow lookup match compare_field_value cmp_ordered compare_any less sort_by
    paginate sort_stable insert_sorted select_items match_filter found_field query_all term_filter
query_all-serve_example =
    query_all-serve no_body of_error text_of (λ e. e) read_error query_codec workflow_codec
      project_workflow (λ w. w) stored of_web (of_query of_web, (refl, refl))
      ((of_workflow build, (refl, refl)), ((of_workflow deploy, (refl, refl)), tt))
      (λ e failed. (refl, refl))
