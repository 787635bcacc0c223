-- ===== src/Tests/Handled.antt =====
-- A request to the route of the workflow runs; the client notes the entity of each query.
use dalikamata.Prelude.{String, ◌≡◌, ◌==◌, none, List, [], ◌∷◌, Result, ok, err, All}
use dalikamata.Prelude.Steps.{Step, Preserves}
use dalikamata.Query.Aggregation.{Results}
use dalikamata.Repo.Queries.{Query, Entity, entity_workflow_run}
use dalikamata.Api.Params.{parse_query_params}
use dalikamata.Api.Server.{method_get, HttpRequest, entity_handler}
use dalikamata.Api.Server.Asked.{entity_handler-Preserves}
use dalikamata.Tests.World.{numbers}
use dalikamata.Tests.Parsed.{atoi, parse_int, request}

abbrev sent : HttpRequest String
sent = record { method = method_get; params = request; body = "" }

abbrev note_aggregate : Query → Step (List Entity) (Result String Results)
note_aggregate q log = (q.entity ∷ log, err "down")

abbrev note_fetch : Query → Step (List Entity) (Result String (List String))
note_fetch q log = (q.entity ∷ log, ok ("r7" ∷ []))

entity_handler-Preserves_example : Preserves (All (λ e. e ≡ entity_workflow_run)) (
    entity_handler
      (λ e. e == "late")
      (parse_query_params atoi (λ s. none) parse_int (λ s. none))
      (λ body. err body)
      (λ e. "bad parameter")
      (λ e. e)
      note_aggregate
      entity_workflow_run
      note_fetch
      sent)
entity_handler-Preserves_example =
    entity_handler-Preserves atoi (λ s. none) parse_int (λ s. none) (λ e. e == "late")
      (λ body. err body) (λ e. "bad parameter") (λ e. e) note_aggregate entity_workflow_run
      note_fetch (All (λ e. e ≡ entity_workflow_run)) sent (λ q allowed log h. (allowed.0, h))
      (λ q allowed log h. (allowed.0, h))
