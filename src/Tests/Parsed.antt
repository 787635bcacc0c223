-- ===== src/Tests/Parsed.antt =====
-- A query string with a term, a bound and an existence filter.
use dalikamata.Prelude.{String, Option, none, some, [], ◌∷◌, Result, ok, err, ◌==◌, if◌then◌else◌}
use dalikamata.Prelude.Int.{ℤ, pos}
use dalikamata.Repo.Queries.{entity_workflow_run}
use dalikamata.Api.Params.{UrlValues, parse_query_params}
use dalikamata.Api.Fields.{valid_fields}
use dalikamata.Api.Parsed.{Judged, parse_query_params_lem}
use dalikamata.Tests.World.{numbers}

abbrev pub atoi : String → Result String ℤ
atoi s = if s == "20" then ok (pos 20) else err s

abbrev pub parse_int : String → Option ℤ
parse_int s = if s == "3" then some (pos 3) else none

abbrev pub request : UrlValues
request =
    ("size", "20" ∷ [])
    ∷ ("filter.status", "success" ∷ "failure" ∷ [])
    ∷ ("filter.number.gte", "3" ∷ [])
    ∷ ("filter.branch.exists", "" ∷ [])
    ∷ ("sort", "-started_at,number" ∷ [])
    ∷ []

parse_query_params_example :
    Judged
      (valid_fields entity_workflow_run)
      atoi
      (λ s. none)
      parse_int
      (λ s. none)
      entity_workflow_run
      request
      (parse_query_params atoi (λ s. none) parse_int (λ s. none) request entity_workflow_run)
parse_query_params_example =
    parse_query_params_lem atoi (λ s. none) parse_int (λ s. none) request entity_workflow_run
