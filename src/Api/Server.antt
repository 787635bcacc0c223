-- ===== src/Api/Server.antt =====
-- internal/api/server.go: the handlers. W is the world of the query client, whose calls may answer
-- anything; a response is what writeJSON or writeError is given.
pub mod Asked
use dalikamata.Prelude.{
  ℕ, String, Bool, true, false, Option, none, some, List, Result, ok, err, if◌then◌else◌,
}
use dalikamata.Prelude.Int.{ℤ}
use dalikamata.Prelude.Steps.{Step, pure, then_do}
use dalikamata.Platform.{Platform}
use dalikamata.Model.{OwnershipDiagnostics}
use dalikamata.Query.Aggregation.{Results, has_aggs}
use dalikamata.Repo.Queries.{Query, Entity}
use dalikamata.Api.Params.{ParamError, UrlValues}

pub data Method : Type 0 where
  method_get method_post : Method
  other : String → Method

pub record HttpRequest (Body : Type 0) : Type 0 where
  pub method : Method
  pub params : UrlValues
  pub body : Body

module _ ⦃go : Platform⦄ where
  pub data HttpResponse (Hits : Type 0) : Type 0 where
    error_response : ℕ → String → HttpResponse Hits
    aggregation_response : Entity → Results → HttpResponse Hits
    hits_response : Entity → ℤ → ℤ → Hits → Option Results → HttpResponse Hits

  module _ {Hits Err : Type 0} (exceeded : Err → Bool) where
    abbrev handle_query_error : Err → HttpResponse Hits
    handle_query_error e =
        if exceeded e
        then error_response 504 "query timed out"
        else error_response 500 "query failed"

    abbrev diagnostics_response :
        Result Err (List OwnershipDiagnostics)
        → Result (HttpResponse Hits) (List OwnershipDiagnostics)
    diagnostics_response (err e) = err (handle_query_error e)
    diagnostics_response (ok diags) = ok diags

    -- `err` is a writeError; `ok` is the list that is written.
    unfoldable pub ownership_handler :
        {W : Type 0}
        → Step W (Result Err (List OwnershipDiagnostics))
        → Method
        → Step W (Result (HttpResponse Hits) (List OwnershipDiagnostics))
    ownership_handler fetch method_get =
        then_do fetch (λ answer. pure (diagnostics_response answer))
    ownership_handler fetch method_post = pure (err (error_response 405 "method not allowed"))
    ownership_handler fetch (other name) = pure (err (error_response 405 "method not allowed"))

    module _ {W Body E : Type 0} (parse : UrlValues → Entity → Result (ParamError E) Query)
        (decode : Body → Result E Query) (param_text : ParamError E → String)
        (body_text : E → String) (aggregate : Query → Step W (Result Err Results)) (entity : Entity)
        (fetch_all : Query → Step W (Result Err Hits)) where
      abbrev pub from_params : Result (ParamError E) Query → Result (HttpResponse Hits) Query
      from_params (err e) = err (error_response 400 (param_text e))
      from_params (ok q) = ok q

      abbrev pub from_body : Result E Query → Result (HttpResponse Hits) Query
      from_body (err e) = err (error_response 400 (body_text e))
      from_body (ok q) = ok (record q { entity = entity })

      abbrev pub request_query : Method → UrlValues → Body → Result (HttpResponse Hits) Query
      request_query method_get params body = from_params (parse params entity)
      request_query method_post params body = from_body (decode body)
      request_query (other name) params body = err (error_response 405 "method not allowed")

      abbrev aggregation_answer : Result Err Results → HttpResponse Hits
      aggregation_answer (err e) = handle_query_error e
      aggregation_answer (ok aggs) = aggregation_response entity aggs

      abbrev with_aggs : Query → Hits → Result Err Results → HttpResponse Hits
      with_aggs q hits (err e) = handle_query_error e
      with_aggs q hits (ok aggs) = hits_response entity q.size q.from hits (some aggs)

      abbrev pub after_hits : Query → Result Err Hits → Step W (HttpResponse Hits)
      after_hits q (err e) = pure (handle_query_error e)
      after_hits q (ok hits) =
          if has_aggs q.aggs
          then then_do (aggregate q) (λ answer. pure (with_aggs q hits answer))
          else pure (hits_response entity q.size q.from hits none)

      abbrev pub answer_query : Query → Step W (HttpResponse Hits)
      answer_query q =
          if q.aggs_only
          then then_do (aggregate q) (λ answer. pure (aggregation_answer answer))
          else then_do (fetch_all q) (after_hits q)

      abbrev pub answer_read : Result (HttpResponse Hits) Query → Step W (HttpResponse Hits)
      answer_read (err response) = pure response
      answer_read (ok q) = answer_query q

      unfoldable pub entity_handler : HttpRequest Body → Step W (HttpResponse Hits)
      entity_handler r = answer_read (request_query r.method r.params r.body)
