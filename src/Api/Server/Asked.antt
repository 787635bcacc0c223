-- ===== src/Api/Server/Asked.antt =====
-- internal/api/server.go: which queries a handler sends to its client.
use dalikamata.Prelude.{
  String, Bool, true, ◌≡◌, refl, sym, ap, subst, Result, ok, err, Bool-cases, inl, inr, Option,
}
use dalikamata.Prelude.Int.{ℤ}
use dalikamata.Prelude.Steps.{Step, Preserves}
use dalikamata.Platform.{Platform}
use dalikamata.Query.Aggregation.{Results, has_aggs}
use dalikamata.Repo.Queries.{Query, Entity}
use dalikamata.Api.Fields.{valid_fields}
use dalikamata.Api.Params.{ParamError, UrlValues, parse_query_params}
use dalikamata.Api.Parsed.{some_names_known, Judged, parse_query_params_lem}
use dalikamata.Api.Server.{
  Method, method_get, method_post, other, HttpRequest, HttpResponse, entity_handler, answer_read,
  answer_query, after_hits, request_query, from_params, from_body,
}

module _ ⦃go : Platform⦄ where
  -- A query that a request may send: it is of the route's entity, and if it comes from a query
  -- string, its filter names fields of that entity only.
  abbrev pub IsAllowed : Entity → Method → Query → Type 0
  IsAllowed entity method_get q =
      (q.entity ≡ entity) × (some_names_known (valid_fields entity) q.filter ≡ true)
  IsAllowed entity method_post q = q.entity ≡ entity
  IsAllowed entity (other name) q = q.entity ≡ entity

  module _ {E : Type 0} (atoi : String → Result E ℤ) (parse_time : String → Option go.Time)
      (parse_int : String → Option ℤ) (parse_float : String → Option go.Float) where
    abbrev parse : UrlValues → Entity → Result (ParamError E) Query
    parse = parse_query_params atoi parse_time parse_int parse_float

    parse-IsAllowed :
        (params : UrlValues) (entity : Entity) (q : Query)
        → parse params entity ≡ ok q
        → IsAllowed entity method_get q
    parse-IsAllowed params entity q e =
        let parsed =
          subst (Judged (valid_fields entity) atoi parse_time parse_int parse_float entity params) e
            (parse_query_params_lem atoi parse_time parse_int parse_float params entity) in
        (parsed.2, parsed.1)

    module _ {W Hits Err Body : Type 0} (exceeded : Err → Bool) (decode : Body → Result E Query)
        (param_text : ParamError E → String) (body_text : E → String)
        (aggregate : Query → Step W (Result Err Results)) (entity : Entity)
        (fetch_all : Query → Step W (Result Err Hits)) where
      abbrev read : Method → UrlValues → Body → Result (HttpResponse Hits) Query
      read = request_query exceeded parse decode param_text body_text aggregate entity fetch_all

      parsed_of_read :
          (r : Result (ParamError E) Query) (q : Query)
          → from_params exceeded parse decode param_text body_text aggregate entity fetch_all r
            ≡ ok q
          → r ≡ ok q
      parsed_of_read (ok p) q e = cc
      parsed_of_read (err error) q e = cc

      abbrev entity_of : Result (HttpResponse Hits) Query → Entity
      entity_of (err response) = entity
      entity_of (ok q) = q.entity

      entity_of_body :
          (r : Result E Query) (q : Query)
          → from_body exceeded parse decode param_text body_text aggregate entity fetch_all r ≡ ok q
          → q.entity ≡ entity
      entity_of_body (ok p) q e = ap entity_of (sym e)
      entity_of_body (err error) q e = cc

      request_query-IsAllowed :
          (method : Method) (params : UrlValues) (body : Body) (q : Query)
          → read method params body ≡ ok q
          → IsAllowed entity method q
      request_query-IsAllowed method_get params body q e =
          parse-IsAllowed params entity q (parsed_of_read (parse params entity) q e)
      request_query-IsAllowed method_post params body q e = entity_of_body (decode body) q e
      request_query-IsAllowed (other name) params body q e = cc

      module _ {κ} (Inv : W → Type κ) where
        kept_after_hits :
            (q : Query) (answer : Result Err Hits)
            → Preserves Inv (aggregate q)
            → Preserves Inv (
                after_hits exceeded parse decode param_text body_text aggregate entity fetch_all q
                  answer)
        kept_after_hits q (err e) keeps s h = h
        kept_after_hits q (ok hits) keeps s h = elim (Bool-cases (has_aggs q.aggs)) [
          | inl more ↦ simp (more) (keeps s h)
          | inr less ↦ simp (less) h
        ]

        kept_answer :
            (q : Query)
            → Preserves Inv (aggregate q)
            → Preserves Inv (fetch_all q)
            → Preserves Inv (
                answer_query exceeded parse decode param_text body_text aggregate entity fetch_all
                  q)
        kept_answer q asks fetches s h = elim (Bool-cases q.aggs_only) [
          | inl only ↦ simp (only) (asks s h)
          | inr both ↦
              simp (both) (kept_after_hits q (fetch_all q s).1 asks (fetch_all q s).0 (fetches s h))
        ]

        kept_read :
            (r : Result (HttpResponse Hits) Query)
            → ((q : Query) → r ≡ ok q → Preserves Inv (aggregate q) × Preserves Inv (fetch_all q))
            → Preserves Inv (
                answer_read exceeded parse decode param_text body_text aggregate entity fetch_all r)
        kept_read (err response) keeps s h = h
        kept_read (ok q) keeps s h = let both = keeps q refl in kept_answer q both.0 both.1 s h

        -- If the client's calls keep a property of its world for every query of the route's entity
        -- whose filter, when it comes from a query string, names known fields only, then every
        -- request keeps it: the handler sends no other query.
        pub entity_handler-Preserves :
            (r : HttpRequest Body)
            → ((q : Query) → IsAllowed entity r.method q → Preserves Inv (aggregate q))
            → ((q : Query) → IsAllowed entity r.method q → Preserves Inv (fetch_all q))
            → Preserves Inv (
                entity_handler exceeded parse decode param_text body_text aggregate entity fetch_all
                  r)
        unfolding entity_handler
        entity_handler-Preserves r asks fetches = kept_read (read r.method r.params r.body) (λ q e.
            let allowed = request_query-IsAllowed r.method r.params r.body q e in
            (asks q allowed, fetches q allowed))
