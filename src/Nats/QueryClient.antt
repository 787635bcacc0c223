-- ===== src/Nats/QueryClient.antt =====
-- internal/domain/nats/query_client.go: the client's side of a query. A round of the loop is what its
-- clock, the subscription and the context answer; after the last round the client waits.
use dalikamata.Prelude.{
  String, Bool, Option, none, some, List, [], ◌∷◌, ◌++◌, ◌==◌, if◌then◌else◌, Result, ok, err,
}
use dalikamata.Platform.{Platform}
use dalikamata.Query.Aggregation.{Results, no_results}
use dalikamata.Repo.Queries.{Query}
use dalikamata.Nats.Messages.{
  status_data, status_done, status_error, status_aggregation, Message, Codec,
}

pub record Round (Data : Type 0) (E : Type 0) : Type 0 where
  -- time.Until(deadline) <= 0
  pub late : Bool
  pub received : Result E (Message Data)
  -- the context's end, if the round sees it
  pub ctx_err : Option E

pub data ClientError (E : Type 0) : Type 0 where
  marshalling_query subscribing publishing receiving cancelled_with decoding : E → ClientError E
  timed_out : ClientError E
  unparseable : ClientError E
  server_error : String → ClientError E

-- Answers of the connection before the loop, then its rounds.
pub record Connection (Data : Type 0) (E : Type 0) : Type 0 where
  pub subscribe_sync : Option E
  pub publish_request : Data → Result E (List (Round Data E))

module _ ⦃go : Platform⦄ {Data E : Type 0} (error_payload : Data → Result E String) where
  abbrev failure_of : Result E String → ClientError E
  failure_of (err e) = unparseable
  failure_of (ok text) = if text == "" then unparseable else server_error text

  abbrev pub server_failure : Data → ClientError E
  server_failure body = failure_of (error_payload body)

  module _ {T : Type 0} (codec : Codec Data E T) where
    abbrev pub Collected : Type 0
    Collected = Option (Result (ClientError E) (List T))

    abbrev deliver : (List T → Collected) → List T → Option E → Result E T → Collected
    deliver next items ctx_err (err e) = some (err (decoding e))
    deliver next items none (ok item) = next (items ++ (item ∷ []))
    deliver next items (some e) (ok item) = some (err (cancelled_with e))

    -- A message of another status is logged and passed over.
    abbrev pub on_message : (List T → Collected) → List T → Option E → Message Data → Collected
    on_message next items ctx_err msg =
        if msg.status == status_done
        then some (ok items)
        else if msg.status == status_error
        then some (err (server_failure msg.body))
        else if msg.status == status_data
        then deliver next items ctx_err (codec.unmarshal msg.body)
        else next items

    abbrev pub on_received :
        (List T → Collected) → List T → Option E → Result E (Message Data) → Collected
    on_received next items (some c) (err e) = some (err (cancelled_with c))
    on_received next items none (err e) = some (err (receiving e))
    on_received next items ctx_err (ok msg) = on_message next items ctx_err msg

    -- The loop of streamQuery with collectAll at the other end of its channels: an error drops the
    -- items received so far. `none` is a client that still waits.
    unfoldable pub collect_rounds : List T → List (Round Data E) → Collected
    collect_rounds items [] = none
    collect_rounds items (r ∷ rounds) =
        let next : List T → Collected = λ more. collect_rounds more rounds in
        if r.late then some (err timed_out) else on_received next items r.ctx_err r.received

    module _ (query_codec : Codec Data E Query) (connection : Connection Data E) where
      abbrev published : Result E (List (Round Data E)) → Collected
      published (err e) = some (err (publishing e))
      published (ok rounds) = collect_rounds [] rounds

      abbrev subscribed : Data → Option E → Collected
      subscribed body (some e) = some (err (subscribing e))
      subscribed body none = published (connection.publish_request body)

      abbrev encoded : Result E Data → Collected
      encoded (err e) = some (err (marshalling_query e))
      encoded (ok body) = subscribed body connection.subscribe_sync

      -- Each of QueryReposAll to QueryComponentsAll and OwnershipDiagnosticsAll, by the codec of its items.
      unfoldable pub query_all : Query → Collected
      query_all q = encoded (query_codec.marshal q)

  module _ (codec : Codec Data E Results) where
    abbrev pub Aggregated : Type 0
    Aggregated = Option (Result (ClientError E) Results)

    abbrev decoded_result : Result E Results → Aggregated
    decoded_result (err e) = some (err (decoding e))
    decoded_result (ok result) = some (ok result)

    abbrev pub on_aggregate_message : Aggregated → Message Data → Aggregated
    on_aggregate_message next msg =
        if msg.status == status_done
        then some (ok no_results)
        else if msg.status == status_error
        then some (err (server_failure msg.body))
        else if msg.status == status_aggregation
        then decoded_result (codec.unmarshal msg.body)
        else next

    abbrev on_aggregate_received : Aggregated → Option E → Result E (Message Data) → Aggregated
    on_aggregate_received next (some c) (err e) = some (err (cancelled_with c))
    on_aggregate_received next none (err e) = some (err (receiving e))
    on_aggregate_received next ctx_err (ok msg) = on_aggregate_message next msg

    unfoldable pub aggregate_rounds : List (Round Data E) → Aggregated
    aggregate_rounds [] = none
    aggregate_rounds (r ∷ rounds) =
        let next = aggregate_rounds rounds in
        if r.late then some (err timed_out) else on_aggregate_received next r.ctx_err r.received

    module _ (query_codec : Codec Data E Query) (connection : Connection Data E) where
      abbrev published_aggregate : Result E (List (Round Data E)) → Aggregated
      published_aggregate (err e) = some (err (publishing e))
      published_aggregate (ok rounds) = aggregate_rounds rounds

      abbrev subscribed_aggregate : Data → Option E → Aggregated
      subscribed_aggregate body (some e) = some (err (subscribing e))
      subscribed_aggregate body none = published_aggregate (connection.publish_request body)

      abbrev encoded_aggregate : Result E Data → Aggregated
      encoded_aggregate (err e) = some (err (marshalling_query e))
      encoded_aggregate (ok body) = subscribed_aggregate body connection.subscribe_sync

      unfoldable pub client_aggregate : Query → Aggregated
      client_aggregate q = encoded_aggregate (query_codec.marshal q)
