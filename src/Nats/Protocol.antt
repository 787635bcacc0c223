-- ===== src/Nats/Protocol.antt =====
-- internal/domain/nats/query_port.go and query_client.go together: a query on the server and its
-- client, over a connection that delivers each message, in order and in time.
use mathlib.Core.List.{append-nil, append_assoc}
use dalikamata.Prelude.{
  ℕ, suc, String, ◌≡◌, refl, false, Option, none, some, List, [], ◌∷◌, ◌++◌, map, length, ◌==◌, All,
  subst, arith, Result, ok, err, Result-cases, Option-cases, inl, inr,
}
use dalikamata.Platform.{Platform}
use dalikamata.Query.Value.{Fields}
use dalikamata.Query.Sort.{sort_by, paginate}
use dalikamata.Repo.Queries.{Query, Failure, done, Context, select_items, emit_all, query_entities}
use dalikamata.Nats.Messages.{status_data, status_done, Message, Request, Codec}
use dalikamata.Nats.QueryPort.{SendError, Handled, send_data, send_done, send_error, handle_query}
use dalikamata.Nats.QueryClient.{
  Round, ClientError, server_error, Connection, collect_rounds, query_all,
}

-- RespondMsg into an inbox that takes every message.
abbrev pub into_inbox :
    {Data E : Type 0} → Message Data → List (Message Data) → List (Message Data) × Option E
into_inbox msg inbox = (inbox ++ (msg ∷ []), none)

abbrev in_time : {Data E : Type 0} → Message Data → Round Data E
in_time msg = record { late = false; received = ok msg; ctx_err = none }

-- The server answers a request with the messages that it puts into the empty inbox.
abbrev pub loopback :
    {Data E : Type 0}
    → (Request Data → List (Message Data) → List (Message Data) × Handled)
    → Connection Data E
loopback server = record {
  subscribe_sync = none;
  publish_request =
      λ body. ok (map in_time (server (record { reply = "_INBOX"; body = body }) []).0);
}

-- A value that the codec can write, and that it reads back. (JSON has no text for an infinite
-- number, for one.)
abbrev pub ReadsBack : {Data E A : Type 0} → Codec Data E A → A → Type 0
ReadsBack {Data} {E} {A} codec a =
    (body : Data) × ((codec.marshal a ≡ ok body) × (codec.unmarshal body ≡ ok a))

abbrev pub background : {E : Type 0} → Context E
background n = none

module _ ⦃go : Platform⦄ {Data E T U : Type 0} (no_body : Data) (error_body : String → Data)
    (failure_text : Failure (SendError E) → String) (request_text : E → String)
    (error_payload : Data → Result E String) (query_codec : Codec Data E Query)
    (codec : Codec Data E U) (project : T → Fields) (view : T → U) where
  -- The server's side: a query over the snapshot, whose items are sent as `view` makes them.
  abbrev pub serve : List T → Request Data → List (Message Data) → List (Message Data) × Handled
  serve snapshot msg =
      handle_query into_inbox no_body error_body failure_text request_text query_codec msg (λ q.
        query_entities background snapshot q project (λ item.
          send_data into_inbox no_body error_body failure_text request_text codec (view item)))

  -- What the query's own steps say: an error of the filter, a panic of the page, or the page.
  abbrev pub page_answer : Option (List T) → Option (Result (ClientError E) (List U))
  page_answer none = none
  page_answer (some hits) = some (ok (map view hits))

  abbrev pub answer :
      Query → Result (Failure (SendError E)) (List T) → Option (Result (ClientError E) (List U))
  answer q (err e) = some (err (server_error (failure_text e)))
  answer q (ok kept) = page_answer (paginate (sort_by kept q.sort project) q.from q.size)

  abbrev body_of : Result E Data → Data
  body_of (ok body) = body
  body_of (err e) = no_body

  abbrev data_message : T → Message Data
  data_message item = record { status = status_data; body = body_of (codec.marshal (view item)) }

  abbrev Sendable : T → Type 0
  Sendable item = ReadsBack codec (view item)

  send_data-into_inbox :
      (item : T) (inbox : List (Message Data))
      → Sendable item
      → send_data into_inbox no_body error_body failure_text request_text codec (view item) inbox
        ≡ (inbox ++ (data_message item ∷ []), none)
  unfolding send_data
  send_data-into_inbox item inbox reads = rw (reads.1.0) refl

  emit_all-into_inbox :
      (emit : T → List (Message Data) → List (Message Data) × Option (SendError E)) (k : ℕ)
      (items : List T) (inbox : List (Message Data))
      → ((item : T) (box : List (Message Data))
          → Sendable item
          → emit item box ≡ (box ++ (data_message item ∷ []), none))
      → All Sendable items
      → emit_all background emit k items inbox ≡ (inbox ++ map data_message items, done)
  unfolding emit_all
  emit_all-into_inbox emit k [] inbox accepts reads = rw append-nil refl
  emit_all-into_inbox emit k (item ∷ items) inbox accepts reads =
      let sent = accepts item inbox reads.0 in
      let others =
        emit_all-into_inbox emit (suc k) items (inbox ++ (data_message item ∷ [])) accepts
          reads.1 in
      ground (arith, append_assoc inbox (data_message item ∷ []) (map data_message items))

  -- The client reads the items of a done reply back.
  collect_rounds-messages :
      (items : List T) (sofar : List U) (last : Message Data)
      → All Sendable items
      → last.status ≡ status_done
      → collect_rounds error_payload codec sofar
          (map in_time (map data_message items ++ (last ∷ [])))
        ≡ some (ok (sofar ++ map view items))
  unfolding collect_rounds
  collect_rounds-messages [] sofar last reads ends = rw (ends, append-nil) refl
  collect_rounds-messages (item ∷ items) sofar last reads ends =
      rw
        (
          reads.0.1.0,
          reads.0.1.1,
          collect_rounds-messages items (sofar ++ (view item ∷ [])) last reads.1 ends,
          append_assoc sofar (view item ∷ []) (map view items),
        )
        refl

  -- The hits of a query, which are none if it fails or panics.
  abbrev some_hits : Option (List T) → List T
  some_hits none = []
  some_hits (some hits) = hits

  abbrev pub hits_of : Query → Result (Failure (SendError E)) (List T) → List T
  hits_of q (err e) = []
  hits_of q (ok kept) = some_hits (paginate (sort_by kept q.sort project) q.from q.size)

  -- On every branch of the query the client ends with what the query says: the page's items as
  -- they are sent, in order, or the error's text and no item. If the page panics, it waits. The
  -- codecs read back this query, the items of its page and the text of its error, which is not
  -- empty.
  pub query_all-serve :
      (snapshot : List T) (q : Query)
      → ReadsBack query_codec q
      → All Sendable (hits_of q (select_items background q.filter project 0 snapshot))
      → ((e : Failure (SendError E))
          → select_items background q.filter project 0 snapshot ≡ err e
          → (error_payload (error_body (failure_text e)) ≡ ok (failure_text e))
            × ((failure_text e == "") ≡ false))
      → query_all error_payload codec query_codec (loopback (serve snapshot)) q
        ≡ answer q (select_items background q.filter project 0 snapshot)
  unfolding query_all handle_query query_entities send_done send_error collect_rounds
  query_all-serve snapshot q reads items errors =
      elim (Result-cases (select_items {E = SendError E} background q.filter project 0 snapshot)) [
        | inr (e, refused) ↦
            let error = errors e refused in
            rw (reads.1.0, reads.1.1, refused, error.0, error.1) refl
        | inl (kept, e) ↦
            let sendable : All Sendable (hits_of q (ok kept)) =
              subst (λ r. All Sendable (hits_of q r)) e items in
            elim (Option-cases (paginate (sort_by kept q.sort project) q.from q.size)) [
              | inl panics ↦ rw (reads.1.0, reads.1.1, e, panics) refl
              | inr (hits, cut) ↦
                  let page : All Sendable hits =
                    subst (λ p. All Sendable (some_hits p)) cut sendable in
                  rw
                    (
                      reads.1.0,
                      reads.1.1,
                      e,
                      cut,
                      emit_all-into_inbox
                          (λ item.
                            send_data into_inbox no_body error_body failure_text request_text codec
                              (view item))
                          (length snapshot) hits [] send_data-into_inbox page,
                    )
                    (collect_rounds-messages hits [] _ page refl)
            ]
      ]
