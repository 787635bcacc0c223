-- ===== src/Nats/QueryPort.antt =====
-- internal/domain/nats/query_port.go: the server's side of a query. S is the state of the
-- connection, which `respond` (RespondMsg) changes.
use dalikamata.Prelude.{
  String, Option, none, some, List, [], ◌∷◌, ◌==◌, if◌then◌else◌, Result, ok, err,
}
use dalikamata.Platform.{Platform}
use dalikamata.Model.{
  Repo, Commit, PullRequest, Workflow, WorkflowRun, WorkflowTask, Team, Component,
  OwnershipDiagnostics,
}
use dalikamata.Query.Aggregation.{Results}
use dalikamata.Repo.Queries.{Query, Failure, Outcome, done, failed, panicked}
use dalikamata.Nats.Messages.{
  status_data, status_done, status_error, status_aggregation, Message, Request, Codec, QueryHandler,
}

-- What a handler's failure is made of besides the query's own: the body cannot be built, or not sent.
pub data SendError (E : Type 0) : Type 0 where
  marshalling : E → SendError E
  responding : E → SendError E

-- A handler returns, whatever it logs, or the query panics.
pub data Handled : Type 0 where
  returned : Handled
  crashed : Handled

module _ ⦃go : Platform⦄ {S Data E : Type 0} (respond : Message Data → S → S × Option E)
    (no_body : Data) (error_body : String → Data) (failure_text : Failure (SendError E) → String)
    (request_text : E → String) where
  abbrev sent : Option E → Option (SendError E)
  sent none = none
  sent (some e) = some (responding e)

  abbrev pub reply_with : String → Data → S → S × Option (SendError E)
  reply_with status body s =
      let answer = respond (record { status = status; body = body }) s in (answer.0, sent answer.1)

  abbrev reply_encoded : String → Result E Data → S → S × Option (SendError E)
  reply_encoded status (err e) s = (s, some (marshalling e))
  reply_encoded status (ok body) s = reply_with status body s

  unfoldable pub send_data : {A : Type 0} → Codec Data E A → A → S → S × Option (SendError E)
  send_data codec payload = reply_encoded status_data (codec.marshal payload)

  unfoldable pub send_done : S → S × Option (SendError E)
  send_done = reply_with status_done no_body

  unfoldable pub send_aggregation : Codec Data E Results → Results → S → S × Option (SendError E)
  send_aggregation codec result = reply_encoded status_aggregation (codec.marshal result)

  unfoldable pub send_error : String → S → S × Option (SendError E)
  send_error text = reply_with status_error (error_body text)

  -- The error of the last message is logged only.
  abbrev pub finish : S × Outcome (SendError E) → S × Handled
  finish (s, done) = ((send_done s).0, returned)
  finish (s, failed e) = ((send_error (failure_text e) s).0, returned)
  finish (s, panicked) = (s, crashed)

  module _ (query_codec : Codec Data E Query) where
    abbrev run_query : (Query → S → S × Outcome (SendError E)) → Result E Query → S → S × Handled
    run_query fn (err e) s = ((send_error (request_text e) s).0, returned)
    run_query fn (ok q) s = finish (fn q s)

    unfoldable pub handle_query :
        Request Data → (Query → S → S × Outcome (SendError E)) → S → S × Handled
    handle_query msg fn s =
        if msg.reply == "" then (s, returned) else run_query fn (query_codec.unmarshal msg.body) s

    abbrev send_result :
        Codec Data E Results → Result (Failure (SendError E)) Results → S → S × Handled
    send_result codec (err e) s = ((send_error (failure_text e) s).0, returned)
    send_result codec (ok result) s = close_result (send_aggregation codec result s)
      where
        close_result : S × Option (SendError E) → S × Handled
        close_result (t, some e) = (t, returned)
        close_result (t, none) = ((send_done t).0, returned)

    abbrev run_aggregate :
        QueryHandler (SendError E) S → Codec Data E Results → Result E Query → S → S × Handled
    run_aggregate handler codec (err e) s = ((send_error (request_text e) s).0, returned)
    run_aggregate handler codec (ok q) s = send_result codec (handler.aggregate q) s

    unfoldable pub handle_aggregate :
        QueryHandler (SendError E) S → Codec Data E Results → Request Data → S → S × Handled
    handle_aggregate handler codec msg s =
        if msg.reply == ""
        then (s, returned)
        else run_aggregate handler codec (query_codec.unmarshal msg.body) s

    module _ (handler : QueryHandler (SendError E) S) where
      unfoldable pub handle_query_repos : Codec Data E Repo → Request Data → S → S × Handled
      handle_query_repos codec msg = handle_query msg (λ q. handler.query_repos q (send_data codec))

      unfoldable pub handle_query_commits : Codec Data E Commit → Request Data → S → S × Handled
      handle_query_commits codec msg =
          handle_query msg (λ q. handler.query_commits q (send_data codec))

      unfoldable pub handle_query_pull_requests :
          Codec Data E PullRequest → Request Data → S → S × Handled
      handle_query_pull_requests codec msg =
          handle_query msg (λ q. handler.query_pull_requests q (send_data codec))

      unfoldable pub handle_query_workflows : Codec Data E Workflow → Request Data → S → S × Handled
      handle_query_workflows codec msg =
          handle_query msg (λ q. handler.query_workflows q (send_data codec))

      unfoldable pub handle_query_workflow_runs :
          Codec Data E WorkflowRun → Request Data → S → S × Handled
      handle_query_workflow_runs codec msg =
          handle_query msg (λ q. handler.query_workflow_runs q (send_data codec))

      unfoldable pub handle_query_workflow_tasks :
          Codec Data E WorkflowTask → Request Data → S → S × Handled
      handle_query_workflow_tasks codec msg =
          handle_query msg (λ q. handler.query_workflow_tasks q (send_data codec))

      unfoldable pub handle_query_teams : Codec Data E Team → Request Data → S → S × Handled
      handle_query_teams codec msg = handle_query msg (λ q. handler.query_teams q (send_data codec))

      unfoldable pub handle_query_components :
          Codec Data E Component → Request Data → S → S × Handled
      handle_query_components codec msg =
          handle_query msg (λ q. handler.query_components q (send_data codec))

      -- A message that cannot be sent ends the loop without a last message.
      unfoldable pub send_diagnostics :
          Codec Data E OwnershipDiagnostics → List OwnershipDiagnostics → S → S × Handled
      send_diagnostics codec [] s = ((send_done s).0, returned)
      send_diagnostics codec (d ∷ ds) s = elim ((send_data codec d s).1) [
        | some e ↦ ((send_data codec d s).0, returned)
        | none ↦ send_diagnostics codec ds (send_data codec d s).0
      ]

      abbrev diagnosed :
          Codec Data E OwnershipDiagnostics
          → Result (Failure (SendError E)) (List OwnershipDiagnostics)
          → S
          → S × Handled
      diagnosed codec (err e) s = ((send_error (failure_text e) s).0, returned)
      diagnosed codec (ok ds) s = send_diagnostics codec ds s

      unfoldable pub handle_ownership_diagnostics :
          Codec Data E OwnershipDiagnostics → Request Data → S → S × Handled
      handle_ownership_diagnostics codec msg s =
          if msg.reply == "" then (s, returned) else diagnosed codec handler.ownership_diagnostics s
