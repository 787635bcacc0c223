-- ===== src/Nats/Messages.antt =====
-- internal/domain/nats/subjects.go and internal/domain/ports.go: the messages of a query's reply, the
-- codec, and the port that a query handler implements. The bodies are bytes that only the codec
-- (encoding/json) reads.
use dalikamata.Prelude.{String, Option, List, Result}
use dalikamata.Platform.{Platform}
use dalikamata.Model.{
  Repo, Commit, PullRequest, Workflow, WorkflowRun, WorkflowTask, Team, Component,
  OwnershipDiagnostics,
}
use dalikamata.Query.Aggregation.{Results}
use dalikamata.Repo.Queries.{Query, Failure, Outcome}

abbrev pub status_data : String
status_data = "data"

abbrev pub status_done : String
status_done = "done"

abbrev pub status_error : String
status_error = "error"

abbrev pub status_aggregation : String
status_aggregation = "aggregation"

-- The value of the status header and the body.
pub record Message (Data : Type 0) : Type 0 where
  pub status : String
  pub body : Data

-- A request; an empty reply subject is none.
pub record Request (Data : Type 0) : Type 0 where
  pub reply : String
  pub body : Data

-- json.Marshal and json.Unmarshal of a type.
pub record Codec (Data : Type 0) (E : Type 0) (A : Type 0) : Type 0 where
  pub marshal : A → Result E Data
  pub unmarshal : Data → Result E A

module _ ⦃go : Platform⦄ where
  -- QueryHandler; S is what the caller's `emit` changes.
  pub record QueryHandler (E : Type 0) (S : Type 0) : Type 0 where
    pub query_repos : Query → (Repo → S → S × Option E) → S → S × Outcome E
    pub query_commits : Query → (Commit → S → S × Option E) → S → S × Outcome E
    pub query_pull_requests : Query → (PullRequest → S → S × Option E) → S → S × Outcome E
    pub query_workflows : Query → (Workflow → S → S × Option E) → S → S × Outcome E
    pub query_workflow_runs : Query → (WorkflowRun → S → S × Option E) → S → S × Outcome E
    pub query_workflow_tasks : Query → (WorkflowTask → S → S × Option E) → S → S × Outcome E
    pub query_teams : Query → (Team → S → S × Option E) → S → S × Outcome E
    pub query_components : Query → (Component → S → S × Option E) → S → S × Outcome E
    pub aggregate : Query → Result (Failure E) Results
    pub ownership_diagnostics : Result (Failure E) (List OwnershipDiagnostics)
