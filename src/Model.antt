-- ===== src/Model.antt =====
-- internal/domain/model: the entities of the domain.
use dalikamata.Prelude.{String, List}
use dalikamata.Prelude.Int.{ℤ}
use dalikamata.Platform.{Platform}

pub record Repo : Type 0 where
  pub repo_id : String
  pub name : String

pub record Workflow : Type 0 where
  pub id : String
  pub name : String
  pub repo_ids : List String

pub record Team : Type 0 where
  pub name : String

pub record Component : Type 0 where
  pub name : String
  pub team_name : String
  pub repo_ids : List String

pub record RepoOnboarding : Type 0 where
  pub repo_id : String
  pub component : String
  pub team : String

pub record RepoOwnership : Type 0 where
  pub repo_id : String
  pub component_name : String
  pub team_name : String
  pub reason : String

pub record OwnershipDiagnostics : Type 0 where
  pub workflow_id : String
  pub reason : String
  pub owners : List RepoOwnership

abbrev pub pull_request_state_merged : String
pull_request_state_merged = "MERGED"

abbrev pub pull_request_state_declined : String
pull_request_state_declined = "DECLINED"

module _ ⦃go : Platform⦄ where
  open go use {Float, Time}

  pub record Commit : Type 0 where
    pub sha : String
    pub repo_id : String
    pub author : String
    pub timestamp : Time

  pub record PullRequest : Type 0 where
    pub id : String
    pub repo_id : String
    pub name : String
    pub title : String
    pub description : String
    pub state : String
    pub author : String
    pub created_at : Time
    pub updated_at : Time

  -- The last three fields are filled at query time.
  pub record WorkflowRun : Type 0 where
    pub id : String
    pub workflow_id : String
    pub number : ℤ
    pub status : String
    pub branch : String
    pub commit_sha : String
    pub started_at : Time
    pub duration : Float
    pub workflow_name : String
    pub component_names : List String
    pub team_names : List String

  -- The last five fields are filled at query time.
  pub record WorkflowTask : Type 0 where
    pub workflow_run_id : String
    pub order : ℤ
    pub name : String
    pub status : String
    pub started_at : Time
    pub duration : Float
    pub workflow_id : String
    pub workflow_name : String
    pub component_names : List String
    pub team_names : List String
    pub branch : String
