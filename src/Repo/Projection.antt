-- ===== src/Repo/Projection.antt =====
-- internal/domain/repo/projection.go: the field maps of the entities.
use dalikamata.Prelude.{
  String, ◌||◌, Option, none, some, List, [], ◌∷◌, ◌++◌, ◌==◌, any, if◌then◌else◌,
}
use dalikamata.Prelude.Dict.{Dict, lookup}
use dalikamata.Platform.{Platform}
use dalikamata.Model.{
  Repo, Commit, PullRequest, Workflow, WorkflowRun, WorkflowTask, Team, Component,
  pull_request_state_merged, pull_request_state_declined,
}
use dalikamata.Query.Value.{Any, Fields}
use dalikamata.Query.FieldNames
use dalikamata.Repo.Owners.{OwnerLookup, owner_components, owner_teams, owner_keys}

module _ ⦃go : Platform⦄ where
  open go use {Float, Time, time_sub_seconds}

  unfoldable pub project_repo : Repo → Fields
  project_repo r =
      (FieldNames.repo_id, Any.string r.repo_id) ∷ (FieldNames.repo_name, Any.string r.name) ∷ []

  unfoldable pub project_commit : Commit → Fields
  project_commit c =
      (FieldNames.commit_sha, Any.string c.sha)
      ∷ (FieldNames.commit_repo_id, Any.string c.repo_id)
      ∷ (FieldNames.commit_author, Any.string c.author)
      ∷ (FieldNames.commit_timestamp, Any.time c.timestamp)
      ∷ []

  -- The end is the last update of a closed pull request, and now for any other.
  abbrev pub pr_cycle_time_seconds : PullRequest → Time → Float
  pr_cycle_time_seconds pr now =
      time_sub_seconds
        (if pr.state == pull_request_state_merged || pr.state == pull_request_state_declined
          then pr.updated_at
          else now)
        pr.created_at

  unfoldable pub project_pull_request : Time → PullRequest → Fields
  project_pull_request now pr =
      (FieldNames.pr_id, Any.string pr.id)
      ∷ (FieldNames.pr_repo_id, Any.string pr.repo_id)
      ∷ (FieldNames.pr_name, Any.string pr.name)
      ∷ (FieldNames.pr_title, Any.string pr.title)
      ∷ (FieldNames.pr_description, Any.string pr.description)
      ∷ (FieldNames.pr_state, Any.string pr.state)
      ∷ (FieldNames.pr_author, Any.string pr.author)
      ∷ (FieldNames.pr_created_at, Any.time pr.created_at)
      ∷ (FieldNames.pr_updated_at, Any.time pr.updated_at)
      ∷ (FieldNames.pr_cycle_time_seconds, Any.float64 (pr_cycle_time_seconds pr now))
      ∷ []

  unfoldable pub project_workflow : Workflow → Fields
  project_workflow w =
      (FieldNames.workflow_id, Any.string w.id)
      ∷ (FieldNames.workflow_name, Any.string w.name)
      ∷ (FieldNames.workflow_repo_ids, Any.strings w.repo_ids)
      ∷ []

  unfoldable pub project_workflow_run : OwnerLookup → WorkflowRun → Fields
  project_workflow_run lkp r =
      let owners = lkp.owners r.workflow_id in
      (FieldNames.run_id, Any.string r.id)
      ∷ (FieldNames.run_workflow_id, Any.string r.workflow_id)
      ∷ (FieldNames.run_number, Any.int r.number)
      ∷ (FieldNames.run_status, Any.string r.status)
      ∷ (FieldNames.run_branch, Any.string r.branch)
      ∷ (FieldNames.run_commit_sha, Any.string r.commit_sha)
      ∷ (FieldNames.run_started_at, Any.time r.started_at)
      ∷ (FieldNames.run_duration, Any.float64 r.duration)
      ∷ (FieldNames.run_workflow_name, Any.string (lkp.workflow_name r.workflow_id))
      ∷ (FieldNames.run_component_name, Any.strings (owner_components owners))
      ∷ (FieldNames.run_team_name, Any.strings (owner_teams owners))
      ∷ (FieldNames.run_owner, Any.strings (owner_keys owners))
      ∷ []

  -- The workflow and the branch of the task's run, both "" if the run is missing.
  abbrev pub run_workflow : Option WorkflowRun → String
  run_workflow none = ""
  run_workflow (some run) = run.workflow_id

  abbrev pub run_branch : Option WorkflowRun → String
  run_branch none = ""
  run_branch (some run) = run.branch

  unfoldable pub project_workflow_task : Dict WorkflowRun → OwnerLookup → WorkflowTask → Fields
  project_workflow_task runs lkp t =
      let workflow_id = run_workflow (lookup t.workflow_run_id runs) in
      let branch = run_branch (lookup t.workflow_run_id runs) in
      let owners = lkp.owners workflow_id in
      (FieldNames.task_workflow_run_id, Any.string t.workflow_run_id)
      ∷ (FieldNames.task_order, Any.int t.order)
      ∷ (FieldNames.task_name, Any.string t.name)
      ∷ (FieldNames.task_status, Any.string t.status)
      ∷ (FieldNames.task_started_at, Any.time t.started_at)
      ∷ (FieldNames.task_duration, Any.float64 t.duration)
      ∷ (FieldNames.task_workflow_id, Any.string workflow_id)
      ∷ (FieldNames.task_workflow_name, Any.string (lkp.workflow_name workflow_id))
      ∷ (FieldNames.task_component_name, Any.strings (owner_components owners))
      ∷ (FieldNames.task_team_name, Any.strings (owner_teams owners))
      ∷ (FieldNames.task_owner, Any.strings (owner_keys owners))
      ∷ (FieldNames.task_branch, Any.string branch)
      ∷ []

  unfoldable pub project_team : Team → Fields
  project_team t = (FieldNames.team_name, Any.string t.name) ∷ []

  unfoldable pub project_component : Component → Fields
  project_component c =
      (FieldNames.component_name, Any.string c.name)
      ∷ (FieldNames.component_team_name, Any.string c.team_name)
      ∷ []

-- A team "unknown" comes last if there is none.
unfoldable pub ensure_unknown_team : List Team → List Team
ensure_unknown_team snap =
    if any (λ t. t.name == "unknown") snap then snap else snap ++ (record { name = "unknown" }) ∷ []
