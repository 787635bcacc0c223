-- ===== src/Sqlite/Loads.antt =====
-- internal/domain/repo/sqlite.go: the row loaders and the owner lookup. A SELECT gives the rows in an
-- order that is left open, as `range` over a map does, but for the components, which are ordered by name;
-- `failure` is what the database answers to the call with that number, if it fails.
use dalikamata.Prelude.{
  ℕ, suc, String, Bool, Option, none, some, List, [], ◌∷◌, Result, ok, err, ◌>>=◌, sort_stable,
}
use dalikamata.Prelude.Dict.{Dict, insert}
use dalikamata.Prelude.Texts.{str_lt}
use dalikamata.Platform.{Platform}
use dalikamata.Model.{
  Repo, Commit, PullRequest, Workflow, WorkflowRun, WorkflowTask, Team, Component,
}
use dalikamata.Repo.Owners.{OwnerLookup, new_owner_lookup}
use dalikamata.Repo.Memory.{index_repos}
use dalikamata.Sqlite.Tables.{
  CommitRow, PullRequestRow, WorkflowRow, ComponentRow, WorkflowRunRow, WorkflowTaskRow, Database,
  Texts,
}
use dalikamata.Sqlite.Writes.{scan_components}

-- The loop over the rows: the first row that cannot be read ends it.
unfoldable pub scan_all {ℓ κ} :
    {E : Type 0} {Row : Type ℓ} {A : Type κ} → (Row → Result E A) → List Row → Result E (List A)
scan_all scan [] = ok []
scan_all scan (row ∷ rows) =
    let rest = scan_all scan rows in do v ← scan row; out ← rest; ok (v ∷ out)

-- ORDER BY name
abbrev pub by_name : {Cell : Type 0} → ComponentRow Cell → ComponentRow Cell → Bool
by_name a b = str_lt a.name b.name

-- The loops of ownerLookupFromDB; a later component takes a repo over.
unfoldable pub teams_of : List Component → Dict String → Dict String
teams_of [] ct = ct
teams_of (c ∷ components) ct = teams_of components (insert c.name c.team_name ct)

unfoldable pub components_of_repos : List Component → Dict String → Dict String
components_of_repos [] rtc = rtc
components_of_repos (c ∷ components) rtc =
    components_of_repos components (index_repos c.name c.repo_ids rtc)

unfoldable pub workflow_repos : List Workflow → Dict (List String) → Dict (List String)
workflow_repos [] wtr = wtr
workflow_repos (w ∷ workflows) wtr = workflow_repos workflows (insert w.id w.repo_ids wtr)

unfoldable pub workflow_names : List Workflow → Dict String → Dict String
workflow_names [] names = names
workflow_names (w ∷ workflows) names = workflow_names workflows (insert w.id w.name names)

abbrev pub lookup_of : List Component → List Workflow → OwnerLookup
lookup_of components workflows =
    new_owner_lookup (components_of_repos components []) (teams_of components [])
      (workflow_repos workflows []) (workflow_names workflows [])

module _ ⦃go : Platform⦄ where
  unfoldable pub runs_by_id : List WorkflowRun → Dict WorkflowRun → Dict WorkflowRun
  runs_by_id [] runs = runs
  runs_by_id (run ∷ rest) runs = runs_by_id rest (insert run.id run runs)

module _ ⦃go : Platform⦄ {Cell E : Type 0} (texts : Texts Cell E) (failure : ℕ → Option E) where
  open go use {range_order}

  abbrev pub query_context {ℓ} : {A : Type ℓ} → Option E → Result E A → Result E A
  query_context none loaded = loaded
  query_context (some e) loaded = err e

  abbrev pub scan_commit : CommitRow Cell → Result E Commit
  scan_commit row = do
    timestamp ← texts.parse_time row.timestamp
    ok (record { sha = row.sha; repo_id = row.repo_id; author = row.author; timestamp = timestamp })

  abbrev pub scan_pull_request : PullRequestRow Cell → Result E PullRequest
  scan_pull_request row = do
    created_at ← texts.parse_time row.created_at
    updated_at ← texts.parse_time row.updated_at
    ok (record {
      id = row.id;
      repo_id = row.repo_id;
      name = row.name;
      title = row.title;
      description = row.description;
      state = row.state;
      author = row.author;
      created_at = created_at;
      updated_at = updated_at;
    })

  abbrev pub scan_workflow : WorkflowRow Cell → Result E Workflow
  scan_workflow row = do
    repo_ids ← texts.unmarshal_ids row.repo_ids
    ok (record { id = row.id; name = row.name; repo_ids = repo_ids })

  abbrev pub scan_workflow_run : WorkflowRunRow Cell → Result E WorkflowRun
  scan_workflow_run row = do
    started_at ← texts.parse_time row.started_at
    ok (record {
      id = row.id;
      workflow_id = row.workflow_id;
      number = row.number;
      status = row.status;
      branch = row.branch;
      commit_sha = row.commit_sha;
      started_at = started_at;
      duration = row.duration;
      workflow_name = "";
      component_names = [];
      team_names = [];
    })

  abbrev pub scan_workflow_task : WorkflowTaskRow Cell → Result E WorkflowTask
  scan_workflow_task row = do
    started_at ← texts.parse_time row.started_at
    ok (record {
      workflow_run_id = row.workflow_run_id;
      order = row.task_order;
      name = row.name;
      status = row.status;
      started_at = started_at;
      duration = row.duration;
      workflow_id = "";
      workflow_name = "";
      component_names = [];
      team_names = [];
      branch = "";
    })

  module _ (db : Database Cell) where
    -- The number is that of the call.
    abbrev pub load_repos : ℕ → Result E (List Repo)
    load_repos k = query_context (failure k) (ok (range_order db.repos))

    unfoldable pub load_commits : ℕ → Result E (List Commit)
    load_commits k = query_context (failure k) (scan_all scan_commit (range_order db.commits))

    unfoldable pub load_pull_requests : ℕ → Result E (List PullRequest)
    load_pull_requests k =
        query_context (failure k) (scan_all scan_pull_request (range_order db.pull_requests))

    unfoldable pub load_workflows : ℕ → Result E (List Workflow)
    load_workflows k = query_context (failure k) (scan_all scan_workflow (range_order db.workflows))

    unfoldable pub load_workflow_runs : ℕ → Result E (List WorkflowRun)
    load_workflow_runs k =
        query_context (failure k) (scan_all scan_workflow_run (range_order db.workflow_runs))

    unfoldable pub load_workflow_tasks : ℕ → Result E (List WorkflowTask)
    load_workflow_tasks k =
        query_context (failure k) (scan_all scan_workflow_task (range_order db.workflow_tasks))

    abbrev pub load_teams : ℕ → Result E (List Team)
    load_teams k = query_context (failure k) (ok (range_order db.teams))

    unfoldable pub load_components : ℕ → Result E (List Component)
    load_components k =
        query_context (failure k)
          (scan_components texts failure (sort_stable by_name (range_order db.components)))

    unfoldable pub owner_lookup_from_db : ℕ → Result E OwnerLookup
    owner_lookup_from_db k = do
      components ← load_components k
      workflows ← load_workflows (suc k)
      ok (lookup_of components workflows)
