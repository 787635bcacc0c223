-- ===== src/Sqlite/Writes.antt =====
-- internal/domain/repo/sqlite.go: the writes. `failure` is what the database answers to the call
-- with that number, if it fails; a call that fails changes nothing.
use dalikamata.Prelude.{
  ℕ, suc, String, not, Option, none, some, List, [], ◌∷◌, ◌++◌, ◌==◌, if◌then◌else◌, filter, Result,
  ok, err, ◌>>=◌,
}
use dalikamata.Prelude.Dict.{contains}
use dalikamata.Platform.{Platform}
use dalikamata.Model.{
  Repo, Commit, PullRequest, Workflow, WorkflowRun, WorkflowTask, Team, Component, RepoOnboarding,
}
use dalikamata.Sqlite.Tables.{
  upsert, insert_or_ignore, CommitRow, PullRequestRow, WorkflowRow, ComponentRow, WorkflowRunRow,
  WorkflowTaskRow, Database, same_repo, same_commit, same_pull_request, same_workflow, same_run,
  same_task, same_team, same_component, Texts,
}

module _ ⦃go : Platform⦄ {Cell E : Type 0} (texts : Texts Cell E) (failure : ℕ → Option E) where
  -- A statement outside a transaction.
  abbrev pub exec_context :
      (Database Cell → Database Cell) → Option E → Database Cell → Database Cell × Option E
  exec_context statement (some e) db = (db, some e)
  exec_context statement none db = (statement db, none)

  unfoldable pub sql_add_repo : Repo → Database Cell → Database Cell × Option E
  sql_add_repo repo =
      exec_context (λ db. record db { repos = upsert same_repo repo db.repos }) (failure 0)

  abbrev pub commit_row : Commit → CommitRow Cell
  commit_row c = record {
    sha = c.sha;
    repo_id = c.repo_id;
    author = c.author;
    timestamp = texts.format_time c.timestamp;
  }

  unfoldable pub sql_add_commit : Commit → Database Cell → Database Cell × Option E
  sql_add_commit c =
      exec_context (λ db. record db { commits = upsert same_commit (commit_row c) db.commits })
        (failure 0)

  abbrev pub pull_request_row : PullRequest → PullRequestRow Cell
  pull_request_row pr = record {
    id = pr.id;
    repo_id = pr.repo_id;
    name = pr.name;
    title = pr.title;
    description = pr.description;
    state = pr.state;
    author = pr.author;
    created_at = texts.format_time pr.created_at;
    updated_at = texts.format_time pr.updated_at;
  }

  unfoldable pub sql_add_pull_request : PullRequest → Database Cell → Database Cell × Option E
  sql_add_pull_request pr =
      exec_context
        (λ db. record db {
          pull_requests = upsert same_pull_request (pull_request_row pr) db.pull_requests;
        })
        (failure 0)

  -- A list of repo IDs that cannot be encoded ends the call before the statement.
  abbrev with_ids :
      (Cell → Database Cell → Database Cell × Option E)
      → Result E Cell
      → Database Cell
      → Database Cell × Option E
  with_ids next (err e) db = (db, some e)
  with_ids next (ok repo_ids) db = next repo_ids db

  abbrev pub workflow_row : Workflow → Cell → WorkflowRow Cell
  workflow_row w repo_ids = record { id = w.id; name = w.name; repo_ids = repo_ids }

  unfoldable pub sql_add_workflow : Workflow → Database Cell → Database Cell × Option E
  sql_add_workflow w =
      with_ids
        (λ repo_ids.
          exec_context
            (λ db. record db {
              workflows = upsert same_workflow (workflow_row w repo_ids) db.workflows;
            })
            (failure 0))
        (texts.marshal_ids w.repo_ids)

  abbrev pub workflow_run_row : WorkflowRun → WorkflowRunRow Cell
  workflow_run_row run = record {
    id = run.id;
    workflow_id = run.workflow_id;
    number = run.number;
    status = run.status;
    branch = run.branch;
    commit_sha = run.commit_sha;
    started_at = texts.format_time run.started_at;
    duration = run.duration;
  }

  unfoldable pub sql_add_workflow_run : WorkflowRun → Database Cell → Database Cell × Option E
  sql_add_workflow_run run =
      exec_context
        (λ db. record db {
          workflow_runs = upsert same_run (workflow_run_row run) db.workflow_runs;
        })
        (failure 0)

  abbrev pub workflow_task_row : WorkflowTask → WorkflowTaskRow Cell
  workflow_task_row t = record {
    workflow_run_id = t.workflow_run_id;
    task_order = t.order;
    name = t.name;
    status = t.status;
    started_at = texts.format_time t.started_at;
    duration = t.duration;
  }

  unfoldable pub sql_add_workflow_task : WorkflowTask → Database Cell → Database Cell × Option E
  sql_add_workflow_task t =
      exec_context
        (λ db. record db {
          workflow_tasks = upsert same_task (workflow_task_row t) db.workflow_tasks;
        })
        (failure 0)

  unfoldable pub sql_add_team : Team → Database Cell → Database Cell × Option E
  sql_add_team team =
      exec_context (λ db. record db { teams = insert_or_ignore same_team team db.teams })
        (failure 0)

  abbrev pub component_row : Component → Cell → ComponentRow Cell
  component_row c repo_ids = record { name = c.name; team_name = c.team_name; repo_ids = repo_ids }

  unfoldable pub sql_add_component : Component → Database Cell → Database Cell × Option E
  sql_add_component c =
      with_ids
        (λ repo_ids.
          exec_context
            (λ db. record db {
              components = upsert same_component (component_row c repo_ids) db.components;
            })
            (failure 0))
        (texts.marshal_ids c.repo_ids)

  -- What rows.Scan and json.Unmarshal make of the components' rows.
  abbrev pub scan_components : List (ComponentRow Cell) → Result E (List Component)
  scan_components [] = ok []
  scan_components (row ∷ rows) =
      let rest = scan_components rows in
      do
        repo_ids ← texts.unmarshal_ids row.repo_ids
        components ← rest
        ok (record { name = row.name; team_name = row.team_name; repo_ids = repo_ids } ∷ components)

  -- A call inside the transaction.
  abbrev called : Option E → Result E (Unit {0})
  called none = ok tt
  called (some e) = err e

  -- UPDATE components SET repo_ids=? WHERE name=?
  abbrev pub set_ids : String → Cell → List (ComponentRow Cell) → List (ComponentRow Cell)
  set_ids name repo_ids [] = []
  set_ids name repo_ids (row ∷ rows) =
      (if row.name == name then record row { repo_ids = repo_ids } else row)
      ∷ set_ids name repo_ids rows

  abbrev pub without_id : String → List String → List String
  without_id repo_id = filter (λ id. not (id == repo_id))

  -- The loop that takes the repo out of every other component; k counts the calls.
  unfoldable pub strip_others :
      RepoOnboarding
      → ℕ
      → List Component
      → List (ComponentRow Cell)
      → Result E (ℕ × List (ComponentRow Cell))
  strip_others o k [] table = ok (k, table)
  strip_others o k (c ∷ components) table =
      if c.name == o.component
      then strip_others o k components table
      else if not (contains c.repo_ids o.repo_id)
      then strip_others o k components table
      else (texts.marshal_ids (without_id o.repo_id c.repo_ids) >>= λ repo_ids.
          called (failure k) >>= λ _.
          strip_others o (suc k) components (set_ids c.name repo_ids table))

  -- The repo IDs of the first component with that name.
  abbrev pub ids_named : String → List Component → List String
  ids_named name [] = []
  ids_named name (c ∷ components) = if c.name == name then c.repo_ids else ids_named name components

  abbrev pub with_repo : String → List String → List String
  with_repo repo_id ids = if contains ids repo_id then ids else ids ++ (repo_id ∷ [])

  -- The transaction up to its commit; whatever fails rolls it back.
  abbrev pub onboard_all : RepoOnboarding → Database Cell → Result E (Database Cell)
  onboard_all o db = do
    _ ← called (failure 0)
    _ ← called (failure 1)
    _ ← called (failure 2)
    components ← scan_components db.components
    stripped ← strip_others o 3 components db.components
    repo_ids ← texts.marshal_ids (with_repo o.repo_id (ids_named o.component components))
    _ ← called (failure stripped.0)
    _ ← called (failure (suc stripped.0))
    ok (record db {
      teams = insert_or_ignore same_team (record { name = o.team }) db.teams;
      components =
          upsert same_component
            (record { name = o.component; team_name = o.team; repo_ids = repo_ids }) stripped.1;
    })

  abbrev committed : Database Cell → Result E (Database Cell) → Database Cell × Option E
  committed db (err e) = (db, some e)
  committed db (ok after) = (after, none)

  unfoldable pub sql_add_repo_onboarding : RepoOnboarding → Database Cell → Database Cell × Option E
  sql_add_repo_onboarding o db = committed db (onboard_all o db)
