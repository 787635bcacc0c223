-- ===== src/Sqlite/Queries.antt =====
-- internal/domain/repo/sqlite.go: the queries, which load rows and run the memory repository's engine.
use dalikamata.Prelude.{ℕ, Option, none, some, List, [], map, Result, ok, err, ◌>>=◌, if◌then◌else◌}
use dalikamata.Prelude.Dict.{Dict, lookup}
use dalikamata.Platform.{Platform}
use dalikamata.Model.{
  Repo, Commit, PullRequest, Workflow, WorkflowRun, WorkflowTask, Team, Component,
  OwnershipDiagnostics,
}
use dalikamata.Query.Value.{Fields, Filter}
use dalikamata.Query.Aggregation.{has_aggs, Results}
use dalikamata.Query.Aggregator.{evaluate_aggs}
use dalikamata.Repo.Owners.{OwnerLookup, owner_components, owner_teams}
use dalikamata.Repo.Projection.{
  project_repo, project_commit, project_pull_request, project_workflow, project_workflow_run,
  project_workflow_task, project_team, project_component, ensure_unknown_team,
}
use dalikamata.Repo.Queries.{
  Entity, entity_repo, entity_commit, entity_pull_request, entity_workflow, entity_workflow_run,
  entity_workflow_task, entity_team, entity_component, Query, Context, Failure, by_caller,
  unknown_entity, Outcome, failed, in_query, query_entities, filter_project, enrich_run,
}
use dalikamata.Sqlite.Tables.{Database, Texts}
use dalikamata.Sqlite.Loads.{
  runs_by_id, load_repos, load_commits, load_pull_requests, load_workflows, load_workflow_runs,
  load_workflow_tasks, load_teams, load_components, owner_lookup_from_db,
}

module _ ⦃go : Platform⦄ where
  -- What the callback of QueryWorkflowTasks fills in; the branch stays as it was loaded.
  abbrev with_workflow : Option WorkflowRun → WorkflowTask → WorkflowTask
  with_workflow none t = t
  with_workflow (some run) t = record t { workflow_id = run.workflow_id }

  abbrev named_task : OwnerLookup → WorkflowTask → WorkflowTask
  named_task lkp t = record t {
    workflow_name = lkp.workflow_name t.workflow_id;
    component_names = owner_components (lkp.owners t.workflow_id);
    team_names = owner_teams (lkp.owners t.workflow_id);
  }

  unfoldable pub sql_enrich_task : Dict WorkflowRun → OwnerLookup → WorkflowTask → WorkflowTask
  sql_enrich_task runs lkp t = named_task lkp (with_workflow (lookup t.workflow_run_id runs) t)

-- `if err != nil { return err }` after a load.
abbrev by_load {ℓ} : {E : Type 0} {A : Type ℓ} → Result E A → Result (Failure E) A
by_load (ok a) = ok a
by_load (err e) = err (by_caller e)

module _ ⦃go : Platform⦄ {Cell E : Type 0} (texts : Texts Cell E) (failure : ℕ → Option E)
    (ctx : Context E) (db : Database Cell) where
  open go use {Time}

  module _ {S : Type 0} where
    abbrev pub loaded {ℓ} : {A : Type ℓ} → Result E A → (A → S → S × Outcome E) → S → S × Outcome E
    loaded (err e) run s = (s, failed (by_caller e))
    loaded (ok a) run s = run a s

    unfoldable pub sql_query_repos : Query → (Repo → S → S × Option E) → S → S × Outcome E
    sql_query_repos q emit =
        loaded (load_repos texts failure db 0)
          (λ snapshot. query_entities ctx snapshot q project_repo emit)

    unfoldable pub sql_query_commits : Query → (Commit → S → S × Option E) → S → S × Outcome E
    sql_query_commits q emit =
        loaded (load_commits texts failure db 0)
          (λ snapshot. query_entities ctx snapshot q project_commit emit)

    unfoldable pub sql_query_pull_requests :
        Query → Time → (PullRequest → S → S × Option E) → S → S × Outcome E
    sql_query_pull_requests q now emit =
        loaded (load_pull_requests texts failure db 0)
          (λ snapshot. query_entities ctx snapshot q (project_pull_request now) emit)

    unfoldable pub sql_query_workflows : Query → (Workflow → S → S × Option E) → S → S × Outcome E
    sql_query_workflows q emit =
        loaded (load_workflows texts failure db 0)
          (λ snapshot. query_entities ctx snapshot q project_workflow emit)

    unfoldable pub sql_query_workflow_runs :
        Query → (WorkflowRun → S → S × Option E) → S → S × Outcome E
    sql_query_workflow_runs q emit = loaded (load_workflow_runs texts failure db 0) (λ snapshot.
        loaded (owner_lookup_from_db texts failure db 1) (λ lkp.
          query_entities ctx snapshot q (project_workflow_run lkp)
            (λ run. emit (enrich_run lkp run))))

    unfoldable pub sql_query_workflow_tasks :
        Query → (WorkflowTask → S → S × Option E) → S → S × Outcome E
    sql_query_workflow_tasks q emit = loaded (load_workflow_tasks texts failure db 0) (λ snapshot.
        loaded (load_workflow_runs texts failure db 1) (λ runs.
          loaded (owner_lookup_from_db texts failure db 2) (λ lkp.
            query_entities ctx snapshot q (project_workflow_task (runs_by_id runs []) lkp)
              (λ t. emit (sql_enrich_task (runs_by_id runs []) lkp t)))))

    unfoldable pub sql_query_teams : Query → (Team → S → S × Option E) → S → S × Outcome E
    sql_query_teams q emit =
        loaded (load_teams texts failure db 0)
          (λ snapshot. query_entities ctx (ensure_unknown_team snapshot) q project_team emit)

    unfoldable pub sql_query_components : Query → (Component → S → S × Option E) → S → S × Outcome E
    sql_query_components q emit =
        loaded (load_components texts failure db 0)
          (λ snapshot. query_entities ctx snapshot q project_component emit)

  unfoldable pub sql_ownership_diagnostics : Result E (List OwnershipDiagnostics)
  sql_ownership_diagnostics = do
    workflows ← load_workflows texts failure db 0
    lkp ← owner_lookup_from_db texts failure db 1
    ok (map (λ (w : Workflow). lkp.diagnose w.id) workflows)

  unfoldable pub sql_snapshot_project :
      Entity → Option Filter → Time → Result (Failure E) (List Fields)
  sql_snapshot_project entity_repo filter now = do
    snap ← by_load (load_repos texts failure db 0)
    filter_project ctx filter project_repo 0 snap
  sql_snapshot_project entity_commit filter now = do
    snap ← by_load (load_commits texts failure db 0)
    filter_project ctx filter project_commit 0 snap
  sql_snapshot_project entity_pull_request filter now = do
    snap ← by_load (load_pull_requests texts failure db 0)
    filter_project ctx filter (project_pull_request now) 0 snap
  sql_snapshot_project entity_workflow filter now = do
    snap ← by_load (load_workflows texts failure db 0)
    filter_project ctx filter project_workflow 0 snap
  sql_snapshot_project entity_workflow_run filter now = do
    snap ← by_load (load_workflow_runs texts failure db 0)
    lkp ← by_load (owner_lookup_from_db texts failure db 1)
    filter_project ctx filter (project_workflow_run lkp) 0 snap
  sql_snapshot_project entity_workflow_task filter now = do
    snap ← by_load (load_workflow_tasks texts failure db 0)
    runs ← by_load (load_workflow_runs texts failure db 1)
    lkp ← by_load (owner_lookup_from_db texts failure db 2)
    filter_project ctx filter (project_workflow_task (runs_by_id runs []) lkp) 0 snap
  sql_snapshot_project entity_team filter now = do
    snap ← by_load (load_teams texts failure db 0)
    filter_project ctx filter project_team 0 (ensure_unknown_team snap)
  sql_snapshot_project entity_component filter now = do
    snap ← by_load (load_components texts failure db 0)
    filter_project ctx filter project_component 0 snap
  sql_snapshot_project (Entity.unknown name) filter now = err (unknown_entity name)

  unfoldable pub sql_aggregate : Query → Time → Result (Failure E) Results
  sql_aggregate q now =
      if has_aggs q.aggs
      then (do
        projected ← sql_snapshot_project q.entity q.filter now
        in_query (evaluate_aggs q.aggs projected))
      else ok Results.no_results
