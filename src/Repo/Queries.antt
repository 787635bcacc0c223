-- ===== src/Repo/Queries.antt =====
-- internal/domain/repo/memory.go: the queries of MemoryRepository. A context is the list of
-- answers to the polls of `ctx.Err()`, and `emit` is the caller's step on a state of its own.
pub mod Hits
pub mod Enriched
pub mod Aggregated
use dalikamata.Prelude.{
  ℕ, suc, ◌+◌, String, Bool, true, false, Option, none, some, List, [], ◌∷◌, map, length,
  if◌then◌else◌, Result, ok, err, ◌>>=◌,
}
use dalikamata.Prelude.Int.{ℤ}
use dalikamata.Prelude.Dict.{Dict, lookup, keys, values}
use dalikamata.Platform.{Platform}
use dalikamata.Model.{
  Repo, Commit, PullRequest, Workflow, WorkflowRun, WorkflowTask, Team, Component,
  OwnershipDiagnostics,
}
use dalikamata.Query.Value.{Error, SortField, Fields, Filter}
use dalikamata.Query.Match.{match}
use dalikamata.Query.Sort.{sort_by, paginate}
use dalikamata.Query.Aggregation.{Aggs, has_aggs, Results}
use dalikamata.Query.Aggregator.{evaluate_aggs}
use dalikamata.Repo.Memory.{MemoryRepository}
use dalikamata.Repo.Owners.{OwnerLookup, snapshot_owner_lookup, owner_components, owner_teams}
use dalikamata.Repo.Projection.{
  project_repo, project_commit, project_pull_request, project_workflow, project_workflow_run,
  project_workflow_task, project_team, project_component, ensure_unknown_team,
}

-- An entity is a text in Go; `unknown` stands for every other text.
pub data Entity : Type 0 where
  entity_repo entity_commit entity_pull_request entity_workflow entity_workflow_run
        entity_workflow_task entity_team entity_component :
      Entity
  unknown : String → Entity

-- How a query fails: by the evaluator, by an unknown entity, or by an error of the caller (of the
-- context or of `emit`).
pub data Failure (E : Type 0) : Type 0 where
  by_query : Error → Failure E
  unknown_entity : String → Failure E
  by_caller : E → Failure E

-- How a query ends; the slice expression of Paginate may panic.
pub data Outcome (E : Type 0) : Type 0 where
  done : Outcome E
  failed : Failure E → Outcome E
  panicked : Outcome E

abbrev pub Context : Type 0 → Type 0
Context E = ℕ → Option E

abbrev pub in_query {ℓ} : {E : Type 0} {A : Type ℓ} → Result Error A → Result (Failure E) A
in_query (ok a) = ok a
in_query (err e) = err (by_query e)

-- `if err := ctx.Err(); err != nil { return err }`
abbrev pub poll : {E : Type 0} → Option E → Result (Failure E) (Unit {0})
poll none = ok tt
poll (some e) = err (by_caller e)

module _ ⦃go : Platform⦄ where
  open go use {Time, range_order}

  pub record Query : Type 0 where
    pub entity : Entity
    pub filter : Option Filter
    pub sort : List SortField
    pub from : ℤ
    pub size : ℤ
    pub aggs_only : Bool
    pub aggs : Aggs

  module _ {E : Type 0} {T : Type 0} where
    -- The first loop of queryEntities; the number is the polls so far.
    unfoldable pub select_items :
        Context E → Option Filter → (T → Fields) → ℕ → List T → Result (Failure E) (List T)
    select_items ctx filter project k [] = ok []
    select_items ctx filter project k (item ∷ items) =
        let rest = select_items ctx filter project (suc k) items in
        do
          _ ← poll (ctx k)
          found ← in_query (match filter (project item))
          kept ← rest
          ok (if found then item ∷ kept else kept)

    -- The second loop of queryEntities.
    unfoldable pub emit_all :
        {S : Type 0} → Context E → (T → S → S × Option E) → ℕ → List T → S → S × Outcome E
    emit_all ctx emit k [] s = (s, done)
    emit_all ctx emit k (item ∷ items) s = elim (ctx k) [
      | some e ↦ (s, failed (by_caller e))
      | none ↦ elim ((emit item s).1) [
        | some e ↦ ((emit item s).0, failed (by_caller e))
        | none ↦ emit_all ctx emit (suc k) items (emit item s).0
      ]
    ]

    abbrev pub emit_page :
        {S : Type 0} → Context E → (T → S → S × Option E) → ℕ → Option (List T) → S → S × Outcome E
    emit_page ctx emit k none s = (s, panicked)
    emit_page ctx emit k (some page) s = emit_all ctx emit k page s

    abbrev pub emit_selected :
        {S : Type 0}
        → Context E
        → Query
        → (T → Fields)
        → (T → S → S × Option E)
        → ℕ
        → Result (Failure E) (List T)
        → S
        → S × Outcome E
    emit_selected ctx q project emit k (err e) s = (s, failed e)
    emit_selected ctx q project emit k (ok filtered) s =
        emit_page ctx emit k (paginate (sort_by filtered q.sort project) q.from q.size) s

    unfoldable pub query_entities :
        {S : Type 0}
        → Context E
        → List T
        → Query
        → (T → Fields)
        → (T → S → S × Option E)
        → S
        → S × Outcome E
    query_entities ctx snapshot q project emit s =
        emit_selected ctx q project emit (length snapshot)
          (select_items ctx q.filter project 0 snapshot) s

    unfoldable pub filter_project :
        Context E → Option Filter → (T → Fields) → ℕ → List T → Result (Failure E) (List Fields)
    filter_project ctx filter project k [] = ok []
    filter_project ctx filter project k (item ∷ items) =
        let rest = filter_project ctx filter project (suc k) items in
        let fields = project item in
        do
          _ ← poll (ctx k)
          found ← in_query (match filter fields)
          kept ← rest
          ok (if found then fields ∷ kept else kept)

  -- The snapshot of a map's values.
  abbrev pub snapshot_of : {A : Type 0} → Dict A → List A
  snapshot_of m = range_order (values m)

  module _ {E S : Type 0} (ctx : Context E) (r : MemoryRepository) (q : Query) where
    unfoldable pub query_repos : (Repo → S → S × Option E) → S → S × Outcome E
    query_repos emit s = query_entities ctx (snapshot_of r.repos) q project_repo emit s

    unfoldable pub query_commits : (Commit → S → S × Option E) → S → S × Outcome E
    query_commits emit s = query_entities ctx (snapshot_of r.commits) q project_commit emit s

    unfoldable pub query_pull_requests : Time → (PullRequest → S → S × Option E) → S → S × Outcome E
    query_pull_requests now emit s =
        query_entities ctx (snapshot_of r.pull_requests) q (project_pull_request now) emit s

    unfoldable pub query_workflows : (Workflow → S → S × Option E) → S → S × Outcome E
    query_workflows emit s = query_entities ctx (snapshot_of r.workflows) q project_workflow emit s

    unfoldable pub query_teams : (Team → S → S × Option E) → S → S × Outcome E
    query_teams emit s =
        query_entities ctx (ensure_unknown_team (snapshot_of r.teams)) q project_team emit s

    unfoldable pub query_components : (Component → S → S × Option E) → S → S × Outcome E
    query_components emit s =
        query_entities ctx (snapshot_of r.components) q project_component emit s

  -- What QueryWorkflowRuns and QueryWorkflowTasks fill in before they emit.
  unfoldable pub enrich_run : OwnerLookup → WorkflowRun → WorkflowRun
  enrich_run lkp run = record run {
    workflow_name = lkp.workflow_name run.workflow_id;
    component_names = owner_components (lkp.owners run.workflow_id);
    team_names = owner_teams (lkp.owners run.workflow_id);
  }

  abbrev with_run : Option WorkflowRun → WorkflowTask → WorkflowTask
  with_run none t = t
  with_run (some run) t = record t { workflow_id = run.workflow_id; branch = run.branch }

  abbrev named_task : OwnerLookup → WorkflowTask → WorkflowTask
  named_task lkp t = record t {
    workflow_name = lkp.workflow_name t.workflow_id;
    component_names = owner_components (lkp.owners t.workflow_id);
    team_names = owner_teams (lkp.owners t.workflow_id);
  }

  unfoldable pub enrich_task : Dict WorkflowRun → OwnerLookup → WorkflowTask → WorkflowTask
  enrich_task runs lkp t = named_task lkp (with_run (lookup t.workflow_run_id runs) t)

  module _ {E S : Type 0} (ctx : Context E) (r : MemoryRepository) (q : Query) where
    unfoldable pub query_workflow_runs : (WorkflowRun → S → S × Option E) → S → S × Outcome E
    query_workflow_runs emit s =
        let lkp = snapshot_owner_lookup r in
        query_entities ctx (snapshot_of r.workflow_runs) q (project_workflow_run lkp)
          (λ run. emit (enrich_run lkp run)) s

    unfoldable pub query_workflow_tasks : (WorkflowTask → S → S × Option E) → S → S × Outcome E
    query_workflow_tasks emit s =
        let lkp = snapshot_owner_lookup r in
        query_entities ctx (snapshot_of r.workflow_tasks) q
          (project_workflow_task r.workflow_runs lkp)
          (λ t. emit (enrich_task r.workflow_runs lkp t)) s

  unfoldable pub ownership_diagnostics : MemoryRepository → List OwnershipDiagnostics
  ownership_diagnostics r =
      map (λ id. (snapshot_owner_lookup r).diagnose id) (range_order (keys r.workflows))

  module _ {E : Type 0} (ctx : Context E) (r : MemoryRepository) where
    unfoldable pub snapshot_project :
        Entity → Option Filter → Time → Result (Failure E) (List Fields)
    snapshot_project entity_repo filter now =
        filter_project ctx filter project_repo 0 (snapshot_of r.repos)
    snapshot_project entity_commit filter now =
        filter_project ctx filter project_commit 0 (snapshot_of r.commits)
    snapshot_project entity_pull_request filter now =
        filter_project ctx filter (project_pull_request now) 0 (snapshot_of r.pull_requests)
    snapshot_project entity_workflow filter now =
        filter_project ctx filter project_workflow 0 (snapshot_of r.workflows)
    snapshot_project entity_workflow_run filter now =
        filter_project ctx filter (project_workflow_run (snapshot_owner_lookup r)) 0
          (snapshot_of r.workflow_runs)
    snapshot_project entity_workflow_task filter now =
        filter_project ctx filter (project_workflow_task r.workflow_runs (snapshot_owner_lookup r))
          0 (snapshot_of r.workflow_tasks)
    snapshot_project entity_team filter now =
        filter_project ctx filter project_team 0 (ensure_unknown_team (snapshot_of r.teams))
    snapshot_project entity_component filter now =
        filter_project ctx filter project_component 0 (snapshot_of r.components)
    snapshot_project (Entity.unknown name) filter now = err (unknown_entity name)

    -- No aggregations give nil, whatever the entity.
    unfoldable pub aggregate : Query → Time → Result (Failure E) Results
    aggregate q now =
        if has_aggs q.aggs
        then (do
          projected ← snapshot_project q.entity q.filter now
          in_query (evaluate_aggs q.aggs projected))
        else ok Results.no_results
