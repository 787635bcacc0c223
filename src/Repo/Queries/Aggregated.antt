-- ===== src/Repo/Queries/Aggregated.antt =====
-- internal/domain/repo/memory.go: Aggregate over the field maps of an entity.
use dalikamata.Prelude.{
  ℕ, ◌≡◌, refl, sym, ap, ◌∙◌, true, Option, none, some, List, map, filter, All, arith, ok, [], ◌∷◌,
  Bool-cases, inl, inr,
}
use dalikamata.Platform.{Platform}
use dalikamata.Query.Value.{Fields, Filter}
use dalikamata.Query.Aggregation.{has_aggs}
use dalikamata.Query.Aggregator.{evaluate_aggs}
use dalikamata.Query.Semantics.{meaning}
use dalikamata.Query.Semantics.Typed.{well_typed_opt}
use dalikamata.Repo.Memory.{MemoryRepository}
use dalikamata.Repo.Owners.{snapshot_owner_lookup}
use dalikamata.Repo.Projection.{
  project_repo, project_commit, project_pull_request, project_workflow, project_workflow_run,
  project_workflow_task, project_team, project_component, ensure_unknown_team,
}
use dalikamata.Repo.Queries.{
  Entity, entity_repo, entity_commit, entity_pull_request, entity_workflow, entity_workflow_run,
  entity_workflow_task, entity_team, entity_component, Context, in_query, Query, snapshot_of,
  filter_project, snapshot_project, aggregate,
}
use dalikamata.Repo.Queries.Hits.{select-filter, filter_project-select_items}

module _ ⦃go : Platform⦄ where
  -- The field maps of all items of an entity, if it is known.
  abbrev pub all_fields : MemoryRepository → go.Time → Entity → Option (List Fields)
  all_fields r now entity_repo = some (map project_repo (snapshot_of r.repos))
  all_fields r now entity_commit = some (map project_commit (snapshot_of r.commits))
  all_fields r now entity_pull_request =
      some (map (project_pull_request now) (snapshot_of r.pull_requests))
  all_fields r now entity_workflow = some (map project_workflow (snapshot_of r.workflows))
  all_fields r now entity_workflow_run =
      some (map (project_workflow_run (snapshot_owner_lookup r)) (snapshot_of r.workflow_runs))
  all_fields r now entity_workflow_task = some (
      map (project_workflow_task r.workflow_runs (snapshot_owner_lookup r))
        (snapshot_of r.workflow_tasks))
  all_fields r now entity_team = some (map project_team (ensure_unknown_team (snapshot_of r.teams)))
  all_fields r now entity_component = some (map project_component (snapshot_of r.components))
  all_fields r now (Entity.unknown name) = none

  module _ {E : Type 0} {T : Type 0} (ctx : Context E) (f : Option Filter)
      (project : T → Fields) where
    map-filter :
        (items : List T)
        → map project (filter (λ i. meaning f (project i)) items)
          ≡ filter (meaning f) (map project items)
    map-filter [] = refl
    map-filter (i ∷ items) = elim (Bool-cases (meaning f (project i))) [
      | inl kept ↦ rw (kept, map-filter items) refl
      | inr dropped ↦ rw (dropped, map-filter items) refl
    ]

    All-map :
        (items : List T)
        → All (λ row. well_typed_opt f row ≡ true) (map project items)
        → All (λ i. well_typed_opt f (project i) ≡ true) items
    All-map [] h = tt
    All-map (i ∷ items) h = (h.0, All-map items h.1)

    filter_project-filter :
        (items : List T) {rows : List Fields}
        → ((n : ℕ) → ctx n ≡ none)
        → some (map project items) ≡ some rows
        → All (λ row. well_typed_opt f row ≡ true) rows
        → filter_project ctx f project 0 items ≡ ok (filter (meaning f) rows)
    filter_project-filter items {rows} live same typed =
        let these : map project items ≡ rows = ground arith in
        rw (sym these) (
          filter_project-select_items ctx f project 0 items
          ∙ rw (select-filter ctx f project 0 items live (All-map items (rw these typed)))
              (ap ok (map-filter items)))

  module _ {E : Type 0} (ctx : Context E) (r : MemoryRepository) where
    snapshot_project-filter :
        (entity : Entity) (f : Option Filter) (now : go.Time) (rows : List Fields)
        → ((n : ℕ) → ctx n ≡ none)
        → all_fields r now entity ≡ some rows
        → All (λ row. well_typed_opt f row ≡ true) rows
        → snapshot_project ctx r entity f now ≡ ok (filter (meaning f) rows)
    unfolding snapshot_project
    snapshot_project-filter entity_repo f now rows live e typed =
        filter_project-filter ctx f project_repo (snapshot_of r.repos) live e typed
    snapshot_project-filter entity_commit f now rows live e typed =
        filter_project-filter ctx f project_commit (snapshot_of r.commits) live e typed
    snapshot_project-filter entity_pull_request f now rows live e typed =
        filter_project-filter ctx f (project_pull_request now) (snapshot_of r.pull_requests) live e
          typed
    snapshot_project-filter entity_workflow f now rows live e typed =
        filter_project-filter ctx f project_workflow (snapshot_of r.workflows) live e typed
    snapshot_project-filter entity_workflow_run f now rows live e typed =
        filter_project-filter ctx f (project_workflow_run (snapshot_owner_lookup r))
          (snapshot_of r.workflow_runs) live e typed
    snapshot_project-filter entity_workflow_task f now rows live e typed =
        filter_project-filter ctx f
          (project_workflow_task r.workflow_runs (snapshot_owner_lookup r))
          (snapshot_of r.workflow_tasks) live e typed
    snapshot_project-filter entity_team f now rows live e typed =
        filter_project-filter ctx f project_team (ensure_unknown_team (snapshot_of r.teams)) live e
          typed
    snapshot_project-filter entity_component f now rows live e typed =
        filter_project-filter ctx f project_component (snapshot_of r.components) live e typed
    snapshot_project-filter (Entity.unknown name) f now rows live e typed = absurd cc

    -- Aggregate of a query with aggregations, for a known entity: while the context lives and the
    -- filter fits the field maps of the entity, the aggregations are evaluated on just those field
    -- maps that satisfy the filter, and fail only as they do.
    pub aggregate_lem :
        (q : Query) (now : go.Time) (rows : List Fields)
        → ((n : ℕ) → ctx n ≡ none)
        → has_aggs q.aggs ≡ true
        → all_fields r now q.entity ≡ some rows
        → All (λ row. well_typed_opt q.filter row ≡ true) rows
        → aggregate ctx r q now ≡ in_query (evaluate_aggs q.aggs (filter (meaning q.filter) rows))
    unfolding aggregate
    aggregate_lem q now rows live some_aggs known typed =
        rw (some_aggs, snapshot_project-filter q.entity q.filter now rows live known typed) refl
