-- ===== src/Api/Fields.antt =====
-- internal/api/query_params.go: validFields, the field names that a request may filter by.
use dalikamata.Prelude.{String, List, [], ◌∷◌}
use dalikamata.Repo.Queries.{
  Entity, entity_repo, entity_commit, entity_pull_request, entity_workflow, entity_workflow_run,
  entity_workflow_task, entity_team, entity_component, unknown,
}
use dalikamata.Query.FieldNames

-- An entity without an entry has no fields.
abbrev pub valid_fields : Entity → List String
valid_fields entity_repo = FieldNames.repo_id ∷ FieldNames.repo_name ∷ []
valid_fields entity_commit =
    FieldNames.commit_sha ∷ FieldNames.commit_repo_id ∷ FieldNames.commit_author
    ∷ FieldNames.commit_timestamp ∷ []
valid_fields entity_pull_request =
    FieldNames.pr_repo_id ∷ FieldNames.pr_author ∷ FieldNames.pr_state ∷ FieldNames.pr_created_at
    ∷ FieldNames.pr_updated_at ∷ FieldNames.pr_name ∷ FieldNames.pr_title
    ∷ FieldNames.pr_description ∷ FieldNames.pr_id ∷ FieldNames.pr_cycle_time_seconds ∷ []
valid_fields entity_workflow =
    FieldNames.workflow_id ∷ FieldNames.workflow_name ∷ FieldNames.workflow_repo_ids ∷ []
valid_fields entity_workflow_run =
    FieldNames.run_id ∷ FieldNames.run_workflow_id ∷ FieldNames.run_number ∷ FieldNames.run_status
    ∷ FieldNames.run_branch ∷ FieldNames.run_commit_sha ∷ FieldNames.run_started_at
    ∷ FieldNames.run_duration ∷ FieldNames.run_workflow_name ∷ FieldNames.run_component_name
    ∷ FieldNames.run_team_name ∷ []
valid_fields entity_workflow_task =
    FieldNames.task_workflow_run_id ∷ FieldNames.task_order ∷ FieldNames.task_name
    ∷ FieldNames.task_status ∷ FieldNames.task_started_at ∷ FieldNames.task_duration
    ∷ FieldNames.task_workflow_id ∷ FieldNames.task_workflow_name ∷ FieldNames.task_component_name
    ∷ FieldNames.task_team_name ∷ FieldNames.task_branch ∷ []
valid_fields entity_team = FieldNames.team_name ∷ []
valid_fields entity_component = FieldNames.component_name ∷ FieldNames.component_team_name ∷ []
valid_fields (unknown name) = []
