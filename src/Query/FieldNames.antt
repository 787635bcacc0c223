-- ===== src/Query/FieldNames.antt =====
-- internal/domain/query/fields.go: the field names of each entity.
use dalikamata.Prelude.{String}

abbrev pub repo_id : String
repo_id = "repo_id"

abbrev pub repo_name : String
repo_name = "name"

abbrev pub commit_sha : String
commit_sha = "sha"

abbrev pub commit_repo_id : String
commit_repo_id = "repo_id"

abbrev pub commit_author : String
commit_author = "author"

abbrev pub commit_timestamp : String
commit_timestamp = "timestamp"

abbrev pub pr_repo_id : String
pr_repo_id = "repo_id"

abbrev pub pr_author : String
pr_author = "author"

abbrev pub pr_state : String
pr_state = "state"

abbrev pub pr_created_at : String
pr_created_at = "created_at"

abbrev pub pr_updated_at : String
pr_updated_at = "updated_at"

abbrev pub pr_name : String
pr_name = "name"

abbrev pub pr_title : String
pr_title = "title"

abbrev pub pr_description : String
pr_description = "description"

abbrev pub pr_id : String
pr_id = "id"

abbrev pub pr_cycle_time_seconds : String
pr_cycle_time_seconds = "cycle_time_seconds"

abbrev pub workflow_id : String
workflow_id = "id"

abbrev pub workflow_name : String
workflow_name = "name"

abbrev pub workflow_repo_ids : String
workflow_repo_ids = "repo_ids"

abbrev pub run_id : String
run_id = "id"

abbrev pub run_workflow_id : String
run_workflow_id = "workflow_id"

abbrev pub run_number : String
run_number = "number"

abbrev pub run_status : String
run_status = "status"

abbrev pub run_branch : String
run_branch = "branch"

abbrev pub run_commit_sha : String
run_commit_sha = "commit_sha"

abbrev pub run_started_at : String
run_started_at = "started_at"

abbrev pub run_duration : String
run_duration = "duration"

abbrev pub run_workflow_name : String
run_workflow_name = "workflow_name"

abbrev pub run_component_name : String
run_component_name = "component_name"

abbrev pub run_team_name : String
run_team_name = "team_name"

abbrev pub run_owner : String
run_owner = "owner"

abbrev pub task_workflow_run_id : String
task_workflow_run_id = "workflow_run_id"

abbrev pub task_order : String
task_order = "order"

abbrev pub task_name : String
task_name = "name"

abbrev pub task_status : String
task_status = "status"

abbrev pub task_started_at : String
task_started_at = "started_at"

abbrev pub task_duration : String
task_duration = "duration"

abbrev pub task_workflow_id : String
task_workflow_id = "workflow_id"

abbrev pub task_workflow_name : String
task_workflow_name = "workflow_name"

abbrev pub task_component_name : String
task_component_name = "component_name"

abbrev pub task_team_name : String
task_team_name = "team_name"

abbrev pub task_branch : String
task_branch = "branch"

abbrev pub task_owner : String
task_owner = "owner"

abbrev pub team_name : String
team_name = "name"

abbrev pub component_name : String
component_name = "name"

abbrev pub component_team_name : String
component_team_name = "team_name"
