-- ===== src/Repo/Queries/Enriched.antt =====
-- internal/domain/repo/memory.go and projection.go: what a task is emitted with, and its field map.
use dalikamata.Prelude.{◌≡◌, refl, Option-cases, inl, inr}
use dalikamata.Prelude.Dict.{Dict, lookup}
use dalikamata.Platform.{Platform}
use dalikamata.Model.{WorkflowRun, WorkflowTask}
use dalikamata.Query.Value.{Any}
use dalikamata.Query.Sort.{column}
use dalikamata.Query.FieldNames
use dalikamata.Repo.Owners.{OwnerLookup}
use dalikamata.Repo.Projection.{project_workflow_task}
use dalikamata.Repo.Queries.{enrich_task}

module _ ⦃go : Platform⦄ where
  -- A task that the memory repository stores without a workflow and a branch is emitted with the workflow, the branch,
  -- the workflow's name, the components and the teams that its field map has, whether its run is
  -- known or not.
  pub enrich_task-columns :
      (runs : Dict WorkflowRun) (lkp : OwnerLookup) (t : WorkflowTask)
      → t.workflow_id ≡ ""
      → t.branch ≡ ""
      → (column FieldNames.task_workflow_id (project_workflow_task runs lkp t)
          ≡ Any.string (enrich_task runs lkp t).workflow_id)
        × (column FieldNames.task_branch (project_workflow_task runs lkp t)
            ≡ Any.string (enrich_task runs lkp t).branch)
        × (column FieldNames.task_workflow_name (project_workflow_task runs lkp t)
            ≡ Any.string (enrich_task runs lkp t).workflow_name)
        × (column FieldNames.task_component_name (project_workflow_task runs lkp t)
            ≡ Any.strings (enrich_task runs lkp t).component_names)
        × (column FieldNames.task_team_name (project_workflow_task runs lkp t)
            ≡ Any.strings (enrich_task runs lkp t).team_names)
  unfolding project_workflow_task enrich_task lookup
  enrich_task-columns runs lkp t no_workflow no_branch =
      elim (Option-cases (lookup t.workflow_run_id runs)) [
        | inl missing ↦ rw (missing, no_workflow, no_branch) (refl, refl, refl, refl, refl)
        | inr (run, found) ↦ rw found (refl, refl, refl, refl, refl)
      ]
