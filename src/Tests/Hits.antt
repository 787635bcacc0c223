-- ===== src/Tests/Hits.antt =====
-- A query over two workflows, and the enriched records of one.
use dalikamata.Prelude.{
  ℕ, zero, suc, ◌≡◌, refl, false, some, none, Option, List, [], ◌∷◌, take, map, String, ok, ◌>>=◌,
  sort_stable, insert_sorted,
}
use dalikamata.Prelude.Int.{pos}
use dalikamata.Prelude.Dict.{Dict, lookup}
use dalikamata.Model.{Workflow, WorkflowRun, WorkflowTask}
use dalikamata.Query.Value.{Any, sort_asc}
use dalikamata.Query.Builders.{string_value, term_filter}
use dalikamata.Query.Compare.{compare_field_value, cmp_ordered, compare_any}
use dalikamata.Query.Semantics.{denote}
use dalikamata.Query.Semantics.Typed.{well_typed}
use dalikamata.Query.Sort.{column, less, sort_by, paginate}
use dalikamata.Query.Aggregation.{Aggs}
use dalikamata.Query.FieldNames
use dalikamata.Repo.Owners.{OwnerLookup, new_owner_lookup}
use dalikamata.Repo.Projection.{project_workflow, project_workflow_task}
use dalikamata.Repo.Queries.{
  Context, Query, entity_workflow, select_items, query_entities, filter_project, enrich_task,
}
use dalikamata.Repo.Queries.Hits.{recording, query_entities-prefix, filter_project-select_items}
use dalikamata.Repo.Queries.Enriched.{enrich_task-columns}
use dalikamata.Tests.World.{numbers}

abbrev build : Workflow
build = record { id = "b"; name = "build"; repo_ids = "p/web" ∷ [] }

abbrev deploy : Workflow
deploy = record { id = "d"; name = "deploy"; repo_ids = "p/web" ∷ "p/api" ∷ [] }

abbrev test : Workflow
test = record { id = "t"; name = "test"; repo_ids = "p/api" ∷ [] }

abbrev stored : List Workflow
stored = deploy ∷ build ∷ test ∷ []

abbrev of_web : Query
of_web = record {
  entity = entity_workflow;
  filter = some (term_filter FieldNames.workflow_repo_ids (string_value "p/web"));
  sort = record { field = FieldNames.workflow_name; order = sort_asc } ∷ [];
  from = pos 0;
  size = pos 5;
  aggs_only = false;
  aggs = Aggs.nil;
}

abbrev live : Context String
live n = none

abbrev accepts : Workflow → Option String
accepts w = none

abbrev ended_later : Context String
ended_later zero = none
ended_later (suc n) = some "deadline exceeded"

query_entities-prefix_example :
    (n : ℕ) × ((query_entities ended_later stored of_web project_workflow (recording accepts) []).0
      ≡ take n (build ∷ deploy ∷ []))
unfolding project_workflow lookup well_typed denote term_filter compare_field_value cmp_ordered
    compare_any less sort_by paginate sort_stable insert_sorted
query_entities-prefix_example =
    query_entities-prefix ended_later stored of_web project_workflow accepts (build ∷ deploy ∷ [])
      (refl, (refl, (refl, tt))) refl

filter_project-select_items_example :
    filter_project live of_web.filter project_workflow 0 stored ≡ (
      select_items live of_web.filter project_workflow 0 stored >>= λ kept.
      ok (map project_workflow kept))
filter_project-select_items_example =
    filter_project-select_items live of_web.filter project_workflow 0 stored

abbrev run_7 : WorkflowRun
run_7 = record {
  id = "r7";
  workflow_id = "b";
  number = pos 7;
  status = "SUCCESS";
  branch = "main";
  commit_sha = "c0ffee";
  started_at = 100;
  duration = 40;
  workflow_name = "";
  component_names = [];
  team_names = [];
}

abbrev stage : WorkflowTask
stage = record {
  workflow_run_id = "r7";
  order = pos 0;
  name = "compile";
  status = "SUCCESS";
  started_at = 100;
  duration = 30;
  workflow_id = "";
  workflow_name = "";
  component_names = [];
  team_names = [];
  branch = "";
}

abbrev runs : Dict WorkflowRun
runs = ("r7", run_7) ∷ []

abbrev lkp : OwnerLookup
lkp =
    new_owner_lookup (("p/web", "shop") ∷ []) (("shop", "red") ∷ []) (("b", "p/web" ∷ []) ∷ [])
      (("b", "build") ∷ [])

enrich_task_example :
    (column FieldNames.task_workflow_id (project_workflow_task runs lkp stage)
      ≡ Any.string (enrich_task runs lkp stage).workflow_id)
    × (column FieldNames.task_branch (project_workflow_task runs lkp stage)
        ≡ Any.string (enrich_task runs lkp stage).branch)
    × (column FieldNames.task_workflow_name (project_workflow_task runs lkp stage)
        ≡ Any.string (enrich_task runs lkp stage).workflow_name)
    × (column FieldNames.task_component_name (project_workflow_task runs lkp stage)
        ≡ Any.strings (enrich_task runs lkp stage).component_names)
    × (column FieldNames.task_team_name (project_workflow_task runs lkp stage)
        ≡ Any.strings (enrich_task runs lkp stage).team_names)
enrich_task_example = enrich_task-columns runs lkp stage refl refl
