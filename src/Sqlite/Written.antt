-- ===== src/Sqlite/Written.antt =====
-- internal/domain/repo/sqlite.go beside memory.go: the same writes to both, but for tasks.
pub mod Rows
pub mod Stripped
pub mod Released
pub mod Onboarded
pub mod Kept
pub mod Stored
use dalikamata.Prelude.{
  ℕ, String, ◌≡◌, refl, ◌∙◌, sym, subst, Bool, true, false, ◌==◌, eq_iff, arith, Option, none, some,
  List, [], ◌∷◌, map, All, Result, ok, ◌>>=◌, err, Bool-cases, inl, inr, if◌then◌else◌,
}
use dalikamata.Prelude.Dict.{Dict, contains, lookup, values, insert, All-insert}
use dalikamata.Platform.{Platform}
use dalikamata.Model.{
  Repo, Commit, PullRequest, Workflow, WorkflowRun, Team, Component, RepoOnboarding,
}
use dalikamata.Repo.Memory.{
  MemoryRepository, new_memory, add_repo, add_commit, add_pull_request, add_workflow,
  add_workflow_run, add_team, add_component, add_repo_onboarding,
}
use dalikamata.Sqlite.Tables.{
  upsert, insert_or_ignore, WorkflowRow, ComponentRow, Database, same_repo, same_commit,
  same_pull_request, same_workflow, same_run, same_team, same_component, Texts,
}
use dalikamata.Sqlite.Writes.{
  sql_add_repo, sql_add_commit, sql_add_pull_request, sql_add_workflow, sql_add_workflow_run,
  sql_add_team, sql_add_component, commit_row, pull_request_row, workflow_row, workflow_run_row,
  component_row, scan_components, sql_add_repo_onboarding,
}
use dalikamata.Sqlite.Loads.{
  scan_all, scan_commit, scan_pull_request, scan_workflow, scan_workflow_run,
}

-- A run as the table keeps it: without what a query fills in.
module _ ⦃go : Platform⦄ where
  open go use {Time}

  abbrev pub as_ingested : WorkflowRun → WorkflowRun
  as_ingested run = record run { workflow_name = ""; component_names = []; team_names = [] }

  -- A write of both repositories, other than a task.
  pub data Write : Type 0 where
    repo : Repo → Write
    commit : Commit → Write
    pull_request : PullRequest → Write
    workflow : Workflow → Write
    workflow_run : WorkflowRun → Write
    team : Team → Write
    component : Component → Write
    onboarding : RepoOnboarding → Write

  abbrev pub in_memory : List Write → MemoryRepository → MemoryRepository
  in_memory [] r = r
  in_memory (repo x ∷ ws) r = in_memory ws (add_repo x r)
  in_memory (commit x ∷ ws) r = in_memory ws (add_commit x r)
  in_memory (pull_request x ∷ ws) r = in_memory ws (add_pull_request x r)
  in_memory (workflow x ∷ ws) r = in_memory ws (add_workflow x r)
  in_memory (workflow_run x ∷ ws) r = in_memory ws (add_workflow_run x r)
  in_memory (team x ∷ ws) r = in_memory ws (add_team x r)
  in_memory (component x ∷ ws) r = in_memory ws (add_component x r)
  in_memory (onboarding x ∷ ws) r = in_memory ws (add_repo_onboarding x r)

  -- A repository in which the index names the only component that lists the repo, if one does.
  abbrev pub HasOneOwner : RepoOnboarding → MemoryRepository → Type 0
  HasOneOwner o r =
      (c : String) (x : Component)
      → lookup c r.components ≡ some x
      → contains x.repo_ids o.repo_id ≡ true
      → lookup o.repo_id r.repo_to_component ≡ some c

  -- At each onboarding among the writes the repo has one owner at most.
  abbrev pub HaveOneOwner : List Write → MemoryRepository → Type 0
  HaveOneOwner [] r = Unit
  HaveOneOwner (repo x ∷ ws) r = HaveOneOwner ws (add_repo x r)
  HaveOneOwner (commit x ∷ ws) r = HaveOneOwner ws (add_commit x r)
  HaveOneOwner (pull_request x ∷ ws) r = HaveOneOwner ws (add_pull_request x r)
  HaveOneOwner (workflow x ∷ ws) r = HaveOneOwner ws (add_workflow x r)
  HaveOneOwner (workflow_run x ∷ ws) r = HaveOneOwner ws (add_workflow_run x r)
  HaveOneOwner (team x ∷ ws) r = HaveOneOwner ws (add_team x r)
  HaveOneOwner (component x ∷ ws) r = HaveOneOwner ws (add_component x r)
  HaveOneOwner (onboarding x ∷ ws) r = HasOneOwner x r × HaveOneOwner ws (add_repo_onboarding x r)

  abbrev pub new_database : {Cell : Type 0} → Database Cell
  new_database = record {
    repos = [];
    commits = [];
    pull_requests = [];
    workflows = [];
    workflow_runs = [];
    workflow_tasks = [];
    teams = [];
    components = [];
  }

  abbrev pub no_failure : {E : Type 0} → ℕ → Option E
  no_failure k = none

  module _ {Cell E : Type 0} (texts : Texts Cell E) where
    abbrev pub on_disk : List Write → Database Cell → Database Cell
    on_disk [] db = db
    on_disk (repo x ∷ ws) db = on_disk ws (sql_add_repo texts no_failure x db).0
    on_disk (commit x ∷ ws) db = on_disk ws (sql_add_commit texts no_failure x db).0
    on_disk (pull_request x ∷ ws) db = on_disk ws (sql_add_pull_request texts no_failure x db).0
    on_disk (workflow x ∷ ws) db = on_disk ws (sql_add_workflow texts no_failure x db).0
    on_disk (workflow_run x ∷ ws) db = on_disk ws (sql_add_workflow_run texts no_failure x db).0
    on_disk (team x ∷ ws) db = on_disk ws (sql_add_team texts no_failure x db).0
    on_disk (component x ∷ ws) db = on_disk ws (sql_add_component texts no_failure x db).0
    on_disk (onboarding x ∷ ws) db = on_disk ws (sql_add_repo_onboarding texts no_failure x db).0

    -- A time as it comes back from its text, if it does: without the reading of the monotonic clock,
    -- for one.
    abbrev pub time_read : Time → Result E Time
    time_read t = texts.parse_time (texts.format_time t)

    abbrev pub commit_read : Commit → Result E Commit
    commit_read c = do timestamp ← time_read c.timestamp; ok (record c { timestamp = timestamp })

    abbrev pub pull_request_read : PullRequest → Result E PullRequest
    pull_request_read pr = do
      created_at ← time_read pr.created_at
      updated_at ← time_read pr.updated_at
      ok (record pr { created_at = created_at; updated_at = updated_at })

    abbrev pub run_read : WorkflowRun → Result E WorkflowRun
    run_read run = do
      started_at ← time_read run.started_at
      ok (record (as_ingested run) { started_at = started_at })

    -- The tables hold what the memory repository holds, once their rows are read: every entity, with
    -- its times as they come back from their texts.
    pub record Holds (db : Database Cell) (r : MemoryRepository) : Type 0 where
      pub repos : db.repos ≡ values r.repos
      pub commits :
          scan_all (scan_commit texts no_failure) db.commits
          ≡ scan_all commit_read (values r.commits)
      pub pull_requests :
          scan_all (scan_pull_request texts no_failure) db.pull_requests
          ≡ scan_all pull_request_read (values r.pull_requests)
      pub workflows :
          scan_all (scan_workflow texts no_failure) db.workflows ≡ ok (values r.workflows)
      pub workflow_runs :
          scan_all (scan_workflow_run texts no_failure) db.workflow_runs
          ≡ scan_all run_read (values r.workflow_runs)
      pub teams : db.teams ≡ values r.teams
      pub components : scan_components texts no_failure db.components ≡ ok (values r.components)

    -- What encoding/json documents of lists of texts: what is written is read back.
    abbrev pub ReadsBackIds : Type 0
    ReadsBackIds =
        (xs : List String)
        → (text : Cell) × ((texts.marshal_ids xs ≡ ok text) × (texts.unmarshal_ids text ≡ ok xs))
