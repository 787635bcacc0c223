-- ===== src/Sqlite/Written/Kept.antt =====
-- internal/domain/repo/sqlite.go beside memory.go: each write of both keeps the tables the rows of the
-- maps' entities.
use dalikamata.Prelude.{refl, sym, subst, List, [], ◌∷◌}
use dalikamata.Prelude.Dict.{Distinct, keys, insert-Distinct}
use dalikamata.Platform.{Platform}
use dalikamata.Model.{Repo, Commit, PullRequest, Workflow, WorkflowRun, Team, Component}
use dalikamata.Repo.Memory.{
  MemoryRepository, add_repo, add_commit, add_pull_request, add_workflow, add_workflow_run,
  add_team, add_component, add_repo_onboarding,
}
use dalikamata.Sqlite.Tables.{
  WorkflowRow, ComponentRow, Database, same_repo, same_commit, same_pull_request, same_workflow,
  same_run, same_team, same_component, Texts,
}
use dalikamata.Sqlite.Writes.{
  sql_add_repo, sql_add_commit, sql_add_pull_request, sql_add_workflow, sql_add_workflow_run,
  sql_add_team, sql_add_component, commit_row, pull_request_row, workflow_row, workflow_run_row,
  component_row,
}
use dalikamata.Sqlite.Written.Rows.{IsTable, upsert-IsTable, insert_or_ignore-IsTable}
use dalikamata.Sqlite.Written.Onboarded.{onboarding-ComponentTable}
use dalikamata.Sqlite.Written.{
  Write, repo, commit, pull_request, workflow, workflow_run, team, component, onboarding, in_memory,
  no_failure, HaveOneOwner, on_disk, ReadsBackIds,
}

module _ ⦃go : Platform⦄ {Cell E : Type 0} (texts : Texts Cell E) (reads : ReadsBackIds texts) where
  abbrev pub row_of_workflow : Workflow → WorkflowRow Cell
  row_of_workflow w = workflow_row texts no_failure w (reads w.repo_ids).0

  abbrev pub row_of_component : Component → ComponentRow Cell
  row_of_component c = component_row texts no_failure c (reads c.repo_ids).0

  -- The tables are the rows of the maps' entities.
  pub record Stores (db : Database Cell) (r : MemoryRepository) : Type 0 where
    pub repos : IsTable (λ (x : Repo). x.repo_id) (λ (x : Repo). x) db.repos r.repos
    pub commits : IsTable (λ (x : Commit). x.sha) (commit_row texts no_failure) db.commits r.commits
    pub pull_requests :
        IsTable
          (λ (x : PullRequest). x.id)
          (pull_request_row texts no_failure)
          db.pull_requests
          r.pull_requests
    pub workflows : IsTable (λ (x : Workflow). x.id) row_of_workflow db.workflows r.workflows
    pub workflow_runs :
        IsTable
          (λ (x : WorkflowRun). x.id)
          (workflow_run_row texts no_failure)
          db.workflow_runs
          r.workflow_runs
    pub teams : IsTable (λ (x : Team). x.name) (λ (x : Team). x) db.teams r.teams
    pub components : IsTable (λ (x : Component). x.name) row_of_component db.components r.components
    pub distinct : Distinct (keys r.components)

  stores :
      (w : Write) (db : Database Cell) (r : MemoryRepository)
      → HaveOneOwner (w ∷ []) r
      → Stores db r
      → Stores (on_disk texts (w ∷ []) db) (in_memory (w ∷ []) r)
  unfolding sql_add_repo sql_add_commit sql_add_pull_request sql_add_workflow sql_add_workflow_run
      sql_add_team sql_add_component add_repo add_commit add_pull_request add_workflow
      add_workflow_run add_team add_component add_repo_onboarding
  stores (repo x) db r one st = record {
    repos =
        upsert-IsTable (λ (x : Repo). x.repo_id) (λ (x : Repo). x) same_repo (λ a b. refl) x
          db.repos r.repos st.repos;
    commits = st.commits;
    pull_requests = st.pull_requests;
    workflows = st.workflows;
    workflow_runs = st.workflow_runs;
    teams = st.teams;
    components = st.components;
    distinct = st.distinct;
  }
  stores (commit x) db r one st = record {
    repos = st.repos;
    commits =
        upsert-IsTable (λ (x : Commit). x.sha) (commit_row texts no_failure) same_commit
          (λ a b. refl) x db.commits r.commits st.commits;
    pull_requests = st.pull_requests;
    workflows = st.workflows;
    workflow_runs = st.workflow_runs;
    teams = st.teams;
    components = st.components;
    distinct = st.distinct;
  }
  stores (pull_request x) db r one st = record {
    repos = st.repos;
    commits = st.commits;
    pull_requests =
        upsert-IsTable (λ (x : PullRequest). x.id) (pull_request_row texts no_failure)
          same_pull_request (λ a b. refl) x db.pull_requests r.pull_requests st.pull_requests;
    workflows = st.workflows;
    workflow_runs = st.workflow_runs;
    teams = st.teams;
    components = st.components;
    distinct = st.distinct;
  }
  stores (workflow x) db r one st =
      rw (on_disk, (reads x.repo_ids).1.0)
        (record {
          repos = st.repos;
          commits = st.commits;
          pull_requests = st.pull_requests;
          workflows =
              upsert-IsTable (λ (x : Workflow). x.id) row_of_workflow same_workflow (λ a b. refl) x
                db.workflows r.workflows st.workflows;
          workflow_runs = st.workflow_runs;
          teams = st.teams;
          components = st.components;
          distinct = st.distinct;
        })
  stores (workflow_run x) db r one st = record {
    repos = st.repos;
    commits = st.commits;
    pull_requests = st.pull_requests;
    workflows = st.workflows;
    workflow_runs =
        upsert-IsTable (λ (x : WorkflowRun). x.id) (workflow_run_row texts no_failure) same_run
          (λ a b. refl) x db.workflow_runs r.workflow_runs st.workflow_runs;
    teams = st.teams;
    components = st.components;
    distinct = st.distinct;
  }
  stores (team x) db r one st = record {
    repos = st.repos;
    commits = st.commits;
    pull_requests = st.pull_requests;
    workflows = st.workflows;
    workflow_runs = st.workflow_runs;
    teams =
        insert_or_ignore-IsTable (λ (x : Team). x.name) (λ (x : Team). x) same_team (λ a b. refl) x
          db.teams r.teams st.teams (λ a b e. rw e refl);
    components = st.components;
    distinct = st.distinct;
  }
  stores (component x) db r one st =
      rw (on_disk, (reads x.repo_ids).1.0)
        (record {
          repos = st.repos;
          commits = st.commits;
          pull_requests = st.pull_requests;
          workflows = st.workflows;
          workflow_runs = st.workflow_runs;
          teams = st.teams;
          components =
              upsert-IsTable (λ (x : Component). x.name) row_of_component same_component
                (λ a b. refl) x db.components r.components st.components;
          distinct = insert-Distinct x.name x r.components st.distinct;
        })
  stores (onboarding x) db r one st =
      let (table, written, follows) =
        onboarding-ComponentTable texts reads x db r one.0 (st.components, st.distinct) in
      subst (λ d. Stores d (add_repo_onboarding x r)) (sym written)
        (record {
          repos = st.repos;
          commits = st.commits;
          pull_requests = st.pull_requests;
          workflows = st.workflows;
          workflow_runs = st.workflow_runs;
          teams =
              insert_or_ignore-IsTable (λ (x : Team). x.name) (λ (x : Team). x) same_team
                (λ a b. refl) (record { name = x.team }) db.teams r.teams st.teams
                (λ a b e. rw e refl);
          components = follows.0;
          distinct = follows.1;
        })

  pub all-Stores :
      (ws : List Write) (db : Database Cell) (r : MemoryRepository)
      → HaveOneOwner ws r
      → Stores db r
      → Stores (on_disk texts ws db) (in_memory ws r)
  all-Stores [] db r one st = st
  all-Stores (repo x ∷ ws) db r one st = all-Stores ws _ _ one (stores (repo x) db r tt st)
  all-Stores (commit x ∷ ws) db r one st = all-Stores ws _ _ one (stores (commit x) db r tt st)
  all-Stores (pull_request x ∷ ws) db r one st =
      all-Stores ws _ _ one (stores (pull_request x) db r tt st)
  all-Stores (workflow x ∷ ws) db r one st = all-Stores ws _ _ one (stores (workflow x) db r tt st)
  all-Stores (workflow_run x ∷ ws) db r one st =
      all-Stores ws _ _ one (stores (workflow_run x) db r tt st)
  all-Stores (team x ∷ ws) db r one st = all-Stores ws _ _ one (stores (team x) db r tt st)
  all-Stores (component x ∷ ws) db r one st =
      all-Stores ws _ _ one (stores (component x) db r tt st)
  all-Stores (onboarding x ∷ ws) db r one st =
      all-Stores ws _ _ one.1 (stores (onboarding x) db r (one.0, tt) st)
