-- ===== src/Sqlite/Written/Stored.antt =====
-- internal/domain/repo/sqlite.go beside memory.go: the tables after the same writes.
use dalikamata.Prelude.{◌≡◌, refl, List, [], ◌∷◌, map, ok}
use dalikamata.Prelude.Dict.{values}
use dalikamata.Platform.{Platform}
use dalikamata.Model.{Component}
use dalikamata.Repo.Memory.{MemoryRepository, new_memory}
use dalikamata.Sqlite.Tables.{Database, Texts}
use dalikamata.Sqlite.Writes.{commit_row, pull_request_row, workflow_run_row, scan_components}
use dalikamata.Sqlite.Loads.{scan_commit, scan_pull_request, scan_workflow, scan_workflow_run}
use dalikamata.Sqlite.Written.Rows.{scan_all-map, scan_all-through}
use dalikamata.Sqlite.Written.Kept.{Stores, all-Stores, row_of_workflow, row_of_component}
use dalikamata.Sqlite.Written.{
  commit_read, pull_request_read, run_read, Write, in_memory, new_database, no_failure,
  HaveOneOwner, on_disk, Holds, ReadsBackIds,
}

module _ ⦃go : Platform⦄ {Cell E : Type 0} (texts : Texts Cell E) (reads : ReadsBackIds texts) where
  map_id : {A : Type 0} (xs : List A) → map (λ x. x) xs ≡ xs
  map_id [] = refl
  map_id (x ∷ xs) = rw (map_id xs) refl

  scan_components-map :
      (cs : List Component)
      → scan_components texts no_failure (map (row_of_component texts reads) cs) ≡ ok cs
  scan_components-map [] = refl
  scan_components-map (c ∷ cs) = rw ((reads c.repo_ids).1.1, scan_components-map cs) refl

  Stores-Holds :
      (db : Database Cell) (r : MemoryRepository) → Stores texts reads db r → Holds texts db r
  Stores-Holds db r st = record {
    repos = rw (st.repos.0, map_id (values r.repos)) refl;
    commits = rw st.commits.0 (
        scan_all-through (commit_row texts no_failure) (scan_commit texts no_failure)
          (commit_read texts) (values r.commits) (λ c. refl));
    pull_requests = rw st.pull_requests.0 (
        scan_all-through (pull_request_row texts no_failure) (scan_pull_request texts no_failure)
          (pull_request_read texts) (values r.pull_requests) (λ pr. refl));
    workflows =
        rw
          (
            st.workflows.0,
            scan_all-map (row_of_workflow texts reads) (scan_workflow texts no_failure) (λ x. x)
                (values r.workflows) (λ w. rw ((reads w.repo_ids).1.1) refl),
            map_id (values r.workflows),
          )
          refl;
    workflow_runs = rw st.workflow_runs.0 (
        scan_all-through (workflow_run_row texts no_failure) (scan_workflow_run texts no_failure)
          (run_read texts) (values r.workflow_runs) (λ run. refl));
    teams = rw (st.teams.0, map_id (values r.teams)) refl;
    components = rw (st.components.0, scan_components-map (values r.components)) refl;
  }

  -- After any sequence of writes that the database accepts, without a task among them, the tables,
  -- read back, hold what the memory repository holds after the same writes, in the same order:
  -- every repo, commit, pull request, workflow, team and component, and every run without what a
  -- query fills in, each with its times as they come back from their texts; a time that does not
  -- come back fails the reading of its table. The codec reads back the lists of IDs, and at each
  -- onboarding no component but the one that the memory repository's index names lists the repo.
  pub on_disk-Holds :
      (ws : List Write)
      → HaveOneOwner ws new_memory
      → Holds texts (on_disk texts ws new_database) (in_memory ws new_memory)
  on_disk-Holds ws one = Stores-Holds (on_disk texts ws new_database) (in_memory ws new_memory) (
      all-Stores texts reads ws new_database new_memory one (record {
        repos = (refl, tt);
        commits = (refl, tt);
        pull_requests = (refl, tt);
        workflows = (refl, tt);
        workflow_runs = (refl, tt);
        teams = (refl, tt);
        components = (refl, tt);
        distinct = tt;
      }))
