-- ===== src/Repo/Memory.antt =====
-- internal/domain/repo/memory.go: the state of MemoryRepository and the operations that change it.
-- Each runs under the write lock, so it is one step from state to state; none returns an error.
use dalikamata.Prelude.{
  String, not, Option, none, some, List, [], ◌∷◌, ◌++◌, ◌==◌, filter, if◌then◌else◌,
}
use dalikamata.Prelude.Dict.{Dict, contains, lookup, insert, delete}
use dalikamata.Prelude.Texts.{sprint_int, concat}
use dalikamata.Platform.{Platform}
use dalikamata.Model.{
  Repo, Commit, PullRequest, Workflow, WorkflowRun, WorkflowTask, Team, Component, RepoOnboarding,
}

-- `m[k]` on a map of texts: "" for a missing key.
abbrev or_empty : Option String → String
or_empty none = ""
or_empty (some s) = s

abbrev pub text_at : String → Dict String → String
text_at k m = or_empty (lookup k m)

module _ ⦃go : Platform⦄ where
  pub record MemoryRepository : Type 0 where
    pub repos : Dict Repo
    pub commits : Dict Commit
    pub pull_requests : Dict PullRequest
    pub workflows : Dict Workflow
    pub workflow_runs : Dict WorkflowRun
    pub workflow_tasks : Dict WorkflowTask
    pub teams : Dict Team
    pub components : Dict Component
    -- repo ID → component name
    pub repo_to_component : Dict String
    -- component name → team name
    pub component_to_team : Dict String

  abbrev pub new_memory : MemoryRepository
  new_memory = record {
    repos = [];
    commits = [];
    pull_requests = [];
    workflows = [];
    workflow_runs = [];
    workflow_tasks = [];
    teams = [];
    components = [];
    repo_to_component = [];
    component_to_team = [];
  }

  unfoldable pub add_repo : Repo → MemoryRepository → MemoryRepository
  add_repo repo r = record r { repos = insert repo.repo_id repo r.repos }

  unfoldable pub add_commit : Commit → MemoryRepository → MemoryRepository
  add_commit commit r = record r { commits = insert commit.sha commit r.commits }

  unfoldable pub add_pull_request : PullRequest → MemoryRepository → MemoryRepository
  add_pull_request pr r = record r { pull_requests = insert pr.id pr r.pull_requests }

  unfoldable pub add_workflow : Workflow → MemoryRepository → MemoryRepository
  add_workflow job r = record r { workflows = insert job.id job r.workflows }

  unfoldable pub add_workflow_run : WorkflowRun → MemoryRepository → MemoryRepository
  add_workflow_run build r = record r { workflow_runs = insert build.id build r.workflow_runs }

  -- fmt.Sprintf("%s/%d", stage.WorkflowRunID, stage.Order)
  abbrev pub task_key : WorkflowTask → String
  task_key stage = concat stage.workflow_run_id (concat "/" (sprint_int stage.order))

  unfoldable pub add_workflow_task : WorkflowTask → MemoryRepository → MemoryRepository
  add_workflow_task stage r = record r {
    workflow_tasks = insert (task_key stage) stage r.workflow_tasks;
  }

  unfoldable pub add_team : Team → MemoryRepository → MemoryRepository
  add_team team r = record r { teams = insert team.name team r.teams }

-- The loop over the repos of the component's previous version: an entry that still names the
-- component is deleted.
unfoldable pub drop_stale : String → List String → Dict String → Dict String
drop_stale name [] rtc = rtc
drop_stale name (id ∷ ids) rtc =
    drop_stale name ids (if text_at id rtc == name then delete id rtc else rtc)

unfoldable pub index_repos : String → List String → Dict String → Dict String
index_repos name [] rtc = rtc
index_repos name (id ∷ ids) rtc = index_repos name ids (insert id name rtc)

-- The entries without those of the component's previous version, if it has one.
abbrev pub without_previous : Option Component → Dict String → Dict String
without_previous none rtc = rtc
without_previous (some prev) rtc = drop_stale prev.name prev.repo_ids rtc

-- A component that loses a repo to another one keeps its other repos.
abbrev pub release_from : String → String → Option Component → Dict Component → Dict Component
release_from repo_id name none components = components
release_from repo_id name (some prev) components =
    insert name (record prev { repo_ids = filter (λ id. not (id == repo_id)) prev.repo_ids })
      components

-- The components after the repo has left the one that the index names, if that is another one.
abbrev pub release : RepoOnboarding → Option String → Dict Component → Dict Component
release o none components = components
release o (some prev_name) components =
    if prev_name == o.component
    then components
    else release_from o.repo_id prev_name (lookup prev_name components) components

-- The component that gets the repo; a missing one starts from Go's zero value.
abbrev pub claim_repo : RepoOnboarding → Option Component → Component
claim_repo o none = record { name = o.component; team_name = o.team; repo_ids = o.repo_id ∷ [] }
claim_repo o (some comp) = record {
  name = o.component;
  team_name = o.team;
  repo_ids =
      if contains comp.repo_ids o.repo_id then comp.repo_ids else comp.repo_ids ++ o.repo_id ∷ [];
}

module _ ⦃go : Platform⦄ where
  unfoldable pub add_component : Component → MemoryRepository → MemoryRepository
  add_component comp r = record r {
    components = insert comp.name comp r.components;
    component_to_team = insert comp.name comp.team_name r.component_to_team;
    repo_to_component =
        index_repos comp.name comp.repo_ids
          (without_previous (lookup comp.name r.components) r.repo_to_component);
  }

  unfoldable pub add_repo_onboarding : RepoOnboarding → MemoryRepository → MemoryRepository
  add_repo_onboarding o r =
      let released = release o (lookup o.repo_id r.repo_to_component) r.components in
      record r {
        teams = insert o.team (record { name = o.team }) r.teams;
        components = insert o.component (claim_repo o (lookup o.component released)) released;
        component_to_team = insert o.component o.team r.component_to_team;
        repo_to_component = insert o.repo_id o.component r.repo_to_component;
      }
