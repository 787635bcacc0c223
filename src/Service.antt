-- ===== src/Service.antt =====
-- internal/domain/service.go and ports.go: the domain service over the memory repository, which passes
-- each event and each query on.
use dalikamata.Prelude.{Option, none, ok}
use dalikamata.Platform.{Platform}
use dalikamata.Model.{
  Repo, Commit, PullRequest, Workflow, WorkflowRun, WorkflowTask, Team, Component, RepoOnboarding,
}
use dalikamata.Repo.Memory.{
  MemoryRepository, add_repo, add_commit, add_pull_request, add_workflow, add_workflow_run,
  add_workflow_task, add_team, add_component, add_repo_onboarding,
}
use dalikamata.Repo.Queries.{
  Context, query_repos, query_commits, query_pull_requests, query_workflows, query_workflow_runs,
  query_workflow_tasks, query_teams, query_components, aggregate, ownership_diagnostics,
}
use dalikamata.Nats.Messages.{QueryHandler}

module _ ⦃go : Platform⦄ where
  open go use {Time}

  pub record GitEventHandler (R : Type 0) (E : Type 0) : Type 0 where
    pub handle_repo : Repo → R → R × Option E
    pub handle_commit : Commit → R → R × Option E
    pub handle_pull_request : PullRequest → R → R × Option E

  pub record CicdEventHandler (R : Type 0) (E : Type 0) : Type 0 where
    pub handle_workflow : Workflow → R → R × Option E
    pub handle_workflow_run : WorkflowRun → R → R × Option E
    pub handle_workflow_task : WorkflowTask → R → R × Option E

  pub record PlatformEventHandler (R : Type 0) (E : Type 0) : Type 0 where
    pub handle_team : Team → R → R × Option E
    pub handle_component : Component → R → R × Option E
    pub handle_repo_onboarding : RepoOnboarding → R → R × Option E

  abbrev pub git_service : {E : Type 0} → GitEventHandler MemoryRepository E
  git_service = record {
    handle_repo = λ x r. (add_repo x r, none);
    handle_commit = λ x r. (add_commit x r, none);
    handle_pull_request = λ x r. (add_pull_request x r, none);
  }

  abbrev pub cicd_service : {E : Type 0} → CicdEventHandler MemoryRepository E
  cicd_service = record {
    handle_workflow = λ x r. (add_workflow x r, none);
    handle_workflow_run = λ x r. (add_workflow_run x r, none);
    handle_workflow_task = λ x r. (add_workflow_task x r, none);
  }

  abbrev pub platform_service : {E : Type 0} → PlatformEventHandler MemoryRepository E
  platform_service = record {
    handle_team = λ x r. (add_team x r, none);
    handle_component = λ x r. (add_component x r, none);
    handle_repo_onboarding = λ x r. (add_repo_onboarding x r, none);
  }

  -- The clock's value is read by the queries on pull requests.
  abbrev pub query_service : {E S : Type 0} → Context E → Time → MemoryRepository → QueryHandler E S
  query_service ctx now r = record {
    query_repos = λ q. query_repos ctx r q;
    query_commits = λ q. query_commits ctx r q;
    query_pull_requests = λ q. query_pull_requests ctx r q now;
    query_workflows = λ q. query_workflows ctx r q;
    query_workflow_runs = λ q. query_workflow_runs ctx r q;
    query_workflow_tasks = λ q. query_workflow_tasks ctx r q;
    query_teams = λ q. query_teams ctx r q;
    query_components = λ q. query_components ctx r q;
    aggregate = λ q. aggregate ctx r q now;
    ownership_diagnostics = ok (ownership_diagnostics r);
  }
