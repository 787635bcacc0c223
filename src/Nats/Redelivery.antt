-- ===== src/Nats/Redelivery.antt =====
-- internal/domain/nats/port.go over the memory repository: an event that is delivered again.
use dalikamata.Prelude.{String, ◌≡◌, refl, none, some, eq_iff, arith, subst, All, Result, ok, err}
use dalikamata.Prelude.Dict.{lookup, insert, insert-insert_self, lookup-insert, All-lookup}
use dalikamata.Platform.{Platform}
use dalikamata.Model.{Component}
use dalikamata.Repo.Memory.{
  MemoryRepository, task_key, drop_stale, index_repos, without_previous, add_repo, add_commit,
  add_pull_request, add_workflow, add_workflow_run, add_workflow_task, add_team, add_component,
  add_repo_onboarding,
}
use dalikamata.Repo.Index.{lookup-index_repos, lookup-drop_stale}
use dalikamata.Repo.Index.Moves.{add_repo_onboarding_idempotent}
use dalikamata.Service.{git_service, cicd_service, platform_service}
use dalikamata.Nats.EventPort.{
  Verdict, EventCodec, NatsPort, handle_event, git_repo_handler, git_commit_handler,
  git_pull_request_handler, cicd_workflow_handler, cicd_workflow_run_handler,
  cicd_workflow_task_handler, platform_team_handler, platform_component_handler,
  platform_repo_handler, consumers,
}

module _ ⦃go : Platform⦄ where
  -- The same maps, where the index of the repos is compared by what it answers.
  pub record SameContents (r s : MemoryRepository) : Type 0 where
    pub repos : r.repos ≡ s.repos
    pub commits : r.commits ≡ s.commits
    pub pull_requests : r.pull_requests ≡ s.pull_requests
    pub workflows : r.workflows ≡ s.workflows
    pub workflow_runs : r.workflow_runs ≡ s.workflow_runs
    pub workflow_tasks : r.workflow_tasks ≡ s.workflow_tasks
    pub teams : r.teams ≡ s.teams
    pub components : r.components ≡ s.components
    pub component_to_team : r.component_to_team ≡ s.component_to_team
    pub owners : (id : String) → lookup id r.repo_to_component ≡ lookup id s.repo_to_component

  same : (r s : MemoryRepository) → r ≡ s → SameContents r s
  same r s e =
      subst (λ t. SameContents r t) e
        (record {
          repos = refl;
          commits = refl;
          pull_requests = refl;
          workflows = refl;
          workflow_runs = refl;
          workflow_tasks = refl;
          teams = refl;
          components = refl;
          component_to_team = refl;
          owners = λ id. refl;
        })

  -- The same component again: its repos are taken out of the index and put back.
  add_component_again :
      (comp : Component) (r : MemoryRepository)
      → SameContents (add_component comp (add_component comp r)) (add_component comp r)
  unfolding add_component
  add_component_again comp r = record {
    repos = refl;
    commits = refl;
    pull_requests = refl;
    workflows = refl;
    workflow_runs = refl;
    workflow_tasks = refl;
    teams = refl;
    components = insert-insert_self comp.name comp r.components;
    component_to_team = insert-insert_self comp.name comp.team_name r.component_to_team;
    owners = λ id.
        let before = without_previous (lookup comp.name r.components) r.repo_to_component in
        let once = index_repos comp.name comp.repo_ids before in
        let stored : lookup comp.name (insert comp.name comp r.components) ≡ some comp = ground (
          arith,
          lookup-insert comp.name comp.name comp r.components,
          eq_iff comp.name comp.name,
        ) in
        rw stored (
          ground (
            arith,
            lookup-index_repos id comp.name comp.repo_ids (drop_stale comp.name comp.repo_ids once),
            lookup-drop_stale id comp.name comp.repo_ids once,
            lookup-index_repos id comp.name comp.repo_ids before,
          ));
  }

  module _ {Data E : Type 0} (codec : EventCodec Data E) where
    abbrev pub memory_port : NatsPort MemoryRepository E
    memory_port = record {
      git_handler = git_service;
      cicd_handler = cicd_service;
      platform_handler = some platform_service;
    }

    abbrev pub Handler : Type 0
    Handler = Data → MemoryRepository → MemoryRepository × Verdict

    abbrev IsIdempotent : Handler → Type 0
    IsIdempotent handle =
        (body : Data) (r : MemoryRepository)
        → SameContents (handle body (handle body r).0).0 (handle body r).0
          × ((handle body (handle body r).0).1 ≡ (handle body r).1)

    handle_event-again :
        {A : Type 0} (f : A → MemoryRepository → MemoryRepository)
        → ((a : A) (r : MemoryRepository) → SameContents (f a (f a r)) (f a r))
        → (decoded : Result E A) (r : MemoryRepository)
        → let once = handle_event {E = E} (λ a t. (f a t, none)) decoded r in
          let twice = handle_event {E = E} (λ a t. (f a t, none)) decoded once.0 in
          SameContents twice.0 once.0 × (twice.1 ≡ once.1)
    handle_event-again f again (err e) r = (same r r refl, refl)
    handle_event-again f again (ok a) r = (again a r, refl)

    git_repo_handler-again : IsIdempotent (git_repo_handler codec memory_port)
    unfolding git_repo_handler add_repo
    git_repo_handler-again body =
        handle_event-again add_repo
          (λ a r.
            same (add_repo a (add_repo a r)) (add_repo a r)
              (rw (insert-insert_self a.repo_id a r.repos) refl))
          (codec.repo body)

    git_commit_handler-again : IsIdempotent (git_commit_handler codec memory_port)
    unfolding git_commit_handler add_commit
    git_commit_handler-again body =
        handle_event-again add_commit
          (λ a r.
            same (add_commit a (add_commit a r)) (add_commit a r)
              (rw (insert-insert_self a.sha a r.commits) refl))
          (codec.commit body)

    git_pull_request_handler-again : IsIdempotent (git_pull_request_handler codec memory_port)
    unfolding git_pull_request_handler add_pull_request
    git_pull_request_handler-again body =
        handle_event-again add_pull_request
          (λ a r.
            same (add_pull_request a (add_pull_request a r)) (add_pull_request a r)
              (rw (insert-insert_self a.id a r.pull_requests) refl))
          (codec.pull_request body)

    cicd_workflow_handler-again : IsIdempotent (cicd_workflow_handler codec memory_port)
    unfolding cicd_workflow_handler add_workflow
    cicd_workflow_handler-again body =
        handle_event-again add_workflow
          (λ a r.
            same (add_workflow a (add_workflow a r)) (add_workflow a r)
              (rw (insert-insert_self a.id a r.workflows) refl))
          (codec.workflow body)

    cicd_workflow_run_handler-again : IsIdempotent (cicd_workflow_run_handler codec memory_port)
    unfolding cicd_workflow_run_handler add_workflow_run
    cicd_workflow_run_handler-again body =
        handle_event-again add_workflow_run
          (λ a r.
            same (add_workflow_run a (add_workflow_run a r)) (add_workflow_run a r)
              (rw (insert-insert_self a.id a r.workflow_runs) refl))
          (codec.workflow_run body)

    cicd_workflow_task_handler-again : IsIdempotent (cicd_workflow_task_handler codec memory_port)
    unfolding cicd_workflow_task_handler add_workflow_task
    cicd_workflow_task_handler-again body =
        handle_event-again add_workflow_task
          (λ a r.
            same (add_workflow_task a (add_workflow_task a r)) (add_workflow_task a r)
              (rw (insert-insert_self (task_key a) a r.workflow_tasks) refl))
          (codec.workflow_task body)

    platform_team_handler-again :
        IsIdempotent (platform_team_handler codec memory_port platform_service)
    unfolding platform_team_handler add_team
    platform_team_handler-again body =
        handle_event-again add_team
          (λ a r.
            same (add_team a (add_team a r)) (add_team a r)
              (rw (insert-insert_self a.name a r.teams) refl))
          (codec.team body)

    platform_component_handler-again :
        IsIdempotent (platform_component_handler codec memory_port platform_service)
    unfolding platform_component_handler
    platform_component_handler-again body =
        handle_event-again add_component add_component_again (codec.component body)

    platform_repo_handler-again :
        IsIdempotent (platform_repo_handler codec memory_port platform_service)
    unfolding platform_repo_handler
    platform_repo_handler-again body =
        handle_event-again add_repo_onboarding
          (λ a r.
            same (add_repo_onboarding a (add_repo_onboarding a r)) (add_repo_onboarding a r)
              (add_repo_onboarding_idempotent a r))
          (codec.repo_onboarding body)

    consumers-IsIdempotent :
        All (λ (e : String × Handler). IsIdempotent e.1) (consumers codec memory_port)
    consumers-IsIdempotent = (
      git_repo_handler-again,
      (
        git_commit_handler-again,
        (
          git_pull_request_handler-again,
          (
            cicd_workflow_handler-again,
            (
              cicd_workflow_run_handler-again,
              (
                cicd_workflow_task_handler-again,
                (
                  platform_team_handler-again,
                  (platform_component_handler-again, (platform_repo_handler-again, tt)),
                ),
              ),
            ),
          ),
        ),
      ),
    )

    -- Whatever arrives on a subject of the port, handling the same message again gives the same
    -- verdict and leaves the repository's contents as the first time did.
    pub redelivered :
        (subject : String) (handle : Handler) (body : Data) (r : MemoryRepository)
        → lookup subject (consumers codec memory_port) ≡ some handle
        → SameContents (handle body (handle body r).0).0 (handle body r).0
          × ((handle body (handle body r).0).1 ≡ (handle body r).1)
    redelivered subject handle body r e =
        All-lookup (λ e. IsIdempotent e.1) subject handle (consumers codec memory_port) e
          consumers-IsIdempotent body r
