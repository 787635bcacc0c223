-- ===== src/Repo/Index/Reachable.antt =====
-- internal/domain/repo/memory.go: the states that any sequence of writes reaches.
use dalikamata.Prelude.{String, ◌≡◌, refl, ◌∙◌, Option, none, some, ◌==◌, if◌then◌else◌}
use dalikamata.Platform.{Platform}
use dalikamata.Model.{
  Repo, Commit, PullRequest, Workflow, WorkflowRun, WorkflowTask, Team, Component, RepoOnboarding,
}
use dalikamata.Prelude.Dict.{contains, lookup, lookup-insert}
use dalikamata.Repo.Memory.{
  MemoryRepository, new_memory, add_repo, add_commit, add_pull_request, add_workflow,
  add_workflow_run, add_workflow_task, add_team, add_component, add_repo_onboarding,
}
use dalikamata.Repo.Index.{IsIndexed}
use dalikamata.Repo.Index.Components.{add_component-IsIndexed, freed_by, add_component-owner}
use dalikamata.Repo.Index.Onboarding.{add_repo_onboarding-IsIndexed}

module _ ⦃go : Platform⦄ where
  -- One call of a method that writes.
  pub data Step : MemoryRepository → MemoryRepository → Type 0 where
    repo : {r : MemoryRepository} (x : Repo) → Step r (add_repo x r)
    commit : {r : MemoryRepository} (x : Commit) → Step r (add_commit x r)
    pull_request : {r : MemoryRepository} (x : PullRequest) → Step r (add_pull_request x r)
    workflow : {r : MemoryRepository} (x : Workflow) → Step r (add_workflow x r)
    workflow_run : {r : MemoryRepository} (x : WorkflowRun) → Step r (add_workflow_run x r)
    workflow_task : {r : MemoryRepository} (x : WorkflowTask) → Step r (add_workflow_task x r)
    team : {r : MemoryRepository} (x : Team) → Step r (add_team x r)
    component : {r : MemoryRepository} (x : Component) → Step r (add_component x r)
    onboarding : {r : MemoryRepository} (x : RepoOnboarding) → Step r (add_repo_onboarding x r)

  -- What a new repository can become.
  pub data Reachable : MemoryRepository → Type 0 where
    start : Reachable new_memory
    step : {r s : MemoryRepository} → Reachable r → Step r s → Reachable s

  new_memory-IsIndexed : IsIndexed new_memory
  unfolding lookup
  new_memory-IsIndexed = record {
    named = λ c x h. cc;
    listed = λ id c h. absurd cc;
    teams = λ c. refl;
  }

  same_indexes :
      (r s : MemoryRepository)
      → s.components ≡ r.components
      → s.repo_to_component ≡ r.repo_to_component
      → s.component_to_team ≡ r.component_to_team
      → IsIndexed r
      → IsIndexed s
  same_indexes r s cs rtc ct i = record {
    named = rw cs i.named;
    listed = rw (cs, rtc) i.listed;
    teams = rw (cs, ct) i.teams;
  }

  step-IsIndexed : {r s : MemoryRepository} → Step r s → IsIndexed r → IsIndexed s
  unfolding add_repo add_commit add_pull_request add_workflow add_workflow_run add_workflow_task
      add_team
  step-IsIndexed {r} (repo x) i = same_indexes r (add_repo x r) refl refl refl i
  step-IsIndexed {r} (commit x) i = same_indexes r (add_commit x r) refl refl refl i
  step-IsIndexed {r} (pull_request x) i = same_indexes r (add_pull_request x r) refl refl refl i
  step-IsIndexed {r} (workflow x) i = same_indexes r (add_workflow x r) refl refl refl i
  step-IsIndexed {r} (workflow_run x) i = same_indexes r (add_workflow_run x r) refl refl refl i
  step-IsIndexed {r} (workflow_task x) i = same_indexes r (add_workflow_task x r) refl refl refl i
  step-IsIndexed {r} (team x) i = same_indexes r (add_team x r) refl refl refl i
  step-IsIndexed {r} (component x) i = add_component-IsIndexed x r i
  step-IsIndexed {r} (onboarding x) i = add_repo_onboarding-IsIndexed x r i

  -- The history of a repo's owner: AddComponent gives the repos that the component lists to it and
  -- takes the others from it, an onboarding gives its repo away, and other writes change no owner.
  abbrev pub owner_after :
      {r s : MemoryRepository} → Step r s → String → Option String → Option String
  owner_after (repo x) id owner = owner
  owner_after (commit x) id owner = owner
  owner_after (pull_request x) id owner = owner
  owner_after (workflow x) id owner = owner
  owner_after (workflow_run x) id owner = owner
  owner_after (workflow_task x) id owner = owner
  owner_after (team x) id owner = owner
  owner_after (component x) id owner =
      if contains x.repo_ids id then some x.name else freed_by x.name owner
  owner_after (onboarding x) id owner = if x.repo_id == id then some x.component else owner

  abbrev pub owner_by : {r : MemoryRepository} → Reachable r → String → Option String
  owner_by start id = none
  owner_by (step before next) id = owner_after next id (owner_by before id)

  step-owner_after :
      {r s : MemoryRepository} (next : Step r s) (id : String)
      → IsIndexed r
      → lookup id s.repo_to_component ≡ owner_after next id (lookup id r.repo_to_component)
  unfolding add_repo add_commit add_pull_request add_workflow add_workflow_run add_workflow_task
      add_team add_repo_onboarding
  step-owner_after (repo x) id i = refl
  step-owner_after (commit x) id i = refl
  step-owner_after (pull_request x) id i = refl
  step-owner_after (workflow x) id i = refl
  step-owner_after (workflow_run x) id i = refl
  step-owner_after (workflow_task x) id i = refl
  step-owner_after (team x) id i = refl
  step-owner_after {r} (component x) id i = add_component-owner x r id i
  step-owner_after {r} (onboarding x) id i =
      lookup-insert x.repo_id id x.component r.repo_to_component

  -- In every state that a new repository reaches by any sequence of writes, whatever their order,
  -- the repo index names for each repo the owner that the history gives it: the component that was
  -- the last to list it in AddComponent or to get it in an onboarding and that has not been stored
  -- without it since. The component that the index names lists the repo, and the team index has
  -- exactly the teams of the stored components. (A component may list a repo that it does not own.)
  pub reachable-IsIndexed :
      {r : MemoryRepository} (history : Reachable r)
      → IsIndexed r × ((id : String) → lookup id r.repo_to_component ≡ owner_by history id)
  unfolding lookup
  reachable-IsIndexed start = (new_memory-IsIndexed, λ id. refl)
  reachable-IsIndexed (step before next) =
      let (indexed, owners) = reachable-IsIndexed before in
      (step-IsIndexed next indexed, λ id. step-owner_after next id indexed ∙ rw (owners id) refl)
