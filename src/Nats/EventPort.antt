-- ===== src/Nats/EventPort.antt =====
-- internal/domain/nats/port.go: the consumers of the ingest subjects. R is the state of the handlers;
-- a verdict is the message's acknowledgement or its negative one, whose own errors are logged only.
use dalikamata.Prelude.{String, Option, none, some, List, [], ◌∷◌, Result, ok, err}
use dalikamata.Prelude.Dict.{Dict}
use dalikamata.Platform.{Platform}
use dalikamata.Model.{
  Repo, Commit, PullRequest, Workflow, WorkflowRun, WorkflowTask, Team, Component, RepoOnboarding,
}
use dalikamata.Service.{GitEventHandler, CicdEventHandler, PlatformEventHandler}

abbrev pub subject_repo : String
subject_repo = "ingest.git.repo"

abbrev pub subject_commit : String
subject_commit = "ingest.git.commit"

abbrev pub subject_pull_request : String
subject_pull_request = "ingest.git.pullrequest"

abbrev pub subject_cicd_workflow : String
subject_cicd_workflow = "ingest.cicd.workflow"

abbrev pub subject_cicd_workflow_run : String
subject_cicd_workflow_run = "ingest.cicd.workflowRun"

abbrev pub subject_cicd_workflow_task : String
subject_cicd_workflow_task = "ingest.cicd.workflowTask"

abbrev pub subject_platform_team : String
subject_platform_team = "ingest.platform.team"

abbrev pub subject_platform_component : String
subject_platform_component = "ingest.platform.component"

abbrev pub subject_platform_repo : String
subject_platform_repo = "ingest.platform.repo"

pub data Verdict : Type 0 where
  ack : Verdict
  nak : Verdict

pub data PortError : Type 0 where
  git_handler_required : PortError
  cicd_handler_required : PortError

-- json.Unmarshal of each event.
module _ ⦃go : Platform⦄ where
  pub record EventCodec (Data : Type 0) (E : Type 0) : Type 0 where
    pub repo : Data → Result E Repo
    pub commit : Data → Result E Commit
    pub pull_request : Data → Result E PullRequest
    pub workflow : Data → Result E Workflow
    pub workflow_run : Data → Result E WorkflowRun
    pub workflow_task : Data → Result E WorkflowTask
    pub team : Data → Result E Team
    pub component : Data → Result E Component
    pub repo_onboarding : Data → Result E RepoOnboarding

  -- The options of NewPort.
  pub data HandlerOpt (R : Type 0) (E : Type 0) : Type 0 where
    with_git : GitEventHandler R E → HandlerOpt R E
    with_cicd : CicdEventHandler R E → HandlerOpt R E
    with_platform : PlatformEventHandler R E → HandlerOpt R E

  -- A port that is set up; a handler that no option gave is nil.
  record Handlers (R : Type 0) (E : Type 0) : Type 0 where
    git : Option (GitEventHandler R E)
    cicd : Option (CicdEventHandler R E)
    platform : Option (PlatformEventHandler R E)

  pub record NatsPort (R : Type 0) (E : Type 0) : Type 0 where
    pub git_handler : GitEventHandler R E
    pub cicd_handler : CicdEventHandler R E
    pub platform_handler : Option (PlatformEventHandler R E)

module _ ⦃go : Platform⦄ {R E : Type 0} where
  abbrev apply_opts : Handlers R E → List (HandlerOpt R E) → Handlers R E
  apply_opts h [] = h
  apply_opts h (with_git g ∷ opts) = apply_opts (record h { git = some g }) opts
  apply_opts h (with_cicd c ∷ opts) = apply_opts (record h { cicd = some c }) opts
  apply_opts h (with_platform p ∷ opts) = apply_opts (record h { platform = some p }) opts

  abbrev required :
      Option (GitEventHandler R E)
      → Option (CicdEventHandler R E)
      → Option (PlatformEventHandler R E)
      → Result PortError (NatsPort R E)
  required none c p = err git_handler_required
  required (some g) none p = err cicd_handler_required
  required (some g) (some c) p =
      ok (record { git_handler = g; cicd_handler = c; platform_handler = p })

  abbrev pub new_port : List (HandlerOpt R E) → Result PortError (NatsPort R E)
  new_port opts =
      let h = apply_opts (record { git = none; cicd = none; platform = none }) opts in
      required h.git h.cicd h.platform

  abbrev verdict : R × Option E → R × Verdict
  verdict (r, none) = (r, ack)
  verdict (r, some e) = (r, nak)

  -- The body of each of the nine handlers: an event that cannot be read or handled is refused.
  abbrev pub handle_event : {A : Type 0} → (A → R → R × Option E) → Result E A → R → R × Verdict
  handle_event handle (err e) r = (r, nak)
  handle_event handle (ok a) r = verdict (handle a r)

  module _ {Data : Type 0} (codec : EventCodec Data E) (port : NatsPort R E) where
    unfoldable pub git_repo_handler : Data → R → R × Verdict
    git_repo_handler body = handle_event port.git_handler.handle_repo (codec.repo body)

    unfoldable pub git_commit_handler : Data → R → R × Verdict
    git_commit_handler body = handle_event port.git_handler.handle_commit (codec.commit body)

    unfoldable pub git_pull_request_handler : Data → R → R × Verdict
    git_pull_request_handler body =
        handle_event port.git_handler.handle_pull_request (codec.pull_request body)

    unfoldable pub cicd_workflow_handler : Data → R → R × Verdict
    cicd_workflow_handler body =
        handle_event port.cicd_handler.handle_workflow (codec.workflow body)

    unfoldable pub cicd_workflow_run_handler : Data → R → R × Verdict
    cicd_workflow_run_handler body =
        handle_event port.cicd_handler.handle_workflow_run (codec.workflow_run body)

    unfoldable pub cicd_workflow_task_handler : Data → R → R × Verdict
    cicd_workflow_task_handler body =
        handle_event port.cicd_handler.handle_workflow_task (codec.workflow_task body)

    module _ (handler : PlatformEventHandler R E) where
      unfoldable pub platform_team_handler : Data → R → R × Verdict
      platform_team_handler body = handle_event handler.handle_team (codec.team body)

      unfoldable pub platform_component_handler : Data → R → R × Verdict
      platform_component_handler body = handle_event handler.handle_component (codec.component body)

      unfoldable pub platform_repo_handler : Data → R → R × Verdict
      platform_repo_handler body =
          handle_event handler.handle_repo_onboarding (codec.repo_onboarding body)

    abbrev platform_consumers : Option (PlatformEventHandler R E) → Dict (Data → R → R × Verdict)
    platform_consumers none = []
    platform_consumers (some handler) =
        (subject_platform_team, platform_team_handler handler)
        ∷ ((subject_platform_component, platform_component_handler handler)
            ∷ ((subject_platform_repo, platform_repo_handler handler) ∷ []))

    -- What Run consumes, by subject; the platform's subjects only if they have a handler.
    abbrev pub consumers : Dict (Data → R → R × Verdict)
    consumers =
        (subject_repo, git_repo_handler)
        ∷ ((subject_commit, git_commit_handler)
            ∷ ((subject_pull_request, git_pull_request_handler)
                ∷ ((subject_cicd_workflow, cicd_workflow_handler)
                    ∷ ((subject_cicd_workflow_run, cicd_workflow_run_handler)
                        ∷ ((subject_cicd_workflow_task, cicd_workflow_task_handler)
                            ∷ platform_consumers port.platform_handler)))))
