-- ===== src/Jenkins/Api.antt =====
-- internal/ingest/jenkins/models.go and cursor.go: the API's objects, and what the crawler calls:
-- the client, the publisher and the cursor store, each a step on a world of its own.
use dalikamata.Prelude.{String, Bool, Option, List, Result}
use dalikamata.Prelude.Int.{ℤ}
use dalikamata.Prelude.Dict.{Dict}
use dalikamata.Platform.{Platform}
use dalikamata.Model.{Workflow, WorkflowRun, WorkflowTask}

pub record ApiJob : Type 0 where
  pub job_class : String
  pub name : String

pub record ApiBranch : Type 0 where
  pub name : String

pub record ApiRevision : Type 0 where
  pub sha1 : String
  pub branch : List ApiBranch

pub record ApiBuildAction : Type 0 where
  pub action_class : String
  pub last_built_revision : Option ApiRevision
  pub remote_urls : List String

pub record ApiBuild : Type 0 where
  pub number : ℤ
  pub build_result : String
  pub timestamp : ℤ
  pub duration : ℤ
  pub in_progress : Bool
  pub actions : List ApiBuildAction

pub record ApiStage : Type 0 where
  pub name : String
  pub status : String
  pub start_time_millis : ℤ
  pub duration_millis : ℤ

-- A job and whether it was found directly in a multibranch pipeline.
pub record JobEntry : Type 0 where
  pub path : String
  pub is_branch : Bool

module _ ⦃go : Platform⦄ where
  pub record JobPorts (W : Type 0) (E : Type 0) : Type 0 where
    -- Cursors
    pub load : W → W × Result E (Dict ℤ)
    pub save : (job_path : String) (number : ℤ) → W → W × Option E
    pub clear : (job_path : String) → W → W × Option E
    -- JenkinsClient; the last completed build's number is `none` if there is no such build
    pub get_jobs : (job_path : String) → W → W × Result E (List ApiJob)
    pub get_builds : (job_path : String) → W → W × Result E (List ApiBuild)
    pub get_last_completed_build_number : (job_path : String) → W → W × Result E (Option ℤ)
    pub get_stages : (job_path : String) (number : ℤ) → W → W × Result E (List ApiStage)
    -- CICDPublisher
    pub publish_workflow : Workflow → W → W × Option E
    pub publish_workflow_run : WorkflowRun → W → W × Option E
    pub publish_workflow_task : WorkflowTask → W → W × Option E
    -- the path of a URL by url.Parse, and strings.ToUpper
    pub parse_url_path : String → Option String
    pub to_upper : String → String

-- The configured jobs and the repos of pipelines whose builds name none.
pub record JobSettings : Type 0 where
  pub jobs : List String
  pub repo_overrides : Dict String
