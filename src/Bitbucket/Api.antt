-- ===== src/Bitbucket/Api.antt =====
-- internal/ingest/bitbucket/models.go and cursor.go: the API's objects, and what the crawler calls:
-- the client, the publishers and the cursor store, each a step on a world of its own.
use dalikamata.Prelude.{String, Bool, Option, List, Result}
use dalikamata.Prelude.Int.{ℤ}
use dalikamata.Prelude.Dict.{Dict}
use dalikamata.Platform.{Platform}
use dalikamata.Model.{Repo, Commit, PullRequest, RepoOnboarding}
use dalikamata.Config.Files.{RepoFile}

-- The fields that the crawler reads.
pub record ApiRepo : Type 0 where
  pub slug : String
  pub name : String

pub record ApiCommit : Type 0 where
  pub id : String
  pub author_name : String
  pub author_timestamp : ℤ

pub record ApiPullRequest : Type 0 where
  pub id : ℤ
  pub title : String
  pub description : String
  pub state : String
  pub author_display_name : String
  pub created_date : ℤ
  pub updated_date : ℤ

module _ ⦃go : Platform⦄ where
  pub record Ports (W : Type 0) (E : Type 0) (Data : Type 0) : Type 0 where
    -- Cursors
    pub load : W → W × Result E (Dict String)
    pub save : (repo_id sha : String) → W → W × Option E
    pub clear : (repo_id : String) → W → W × Option E
    -- BitbucketClient
    pub get_repos : (project_key : String) → W → W × Result E (List ApiRepo)
    pub get_commits : (project_key repo_slug since : String) → W → W × Result E (List ApiCommit)
    pub get_pull_requests :
        (project_key repo_slug : String) → W → W × Result E (List ApiPullRequest)
    pub get_raw_file : (project_key repo_slug path : String) → W → W × Result E (Option Data)
    -- GitPublisher and RepoOnboardingPublisher
    pub publish_repo : Repo → W → W × Option E
    pub publish_commit : Commit → W → W × Option E
    pub publish_pull_request : PullRequest → W → W × Option E
    pub publish_repo_onboarding : RepoOnboarding → W → W × Option E
    -- yaml.Unmarshal and path.Join
    pub unmarshal : Data → Result E RepoFile
    pub path_join : List String → String

-- What NewCrawler and its options set.
pub record Settings : Type 0 where
  pub projects : List String
  pub has_config_publisher : Bool
  pub config_paths : List String
