-- ===== src/Bitbucket/Crawler.antt =====
-- internal/ingest/bitbucket/crawler.go: the crawl, on the crawler's state and the world of its ports.
pub mod Cursors
pub mod Backed
use dalikamata.Prelude.{
  String, true, false, Bool, not, ◌||◌, Option, none, some, List, [], ◌∷◌, ◌==◌, if◌then◌else◌,
  is_empty, Result, ok, err,
}
use dalikamata.Prelude.Dict.{Dict, lookup, insert, delete}
use dalikamata.Prelude.Texts.{sprint_int}
use dalikamata.Platform.{Platform}
use dalikamata.Model.{Repo, Commit, PullRequest, RepoOnboarding}
use dalikamata.Config.Files.{LoadError, Invalid, RepoFile, parse_repo_file, to_repo_onboarding}
use dalikamata.Repo.Memory.{text_at}
use dalikamata.Bitbucket.Api.{ApiRepo, ApiCommit, ApiPullRequest, Ports, Settings}

-- repoID → newest published SHA, and whether the store was read.
pub record Crawler : Type 0 where
  pub cursors : Dict String
  pub loaded : Bool

pub data CrawlError (E : Type 0) : Type 0 where
  get_repos get_commits get_pull_requests : E → CrawlError E

module _ ⦃go : Platform⦄ {W E Data : Type 0} (ports : Ports W E Data) (settings : Settings) where
  open go use {unix_milli}

  -- A step of the crawl.
  abbrev pub Step : Type 0 → Type 0
  Step A = Crawler × W → (Crawler × W) × A

  abbrev pub pure : {A : Type 0} → A → Step A
  pure a s = (s, a)

  abbrev pub then_do : {A B : Type 0} → Step A → (A → Step B) → Step B
  then_do m k s = k (m s).1 (m s).0

  -- A call of a port, which leaves the crawler's own state alone.
  abbrev pub call : {A : Type 0} → (W → W × A) → Step A
  call f s = ((s.0, (f s.1).0), (f s.1).1)

  abbrev pub new_repo_id : String → String → String
  new_repo_id project_key repo_slug = ports.path_join (project_key ∷ repo_slug ∷ [])

  abbrev pub set_cursors : (Dict String → Dict String) → Step (Unit {0})
  set_cursors f s = ((record s.0 { cursors = f s.0.cursors }, s.1), tt)

  abbrev pub commit_event : String → ApiCommit → Commit
  commit_event repo_id c = record {
    sha = c.id;
    repo_id = repo_id;
    author = c.author_name;
    timestamp = unix_milli c.author_timestamp;
  }

  -- A commit that cannot be published is logged, and the loop goes on.
  unfoldable pub publish_commits : String → List ApiCommit → Step (Unit {0})
  publish_commits repo_id [] = pure tt
  publish_commits repo_id (c ∷ cs) =
      then_do (call (ports.publish_commit (commit_event repo_id c)))
        (λ _. publish_commits repo_id cs)

  -- A cursor that fails is cleared, in the store and in memory, and all commits are fetched.
  abbrev pub retry_commits :
      String → String → String → Result E (List ApiCommit) → Step (Result E (List ApiCommit))
  retry_commits project_key repo_slug since (ok cs) = pure (ok cs)
  retry_commits project_key repo_slug since (err e) =
      if since == ""
      then pure (err e)
      else (let repo_id = new_repo_id project_key repo_slug in
          then_do (call (ports.clear repo_id)) (λ _.
            then_do (set_cursors (delete repo_id))
              (λ _. call (ports.get_commits project_key repo_slug ""))))

  -- The cursor in memory moves only if the store has taken it.
  abbrev pub keep_cursor : String → String → Option E → Step (Result (CrawlError E) Bool)
  keep_cursor repo_id sha (some e) = pure (ok true)
  keep_cursor repo_id sha none = then_do (set_cursors (insert repo_id sha)) (λ _. pure (ok true))

  abbrev pub take_commits : String → Result E (List ApiCommit) → Step (Result (CrawlError E) Bool)
  take_commits repo_id (err e) = pure (err (CrawlError.get_commits e))
  take_commits repo_id (ok []) = pure (ok false)
  take_commits repo_id (ok (c ∷ cs)) =
      then_do (publish_commits repo_id (c ∷ cs))
        (λ _. then_do (call (ports.save repo_id c.id)) (λ saved. keep_cursor repo_id c.id saved))

  unfoldable pub crawl_commits : String → String → Step (Result (CrawlError E) Bool)
  crawl_commits project_key repo_slug s =
      let repo_id = new_repo_id project_key repo_slug in
      let since = text_at repo_id s.0.cursors in
      then_do
        (then_do (call (ports.get_commits project_key repo_slug since))
          (retry_commits project_key repo_slug since))
        (take_commits repo_id) s

  abbrev pub pull_request_event : String → String → ApiPullRequest → PullRequest
  pull_request_event project_key repo_slug pr = record {
    id = ports.path_join (project_key ∷ repo_slug ∷ sprint_int pr.id ∷ []);
    repo_id = new_repo_id project_key repo_slug;
    name = sprint_int pr.id;
    title = pr.title;
    description = pr.description;
    state = pr.state;
    author = pr.author_display_name;
    created_at = unix_milli pr.created_date;
    updated_at = unix_milli pr.updated_date;
  }

  unfoldable pub publish_pull_requests : String → String → List ApiPullRequest → Step (Unit {0})
  publish_pull_requests project_key repo_slug [] = pure tt
  publish_pull_requests project_key repo_slug (pr ∷ prs) =
      then_do (call (ports.publish_pull_request (pull_request_event project_key repo_slug pr)))
        (λ _. publish_pull_requests project_key repo_slug prs)

  abbrev pub take_pull_requests :
      String → String → Result E (List ApiPullRequest) → Step (Result (CrawlError E) (Unit {0}))
  take_pull_requests project_key repo_slug (err e) = pure (err (CrawlError.get_pull_requests e))
  take_pull_requests project_key repo_slug (ok prs) =
      then_do (publish_pull_requests project_key repo_slug prs) (λ _. pure (ok tt))

  unfoldable pub crawl_pull_requests : String → String → Step (Result (CrawlError E) (Unit {0}))
  crawl_pull_requests project_key repo_slug =
      then_do (call (ports.get_pull_requests project_key repo_slug))
        (take_pull_requests project_key repo_slug)

  -- The first file found decides, whether it is valid or not.
  abbrev pub onboard_converted : Result Invalid RepoOnboarding → Step (Unit {0})
  onboard_converted (err e) = pure tt
  onboard_converted (ok o) = then_do (call (ports.publish_repo_onboarding o)) (λ _. pure tt)

  abbrev pub onboard_parsed : String → Result (LoadError E) RepoFile → Step (Unit {0})
  onboard_parsed repo_id (err e) = pure tt
  onboard_parsed repo_id (ok f) = onboard_converted (to_repo_onboarding repo_id f)

  abbrev pub onboard_fetched : String → Step (Unit {0}) → Result E (Option Data) → Step (Unit {0})
  onboard_fetched repo_id next (err e) = next
  onboard_fetched repo_id next (ok none) = next
  onboard_fetched repo_id next (ok (some content)) =
      onboard_parsed repo_id (parse_repo_file ports.unmarshal content)

  unfoldable pub try_paths : String → String → String → List String → Step (Unit {0})
  try_paths project_key repo_slug repo_id [] = pure tt
  try_paths project_key repo_slug repo_id (path ∷ paths) =
      then_do (call (ports.get_raw_file project_key repo_slug path))
        (onboard_fetched repo_id (try_paths project_key repo_slug repo_id paths))

  unfoldable pub self_onboard_repo : String → String → String → Step (Unit {0})
  self_onboard_repo project_key repo_slug repo_id =
      if not settings.has_config_publisher || is_empty settings.config_paths
      then pure tt
      else try_paths project_key repo_slug repo_id settings.config_paths

  abbrev pub after_commits :
      String
      → String
      → String
      → Result (CrawlError E) Bool
      → Step (Result (CrawlError E) (Unit {0}))
  after_commits project_key repo_slug repo_id (err e) = pure (err e)
  after_commits project_key repo_slug repo_id (ok has_new) =
      then_do (if has_new then self_onboard_repo project_key repo_slug repo_id else pure tt)
        (λ _. crawl_pull_requests project_key repo_slug)

  unfoldable pub crawl_repo : String → String → String → Step (Result (CrawlError E) (Unit {0}))
  crawl_repo project_key repo_slug repo_id =
      then_do (crawl_commits project_key repo_slug) (after_commits project_key repo_slug repo_id)

  -- A repo that fails is logged, and the loop goes on.
  unfoldable pub crawl_repos : String → List ApiRepo → Step (Unit {0})
  crawl_repos project_key [] = pure tt
  crawl_repos project_key (api_repo ∷ repos) =
      let repo_id = new_repo_id project_key api_repo.slug in
      then_do (call (ports.publish_repo (record { repo_id = repo_id; name = api_repo.name }))) (λ _.
        then_do (crawl_repo project_key api_repo.slug repo_id) (λ _. crawl_repos project_key repos))

  abbrev pub take_repos : String → Result E (List ApiRepo) → Step (Result (CrawlError E) (Unit {0}))
  take_repos project_key (err e) = pure (err (CrawlError.get_repos e))
  take_repos project_key (ok repos) = then_do (crawl_repos project_key repos) (λ _. pure (ok tt))

  unfoldable pub crawl_project : String → Step (Result (CrawlError E) (Unit {0}))
  crawl_project project_key = then_do (call (ports.get_repos project_key)) (take_repos project_key)

  unfoldable pub crawl_projects : List String → Step (Unit {0})
  crawl_projects [] = pure tt
  crawl_projects (project_key ∷ keys) =
      then_do (crawl_project project_key) (λ _. crawl_projects keys)

  -- Cursors that cannot be read are none: everything is fetched again.
  abbrev pub loaded_cursors : Result E (Dict String) → Step (Unit {0})
  loaded_cursors (ok m) s = ((record { cursors = m; loaded = true }, s.1), tt)
  loaded_cursors (err e) s = ((record { cursors = []; loaded = true }, s.1), tt)

  unfoldable pub hydrate : Step (Unit {0})
  hydrate s = if s.0.loaded then pure tt s else then_do (call ports.load) loaded_cursors s

  unfoldable pub crawl : Step (Unit {0})
  crawl = then_do hydrate (λ _. crawl_projects settings.projects)
