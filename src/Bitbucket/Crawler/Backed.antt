-- ===== src/Bitbucket/Crawler/Backed.antt =====
-- internal/ingest/bitbucket/crawler.go: the cursors in memory and the store, through a crawl.
use dalikamata.Prelude.{
  String, ◌≡◌, refl, Bool, true, false, not, ◌||◌, is_empty, Option, none, some, List, [], ◌∷◌,
  if◌then◌else◌, Result, ok, err, Bool-cases, inl, inr, sym,
}
use dalikamata.Prelude.Dict.{Dict, lookup}
use dalikamata.Platform.{Platform}
use dalikamata.Model.{Repo, RepoOnboarding}
use dalikamata.Config.Files.{LoadError, Invalid, RepoFile, parse_repo_file, to_repo_onboarding}
use dalikamata.Bitbucket.Api.{ApiRepo, ApiPullRequest, Ports, Settings}
use dalikamata.Bitbucket.Crawler.{
  Crawler, CrawlError, Step, call, new_repo_id, crawl_commits, publish_pull_requests,
  pull_request_event, take_pull_requests, crawl_pull_requests, onboard_converted, onboard_parsed,
  onboard_fetched, try_paths, self_onboard_repo, after_commits, crawl_repo, crawl_repos, take_repos,
  crawl_project, crawl_projects, loaded_cursors, hydrate, crawl,
}
use dalikamata.Bitbucket.Crawler.Cursors.{
  IsHistory, IsBacked, Keeps, call-Keeps, crawl_commits-Keeps,
}

module _ ⦃go : Platform⦄ {W E Data : Type 0} (ports : Ports W E Data)
    (known : String → String → W → Type 0) (settings : Settings)
    (history : IsHistory ports known) where
  publish_pull_requests-Keeps :
      (a b : String) (prs : List ApiPullRequest)
      → Keeps ports known (publish_pull_requests ports settings a b prs)
  unfolding publish_pull_requests
  publish_pull_requests-Keeps a b [] s h = h
  publish_pull_requests-Keeps a b (pr ∷ prs) s h =
      let event = pull_request_event ports settings a b pr in
      publish_pull_requests-Keeps a b prs
        (call ports settings (ports.publish_pull_request event) s).0
        (call-Keeps ports known settings history (ports.publish_pull_request event)
          (history.publish_pull_request event) s h)

  take_pull_requests-Keeps :
      (a b : String) (r : Result E (List ApiPullRequest))
      → Keeps ports known (take_pull_requests ports settings a b r)
  take_pull_requests-Keeps a b (err e) s h = h
  take_pull_requests-Keeps a b (ok prs) s h = publish_pull_requests-Keeps a b prs s h

  crawl_pull_requests-Keeps :
      (a b : String) → Keeps ports known (crawl_pull_requests ports settings a b)
  unfolding crawl_pull_requests
  crawl_pull_requests-Keeps a b s h =
      let first = call ports settings (ports.get_pull_requests a b) s in
      take_pull_requests-Keeps a b first.1 first.0 (
        call-Keeps ports known settings history (ports.get_pull_requests a b)
          (history.get_pull_requests a b) s h)

  onboard_converted-Keeps :
      (r : Result Invalid RepoOnboarding) → Keeps ports known (onboard_converted ports settings r)
  onboard_converted-Keeps (err e) s h = h
  onboard_converted-Keeps (ok o) s h =
      call-Keeps ports known settings history (ports.publish_repo_onboarding o)
        (history.publish_repo_onboarding o) s h

  onboard_parsed-Keeps :
      (repo_id : String) (r : Result (LoadError E) RepoFile)
      → Keeps ports known (onboard_parsed ports settings repo_id r)
  onboard_parsed-Keeps repo_id (err e) s h = h
  onboard_parsed-Keeps repo_id (ok f) s h =
      onboard_converted-Keeps (to_repo_onboarding repo_id f) s h

  onboard_fetched-Keeps :
      (repo_id : String) (next : Step ports settings (Unit {0})) (r : Result E (Option Data))
      → Keeps ports known next
      → Keeps ports known (onboard_fetched ports settings repo_id next r)
  onboard_fetched-Keeps repo_id next (err e) keeps s h = keeps s h
  onboard_fetched-Keeps repo_id next (ok none) keeps s h = keeps s h
  onboard_fetched-Keeps repo_id next (ok (some content)) keeps s h =
      onboard_parsed-Keeps repo_id (parse_repo_file ports.unmarshal content) s h

  try_paths-Keeps :
      (a b repo_id : String) (paths : List String)
      → Keeps ports known (try_paths ports settings a b repo_id paths)
  unfolding try_paths
  try_paths-Keeps a b repo_id [] s h = h
  try_paths-Keeps a b repo_id (path ∷ paths) s h =
      let first = call ports settings (ports.get_raw_file a b path) s in
      onboard_fetched-Keeps repo_id (try_paths ports settings a b repo_id paths) first.1
        (try_paths-Keeps a b repo_id paths) first.0
        (call-Keeps ports known settings history (ports.get_raw_file a b path)
          (history.get_raw_file a b path) s h)

  self_onboard_repo-Keeps :
      (a b repo_id : String) → Keeps ports known (self_onboard_repo ports settings a b repo_id)
  unfolding self_onboard_repo
  self_onboard_repo-Keeps a b repo_id s h =
      elim (Bool-cases (not settings.has_config_publisher || is_empty settings.config_paths)) [
        | inl off ↦ rw off h
        | inr on ↦ rw on (try_paths-Keeps a b repo_id settings.config_paths s h)
      ]

  after_commits-Keeps :
      (a b repo_id : String) (r : Result (CrawlError E) Bool)
      → Keeps ports known (after_commits ports settings a b repo_id r)
  after_commits-Keeps a b repo_id (err e) s h = h
  after_commits-Keeps a b repo_id (ok false) s h = crawl_pull_requests-Keeps a b s h
  after_commits-Keeps a b repo_id (ok true) s h =
      crawl_pull_requests-Keeps a b (self_onboard_repo ports settings a b repo_id s).0
        (self_onboard_repo-Keeps a b repo_id s h)

  crawl_repo-Keeps :
      (a b repo_id : String) → Keeps ports known (crawl_repo ports settings a b repo_id)
  unfolding crawl_repo
  crawl_repo-Keeps a b repo_id s h =
      let first = crawl_commits ports settings a b s in
      after_commits-Keeps a b repo_id first.1 first.0
        (crawl_commits-Keeps ports known settings history a b s h)

  crawl_repos-Keeps :
      (a : String) (repos : List ApiRepo) → Keeps ports known (crawl_repos ports settings a repos)
  unfolding crawl_repos
  crawl_repos-Keeps a [] s h = h
  crawl_repos-Keeps a (x ∷ repos) s h =
      let repo_id = new_repo_id ports settings a x.slug in
      let repo : Repo = record { repo_id = repo_id; name = x.name } in
      let published = (call ports settings (ports.publish_repo repo) s).0 in
      crawl_repos-Keeps a repos (crawl_repo ports settings a x.slug repo_id published).0 (
        crawl_repo-Keeps a x.slug repo_id published (
          call-Keeps ports known settings history (ports.publish_repo repo)
            (history.publish_repo repo) s h))

  take_repos-Keeps :
      (a : String) (r : Result E (List ApiRepo)) → Keeps ports known (take_repos ports settings a r)
  take_repos-Keeps a (err e) s h = h
  take_repos-Keeps a (ok repos) s h = crawl_repos-Keeps a repos s h

  crawl_projects-Keeps :
      (projects : List String) → Keeps ports known (crawl_projects ports settings projects)
  unfolding crawl_projects crawl_project
  crawl_projects-Keeps [] s h = h
  crawl_projects-Keeps (a ∷ projects) s h =
      let first = call ports settings (ports.get_repos a) s in
      crawl_projects-Keeps projects (take_repos ports settings a first.1 first.0).0 (
        take_repos-Keeps a first.1 first.0
          (call-Keeps ports known settings history (ports.get_repos a) (history.get_repos a) s h))

  loaded_cursors-Keeps :
      (r : Result E (Dict String)) (s : Crawler × W)
      → r ≡ (ports.load s.1).1
      → IsBacked ports known
          (loaded_cursors ports settings r (call ports settings ports.load s).0).0
  unfolding lookup
  loaded_cursors-Keeps (ok m) s e k v f = history.returned k v m s.1 (sym e) f
  loaded_cursors-Keeps (err x) s e k v f = absurd cc

  either :
      (b : Bool) (x y : (Crawler × W) × Unit {0})
      → IsBacked ports known x.0
      → IsBacked ports known y.0
      → IsBacked ports known (if b then x else y).0
  either true x y hx hy = hx
  either false x y hx hy = hy

  hydrate-Keeps : Keeps ports known (hydrate ports settings)
  unfolding hydrate
  hydrate-Keeps s h =
      either s.0.loaded (s, tt)
        (loaded_cursors ports settings (ports.load s.1).1 (call ports settings ports.load s).0) h
        (loaded_cursors-Keeps (ports.load s.1).1 s refl)

  -- A crawl, whatever its calls answer, leaves in memory only cursors that the store has
  -- returned or accepted, if that was so before. A cursor whose save failed is never
  -- remembered, so the next crawl fetches the commits again.
  pub crawl-IsBacked :
      (s : Crawler × W) → IsBacked ports known s → IsBacked ports known (crawl ports settings s).0
  unfolding crawl
  crawl-IsBacked s h =
      crawl_projects-Keeps settings.projects (hydrate ports settings s).0 (hydrate-Keeps s h)
