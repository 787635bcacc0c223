-- ===== src/Bitbucket/Crawler/Cursors.antt =====
-- internal/ingest/bitbucket/crawler.go: the cursors in memory and the store, through crawlCommits.
use dalikamata.Prelude.{
  String, ◌≡◌, none, some, List, [], ◌∷◌, ◌==◌, eq_iff, arith, Result, ok, err, Bool-cases,
  Option-cases, inl, inr, subst,
}
use dalikamata.Prelude.Dict.{Dict, lookup, delete, lookup-insert, lookup-delete}
use dalikamata.Platform.{Platform}
use dalikamata.Model.{Repo, Commit, PullRequest, RepoOnboarding}
use dalikamata.Repo.Memory.{text_at}
use dalikamata.Bitbucket.Api.{ApiCommit, Ports, Settings}
use dalikamata.Bitbucket.Crawler.{
  Crawler, then_do, call, new_repo_id, set_cursors, commit_event, publish_commits, retry_commits,
  keep_cursor, take_commits, crawl_commits,
}

module _ ⦃go : Platform⦄ {W E Data : Type 0} (ports : Ports W E Data) where
  -- A history of the store: which cursors it has ever returned or accepted. No call forgets one.
  pub record IsHistory (known : String → String → W → Type 0) : Type 0 where
    pub accepted :
        (k v : String) (w : W) → (ports.save k v w).1 ≡ none → known k v (ports.save k v w).0
    pub returned :
        (k v : String) (m : Dict String) (w : W)
        → (ports.load w).1 ≡ ok m
        → lookup k m ≡ some v
        → known k v (ports.load w).0
    pub load : (k v : String) (w : W) → known k v w → known k v (ports.load w).0
    pub save : (a b k v : String) (w : W) → known k v w → known k v (ports.save a b w).0
    pub clear : (a k v : String) (w : W) → known k v w → known k v (ports.clear a w).0
    pub get_repos : (a k v : String) (w : W) → known k v w → known k v (ports.get_repos a w).0
    pub get_commits :
        (a b c k v : String) (w : W) → known k v w → known k v (ports.get_commits a b c w).0
    pub get_pull_requests :
        (a b k v : String) (w : W) → known k v w → known k v (ports.get_pull_requests a b w).0
    pub get_raw_file :
        (a b c k v : String) (w : W) → known k v w → known k v (ports.get_raw_file a b c w).0
    pub publish_repo :
        (x : Repo) (k v : String) (w : W) → known k v w → known k v (ports.publish_repo x w).0
    pub publish_commit :
        (x : Commit) (k v : String) (w : W) → known k v w → known k v (ports.publish_commit x w).0
    pub publish_pull_request :
        (x : PullRequest) (k v : String) (w : W)
        → known k v w
        → known k v (ports.publish_pull_request x w).0
    pub publish_repo_onboarding :
        (x : RepoOnboarding) (k v : String) (w : W)
        → known k v w
        → known k v (ports.publish_repo_onboarding x w).0

  module _ (known : String → String → W → Type 0) where
    -- Each cursor in memory is one that the store has returned or accepted.
    abbrev pub IsBacked : Crawler × W → Type 0
    IsBacked s = (k v : String) → lookup k s.0.cursors ≡ some v → known k v s.1

    abbrev pub Keeps : {A : Type 0} → (Crawler × W → (Crawler × W) × A) → Type 0
    Keeps m = (s : Crawler × W) → IsBacked s → IsBacked (m s).0

    module _ (settings : Settings) (history : IsHistory known) where
      pub call-Keeps :
          {A : Type 0} (f : W → W × A)
          → ((k v : String) (w : W) → known k v w → known k v (f w).0)
          → Keeps (call ports settings f)
      call-Keeps f keep s h k v e = keep k v s.1 (h k v e)

      publish_commits-Keeps :
          (repo_id : String) (cs : List ApiCommit)
          → Keeps (publish_commits ports settings repo_id cs)
      unfolding publish_commits
      publish_commits-Keeps repo_id [] s h = h
      publish_commits-Keeps repo_id (c ∷ cs) s h =
          let event = commit_event ports settings repo_id c in
          publish_commits-Keeps repo_id cs (call ports settings (ports.publish_commit event) s).0
            (call-Keeps (ports.publish_commit event) (history.publish_commit event) s h)

      forget-Keeps : (repo_id : String) → Keeps (set_cursors ports settings (delete repo_id))
      forget-Keeps repo_id s h k v e = h k v (ground (arith, lookup-delete repo_id k s.0.cursors))

      retry_commits-Keeps :
          (a b since : String) (r : Result E (List ApiCommit))
          → Keeps (retry_commits ports settings a b since r)
      retry_commits-Keeps a b since (ok cs) s h = h
      retry_commits-Keeps a b since (err e) s h = elim (Bool-cases (since == "")) [
        | inl first ↦ rw first h
        | inr again ↦ rw again (λ k v f.
            history.get_commits a b "" k v (ports.clear (new_repo_id ports settings a b) s.1).0 (
              history.clear (new_repo_id ports settings a b) k v s.1
                (forget-Keeps (new_repo_id ports settings a b) s h k v f)))
      ]

      -- The cursor moves only with the store's acceptance.
      save-Keeps :
          (repo_id sha : String)
          → Keeps (
              then_do ports settings
                (call ports settings (ports.save repo_id sha))
                (keep_cursor ports settings repo_id sha))
      save-Keeps repo_id sha s h = elim (Option-cases (ports.save repo_id sha s.1).1) [
        | inr (e, refused) ↦ rw refused (λ k v f. history.save repo_id sha k v s.1 (h k v f))
        | inl accepted ↦ rw accepted (λ k v f. elim (Bool-cases (repo_id == k)) [
          | inl same ↦
              let key : repo_id ≡ k = (eq_iff repo_id k).0 same in
              let value : sha ≡ v = ground (arith, lookup-insert repo_id k sha s.0.cursors) in
              subst (λ x. known x v (ports.save repo_id sha s.1).0) key
                (subst (λ y. known repo_id y (ports.save repo_id sha s.1).0) value
                  (history.accepted repo_id sha s.1 accepted))
          | inr other ↦
              history.save repo_id sha k v s.1
                (h k v (ground (arith, lookup-insert repo_id k sha s.0.cursors)))
        ])
      ]

      take_commits-Keeps :
          (repo_id : String) (r : Result E (List ApiCommit))
          → Keeps (take_commits ports settings repo_id r)
      take_commits-Keeps repo_id (err e) s h = h
      take_commits-Keeps repo_id (ok []) s h = h
      take_commits-Keeps repo_id (ok (c ∷ cs)) s h =
          save-Keeps repo_id c.id (publish_commits ports settings repo_id (c ∷ cs) s).0
            (publish_commits-Keeps repo_id (c ∷ cs) s h)

      pub crawl_commits-Keeps : (a b : String) → Keeps (crawl_commits ports settings a b)
      unfolding crawl_commits
      crawl_commits-Keeps a b s h =
          let repo_id = new_repo_id ports settings a b in
          let since = text_at repo_id s.0.cursors in
          let first = call ports settings (ports.get_commits a b since) s in
          let fetched = retry_commits ports settings a b since first.1 first.0 in
          take_commits-Keeps repo_id fetched.1 fetched.0 (
            retry_commits-Keeps a b since first.1 first.0
              (call-Keeps (ports.get_commits a b since) (history.get_commits a b since) s h))
