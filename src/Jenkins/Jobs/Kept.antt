-- ===== src/Jenkins/Jobs/Kept.antt =====
-- internal/ingest/jenkins/crawler.go: what the listing of jobs keeps of the world, namely all that
-- each call of GetJobs keeps.
use dalikamata.Prelude.{
  ℕ, zero, suc, String, Option, none, some, List, [], ◌∷◌, ◌==◌, Result, ok, err, Bool-cases, inl,
  inr,
}
use dalikamata.Prelude.Dict.{Dict, lookup}
use dalikamata.Prelude.Paths.{path_dir}
use dalikamata.Prelude.Steps.{Step, Preserves}
use dalikamata.Platform.{Platform}
use dalikamata.Jenkins.Api.{ApiJob, JobEntry, JobPorts}
use dalikamata.Jenkins.Jobs.{
  class_workflow_job, class_folder, class_multibranch_pipeline, full_path, mark_branch, Found,
  take_sub, discover_each, take_jobs, discover_jobs, cached, add_listing, root_or, classify_each,
  classify_configured_jobs, configured_or_all,
}

module _ ⦃go : Platform⦄ {W E : Type 0} (ports : JobPorts W E) (Inv : W → Type 0)
    (get_jobs-Preserves : (path : String) → Preserves Inv (ports.get_jobs path)) where
  take_sub-Preserves :
      (mark : JobEntry → JobEntry) (found : List JobEntry)
      (next : List JobEntry → Step W (Found ports)) (answer : Found ports)
      → ((more : List JobEntry) → Preserves Inv (next more))
      → Preserves Inv (take_sub ports mark found next answer)
  take_sub-Preserves mark found next none remembers w h = h
  take_sub-Preserves mark found next (some (err e)) remembers w h = remembers found w h
  take_sub-Preserves mark found next (some (ok sub)) remembers w h = remembers _ w h

  discover_each-Preserves :
      (discover : String → Step W (Found ports)) (path : String) (jobs : List ApiJob)
      (found : List JobEntry)
      → ((below : String) → Preserves Inv (discover below))
      → Preserves Inv (discover_each ports discover path found jobs)
  unfolding discover_each
  discover_each-Preserves discover path [] found remembers w h = h
  discover_each-Preserves discover path (j ∷ jobs) found remembers w h =
      let below = full_path path j.name in
      let next : (more : List JobEntry)
          → Preserves Inv (discover_each ports discover path more jobs) =
        λ more. discover_each-Preserves discover path jobs more remembers in
      let sub = discover below w in
      elim (Bool-cases (j.job_class == class_workflow_job)) [
        | inl job ↦ rw job (next _ w h)
        | inr no_job ↦ elim (Bool-cases (j.job_class == class_folder)) [
          | inl folder ↦
              rw (no_job, folder)
                (take_sub-Preserves (λ e. e) found
                  (λ more. discover_each ports discover path more jobs) sub.1 next sub.0
                  (remembers below w h))
          | inr no_folder ↦ elim (Bool-cases (j.job_class == class_multibranch_pipeline)) [
            | inl multibranch ↦
                rw (no_job, no_folder, multibranch)
                  (take_sub-Preserves mark_branch found
                    (λ more. discover_each ports discover path more jobs) sub.1 next sub.0
                    (remembers below w h))
            | inr other ↦ rw (no_job, no_folder, other) (next found w h)
          ]
        ]
      ]

  take_jobs-Preserves :
      (next : List ApiJob → Step W (Found ports)) (answer : Result E (List ApiJob))
      → ((jobs : List ApiJob) → Preserves Inv (next jobs))
      → Preserves Inv (take_jobs ports next answer)
  take_jobs-Preserves next (err e) keeps w h = h
  take_jobs-Preserves next (ok jobs) keeps w h = keeps jobs w h

  discover_jobs-Preserves :
      (fuel : ℕ) (path : String) → Preserves Inv (discover_jobs ports fuel path)
  unfolding discover_jobs
  discover_jobs-Preserves zero path w h = h
  discover_jobs-Preserves (suc fuel) path w h =
      let listed = ports.get_jobs path w in
      take_jobs-Preserves (discover_each ports (discover_jobs ports fuel) path []) listed.1
        (λ jobs.
          discover_each-Preserves (discover_jobs ports fuel) path jobs []
            (discover_jobs-Preserves fuel))
        listed.0 (get_jobs-Preserves path w h)

  add_listing-Preserves :
      (cache : Dict (List ApiJob)) (path : String) (answer : Result E (List ApiJob))
      → Preserves Inv (add_listing ports cache path answer)
  add_listing-Preserves cache path (err e) w h = h
  add_listing-Preserves cache path (ok jobs) w h = h

  cached-Preserves :
      (cache : Dict (List ApiJob)) (path : String) (found : Option (List ApiJob))
      → Preserves Inv (cached ports cache path found)
  cached-Preserves cache path (some jobs) w h = h
  cached-Preserves cache path none w h =
      let listed = ports.get_jobs path w in
      add_listing-Preserves cache path listed.1 listed.0 (get_jobs-Preserves path w h)

  classify_each-Preserves :
      (jobs : List String) (cache : Dict (List ApiJob)) (entries : List JobEntry)
      → Preserves Inv (classify_each ports cache entries jobs)
  unfolding classify_each
  classify_each-Preserves [] cache entries w h = h
  classify_each-Preserves (p ∷ jobs) cache entries w h =
      let folder = root_or (path_dir (path_dir p)) in
      elim (Bool-cases (path_dir p == ".")) [
        | inl top ↦ rw top (classify_each-Preserves jobs cache _ w h)
        | inr nested ↦ rw nested (
            classify_each-Preserves jobs _ _ (cached ports cache folder (lookup folder cache) w).0
              (cached-Preserves cache folder (lookup folder cache) w h))
      ]

  -- Finding the entries, configured or discovered, keeps what each listing keeps.
  pub configured_or_all-Preserves :
      (fuel : ℕ) (jobs : List String) → Preserves Inv (configured_or_all ports fuel jobs)
  unfolding classify_configured_jobs
  configured_or_all-Preserves fuel [] = discover_jobs-Preserves fuel ""
  configured_or_all-Preserves fuel (job ∷ jobs) = classify_each-Preserves (job ∷ jobs) [] []
