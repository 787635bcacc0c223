-- ===== src/Jenkins/Crawler/Backed.antt =====
-- internal/ingest/jenkins/crawler.go: the cursors in memory and the store, through a crawl.
use dalikamata.Prelude.{
  ℕ, suc, String, ◌≡◌, refl, ◌==◌, eq_iff, arith, Option, none, some, List, [], ◌∷◌, Result, ok,
  err, if-elim, Bool-cases, Option-cases, inl, inr, subst, sym, is_empty,
}
use dalikamata.Prelude.Int.{ℤ, pos, ltb_ℤ, eqb_ℤ}
use dalikamata.Prelude.Dict.{Dict, lookup, lookup-insert, lookup-delete}
use dalikamata.Prelude.Steps.{Step, then_do, Preserves}
use dalikamata.Platform.{Platform}
use dalikamata.Model.{Workflow, WorkflowRun, WorkflowTask}
use dalikamata.Jenkins.Api.{ApiBuild, ApiStage, JobEntry, JobPorts, JobSettings}
use dalikamata.Jenkins.Builds.{max_published}
use dalikamata.Jenkins.Jobs.{Found, configured_or_all}
use dalikamata.Jenkins.Jobs.Kept.{configured_or_all-Preserves}
use dalikamata.Jenkins.Crawler.{
  JobCrawler, number_or_zero, all_builds, EntryWithBuilds, call_port, publish_stages, crawl_job,
  fetch_new_builds, probed, probe, group_entries, keep_number, crawl_group_jobs, crawl_groups,
  loaded_numbers, hydrate_numbers, crawl_entries, crawl,
}

module _ ⦃go : Platform⦄ {W E : Type 0} (ports : JobPorts W E) where
  -- A history of the store: which cursors it has ever returned or accepted. No call forgets one.
  pub record IsJobHistory (known : String → ℤ → W → Type 0) : Type 0 where
    pub accepted :
        (k : String) (v : ℤ) (w : W) → (ports.save k v w).1 ≡ none → known k v (ports.save k v w).0
    pub returned :
        (k : String) (v : ℤ) (m : Dict ℤ) (w : W)
        → (ports.load w).1 ≡ ok m
        → lookup k m ≡ some v
        → known k v (ports.load w).0
    pub load : (k : String) (v : ℤ) (w : W) → known k v w → known k v (ports.load w).0
    pub save :
        (a : String) (b : ℤ) (k : String) (v : ℤ) (w : W)
        → known k v w
        → known k v (ports.save a b w).0
    pub clear : (a k : String) (v : ℤ) (w : W) → known k v w → known k v (ports.clear a w).0
    pub get_jobs : (a k : String) (v : ℤ) (w : W) → known k v w → known k v (ports.get_jobs a w).0
    pub get_builds :
        (a k : String) (v : ℤ) (w : W) → known k v w → known k v (ports.get_builds a w).0
    pub get_last_completed_build_number :
        (a k : String) (v : ℤ) (w : W)
        → known k v w
        → known k v (ports.get_last_completed_build_number a w).0
    pub get_stages :
        (a : String) (b : ℤ) (k : String) (v : ℤ) (w : W)
        → known k v w
        → known k v (ports.get_stages a b w).0
    pub publish_workflow :
        (x : Workflow) (k : String) (v : ℤ) (w : W)
        → known k v w
        → known k v (ports.publish_workflow x w).0
    pub publish_workflow_run :
        (x : WorkflowRun) (k : String) (v : ℤ) (w : W)
        → known k v w
        → known k v (ports.publish_workflow_run x w).0
    pub publish_workflow_task :
        (x : WorkflowTask) (k : String) (v : ℤ) (w : W)
        → known k v w
        → known k v (ports.publish_workflow_task x w).0

  module _ (known : String → ℤ → W → Type 0) where
    -- Each cursor in memory is one that the store has returned or accepted.
    abbrev pub IsBackedUp : JobCrawler × W → Type 0
    IsBackedUp s = (k : String) (v : ℤ) → lookup k s.0.cursors ≡ some v → known k v s.1

    abbrev Remembers : {A : Type 0} → Step W A → Type 0
    Remembers f = (k : String) (v : ℤ) → Preserves (known k v) f

    module _ (settings : JobSettings) (history : IsJobHistory known) where
      abbrev Keeps : {A : Type 0} → Step (JobCrawler × W) A → Type 0
      Keeps m = Preserves IsBackedUp m

      publish_stages-Preserves :
          (id : String) (i : ℕ) (stages : List ApiStage)
          → Keeps (publish_stages ports settings id i stages)
      unfolding publish_stages
      publish_stages-Preserves id i [] s h = h
      publish_stages-Preserves id i (st ∷ stages) s h =
          publish_stages-Preserves id (suc i) stages _
            (λ k v e. history.publish_workflow_task _ k v s.1 (h k v e))

      crawl_job-Preserves :
          (path id : String) (builds : List ApiBuild)
          → Keeps (crawl_job ports settings path id builds)
      unfolding crawl_job
      crawl_job-Preserves path id [] s h = h
      crawl_job-Preserves path id (b ∷ builds) s h = crawl_job-Preserves path id builds _ (
          publish_stages-Preserves _ 0 _ _ (λ k v e.
            history.get_stages path b.number k v _
              (history.publish_workflow_run _ k v s.1 (h k v e))))

      fetch_new_builds-Preserves :
          (path : String) (cursor : ℤ) → Keeps (fetch_new_builds ports settings path cursor)
      unfolding fetch_new_builds
      fetch_new_builds-Preserves path cursor s h k v e = history.get_builds path k v s.1 (h k v e)

      probed-Preserves :
          (path : String) (cursor : ℤ) (answer : Result E (Option ℤ))
          → Keeps (probed ports settings path cursor answer)
      probed-Preserves path cursor (err e) s h = fetch_new_builds-Preserves path cursor s h
      probed-Preserves path cursor (ok none) s h = h
      probed-Preserves path cursor (ok (some last)) s h = elim (Bool-cases (ltb_ℤ last cursor)) [
        | inl behind ↦ rw behind (
            fetch_new_builds-Preserves path (pos 0) _ (λ k v e.
              history.clear path k v s.1
                (h k v (ground (arith, lookup-delete path k s.0.cursors)))))
        | inr ahead ↦ elim (Bool-cases (eqb_ℤ last cursor)) [
          | inl same ↦ rw (ahead, same) h
          | inr newer ↦ rw (ahead, newer) (fetch_new_builds-Preserves path cursor s h)
        ]
      ]

      probe-Preserves : (e : JobEntry) → Keeps (probe ports settings e)
      unfolding probe
      probe-Preserves e s h =
          probed-Preserves e.path (number_or_zero (lookup e.path s.0.cursors))
            (ports.get_last_completed_build_number e.path s.1).1
            (s.0, (ports.get_last_completed_build_number e.path s.1).0)
            (λ k v f. history.get_last_completed_build_number e.path k v s.1 (h k v f))

      group_entries-Preserves :
          (entries : List JobEntry) (groups : Dict (List EntryWithBuilds))
          → Keeps (group_entries ports settings groups entries)
      unfolding group_entries
      group_entries-Preserves [] groups s h = h
      group_entries-Preserves (e ∷ entries) groups s h =
          group_entries-Preserves entries _ (probe ports settings e s).0 (probe-Preserves e s h)

      -- The cursor moves only with the store's acceptance.
      save-Preserves :
          (path : String) (number : ℤ)
          → Keeps (
              then_do
                (call_port ports settings (ports.save path number))
                (keep_number ports settings path number))
      save-Preserves path number s h = elim (Option-cases (ports.save path number s.1).1) [
        | inr (e, refused) ↦ rw refused (λ k v f. history.save path number k v s.1 (h k v f))
        | inl accepted ↦ rw accepted (λ k v f. elim (Bool-cases (path == k)) [
          | inl same ↦
              let key : path ≡ k = (eq_iff path k).0 same in
              let value : number ≡ v = ground (arith, lookup-insert path k number s.0.cursors) in
              subst (λ x. known x v (ports.save path number s.1).0) key
                (subst (λ y. known path y (ports.save path number s.1).0) value
                  (history.accepted path number s.1 accepted))
          | inr other ↦
              history.save path number k v s.1
                (h k v (ground (arith, lookup-insert path k number s.0.cursors)))
        ])
      ]

      crawl_group_jobs-Preserves :
          (pp : String) (group : List EntryWithBuilds)
          → Keeps (crawl_group_jobs ports settings pp group)
      unfolding crawl_group_jobs
      crawl_group_jobs-Preserves pp [] s h = h
      crawl_group_jobs-Preserves pp (j ∷ js) s h = elim (Bool-cases (is_empty j.builds)) [
        | inl nothing ↦ rw nothing (crawl_group_jobs-Preserves pp js s h)
        | inr new ↦ rw new (
            crawl_group_jobs-Preserves pp js _ (
              save-Preserves j.entry.path (max_published j.builds) _
                (crawl_job-Preserves j.entry.path pp j.builds s h)))
      ]

      crawl_groups-Preserves :
          (groups : Dict (List EntryWithBuilds)) → Keeps (crawl_groups ports settings groups)
      unfolding crawl_groups
      crawl_groups-Preserves [] s h = h
      crawl_groups-Preserves ((pp, group) ∷ groups) s h =
          elim (Bool-cases (is_empty (all_builds group))) [
            | inl nothing ↦ rw nothing (crawl_groups-Preserves groups s h)
            | inr new ↦ rw new (
                crawl_groups-Preserves groups _ (
                  crawl_group_jobs-Preserves pp group _
                    (λ k v e. history.publish_workflow _ k v s.1 (h k v e))))
          ]

      loaded_numbers-Preserves :
          (r : Result E (Dict ℤ)) (s : JobCrawler × W)
          → r ≡ (ports.load s.1).1
          → IsBackedUp (loaded_numbers ports settings r (call_port ports settings ports.load s).0).0
      unfolding lookup
      loaded_numbers-Preserves (ok m) s e k v f = history.returned k v m s.1 (sym e) f
      loaded_numbers-Preserves (err x) s e k v f = absurd cc

      hydrate_numbers-Preserves : Keeps (hydrate_numbers ports settings)
      unfolding hydrate_numbers
      hydrate_numbers-Preserves s h =
          if-elim (λ (t : (JobCrawler × W) × Unit {0}). IsBackedUp t.0) s.0.loaded (s, tt)
            (loaded_numbers ports settings (ports.load s.1).1
              (call_port ports settings ports.load s).0)
            h (loaded_numbers-Preserves (ports.load s.1).1 s refl)

      crawl_entries-Preserves : (found : Found ports) → Keeps (crawl_entries ports settings found)
      crawl_entries-Preserves none s h = h
      crawl_entries-Preserves (some (err e)) s h = h
      crawl_entries-Preserves (some (ok entries)) s h =
          let grouped = group_entries ports settings [] entries s in
          crawl_groups-Preserves grouped.1 grouped.0 (group_entries-Preserves entries [] s h)

      -- A crawl, whatever its calls answer, leaves in memory only build numbers that the store has
      -- returned or accepted as that job's cursor, if that was so before.
      pub crawl-IsBackedUp :
          (fuel : ℕ) (s : JobCrawler × W)
          → IsBackedUp s
          → IsBackedUp (crawl ports settings fuel s).0
      unfolding crawl
      crawl-IsBackedUp fuel s h =
          let hydrated = (hydrate_numbers ports settings s).0 in
          let found = configured_or_all ports fuel settings.jobs hydrated.1 in
          crawl_entries-Preserves found.1 (hydrated.0, found.0)
            (λ k v e.
              configured_or_all-Preserves ports (known k v) (λ path. history.get_jobs path k v) fuel
                settings.jobs hydrated.1 (hydrate_numbers-Preserves s h k v e))
