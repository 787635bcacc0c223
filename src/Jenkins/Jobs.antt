-- ===== src/Jenkins/Jobs.antt =====
-- internal/ingest/jenkins/crawler.go: which jobs are crawled, and the pipeline each belongs to.
pub mod Discovered
pub mod Kept
use dalikamata.Prelude.{
  ℕ, zero, suc, String, Bool, true, false, ◌&&◌, Option, none, some, List, [], ◌∷◌, ◌++◌, ◌==◌,
  if◌then◌else◌, Result, ok, err, any, map,
}
use dalikamata.Prelude.Dict.{Dict, lookup, insert}
use dalikamata.Prelude.Texts.{concat}
use dalikamata.Prelude.Paths.{path_dir, path_base}
use dalikamata.Prelude.Steps.{Step, pure, then_do}
use dalikamata.Platform.{Platform}
use dalikamata.Jenkins.Api.{ApiJob, JobEntry, JobPorts}

abbrev pub class_workflow_job : String
class_workflow_job = "org.jenkinsci.plugins.workflow.job.WorkflowJob"

abbrev pub class_folder : String
class_folder = "com.cloudbees.hudson.plugins.folder.Folder"

abbrev pub class_multibranch_pipeline : String
class_multibranch_pipeline = "org.jenkinsci.plugins.workflow.multibranch.WorkflowMultiBranchProject"

-- All branches of a multibranch pipeline share its path.
unfoldable pub pipeline_path : JobEntry → String
pipeline_path e = if e.is_branch then path_dir e.path else e.path

abbrev pub full_path : String → String → String
full_path folder_path name =
    if folder_path == "" then name else concat folder_path (concat "/" name)

abbrev pub mark_branch : JobEntry → JobEntry
mark_branch sub = record { path = sub.path; is_branch = true }

-- The jobs with the cache of the folders that were listed.
abbrev pub or_no_jobs : Option (List ApiJob) → List ApiJob
or_no_jobs none = []
or_no_jobs (some jobs) = jobs

abbrev is_multibranch : String → ApiJob → Bool
is_multibranch parent_name sibling =
    sibling.name == parent_name && sibling.job_class == class_multibranch_pipeline

-- The root folder has the empty path.
abbrev pub root_or : String → String
root_or grandparent = if grandparent == "." then "" else grandparent

module _ ⦃go : Platform⦄ {W E : Type 0} (ports : JobPorts W E) where
  -- `none` is a discovery that the fuel does not suffice for.
  abbrev pub Found : Type 0
  Found = Option (Result E (List JobEntry))

  -- A folder that cannot be listed is logged, and the loop goes on.
  abbrev pub take_sub :
      (JobEntry → JobEntry) → List JobEntry → (List JobEntry → Step W Found) → Found → Step W Found
  take_sub mark found next none = pure none
  take_sub mark found next (some (err e)) = next found
  take_sub mark found next (some (ok sub)) = next (found ++ map mark sub)

  unfoldable pub discover_each :
      (String → Step W Found) → String → List JobEntry → List ApiJob → Step W Found
  discover_each discover folder_path found [] = pure (some (ok found))
  discover_each discover folder_path found (job ∷ jobs) =
      let next : List JobEntry → Step W Found =
        λ more. discover_each discover folder_path more jobs in
      let path = full_path folder_path job.name in
      if job.job_class == class_workflow_job
      then next (found ++ (record { path = path; is_branch = false } ∷ []))
      else if job.job_class == class_folder
      then then_do (discover path) (take_sub (λ sub. sub) found next)
      else if job.job_class == class_multibranch_pipeline
      then then_do (discover path) (take_sub mark_branch found next)
      else next found

  abbrev pub take_jobs : (List ApiJob → Step W Found) → Result E (List ApiJob) → Step W Found
  take_jobs next (err e) = pure (some (err e))
  take_jobs next (ok jobs) = next jobs

  -- The fuel bounds how deep folders are nested.
  unfoldable pub discover_jobs : ℕ → String → Step W Found
  discover_jobs zero folder_path = pure none
  discover_jobs (suc fuel) folder_path =
      then_do (ports.get_jobs folder_path)
        (take_jobs (discover_each (discover_jobs fuel) folder_path []))

  abbrev pub add_listing :
      Dict (List ApiJob) → String → Result E (List ApiJob) → Step W (Dict (List ApiJob))
  add_listing cache grandparent (err e) = pure (insert grandparent [] cache)
  add_listing cache grandparent (ok jobs) = pure (insert grandparent jobs cache)

  -- The listing of a folder is fetched once; one that fails counts as empty.
  abbrev pub cached :
      Dict (List ApiJob) → String → Option (List ApiJob) → Step W (Dict (List ApiJob))
  cached cache grandparent (some jobs) = pure cache
  cached cache grandparent none =
      then_do (ports.get_jobs grandparent) (add_listing cache grandparent)

  unfoldable pub classify_each :
      Dict (List ApiJob) → List JobEntry → List String → Step W (List JobEntry)
  classify_each cache entries [] = pure entries
  classify_each cache entries (p ∷ jobs) =
      let next : Dict (List ApiJob) → JobEntry → Step W (List JobEntry) =
        λ c e. classify_each c (entries ++ (e ∷ [])) jobs in
      let parent = path_dir p in
      let grandparent = root_or (path_dir parent) in
      if parent == "."
      then next cache (record { path = p; is_branch = false })
      else then_do (cached cache grandparent (lookup grandparent cache)) (λ c. next c (record {
        path = p;
        is_branch = any (is_multibranch (path_base parent)) (or_no_jobs (lookup grandparent c));
      }))

  unfoldable pub classify_configured_jobs : List String → Step W (List JobEntry)
  classify_configured_jobs = classify_each [] []

  -- Crawl: the configured jobs, or all that are discovered.
  abbrev pub configured_or_all : ℕ → List String → Step W (Found)
  configured_or_all fuel [] = discover_jobs fuel ""
  configured_or_all fuel (job ∷ jobs) =
      then_do (classify_configured_jobs (job ∷ jobs)) (λ entries. pure (some (ok entries)))
