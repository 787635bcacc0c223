-- ===== src/Jenkins/Jobs/Discovered.antt =====
-- internal/ingest/jenkins/crawler.go: the discovery of the jobs of a server with finitely nested
-- folders.
use mathlib.Core.List.{append_assoc, append-nil}
use dalikamata.Prelude.{
  ℕ, zero, suc, ◌≤◌, String, ◌≡◌, refl, ◌∙◌, Bool, false, ◌||◌, some, List, [], ◌∷◌, ◌++◌, ◌==◌,
  arith, ok, map, if◌then◌else◌, ltb,
}
use dalikamata.Platform.{Platform}
use dalikamata.Jenkins.Api.{ApiJob, JobEntry, JobPorts}
use dalikamata.Jenkins.Jobs.{
  class_workflow_job, class_folder, class_multibranch_pipeline, full_path, mark_branch,
  discover_each, discover_jobs,
}

-- What a folder holds, in the order of the server's answer.
pub data JobTree : Type 0 where
  no_items : JobTree
  job : (name : String) (rest : JobTree) → JobTree
  folder multibranch : (name : String) (items : JobTree) (rest : JobTree) → JobTree
  other : (job_class : String) (name : String) (rest : JobTree) → JobTree

abbrev api_job : String → String → ApiJob
api_job job_class name = record { job_class = job_class; name = name }

abbrev pub listing : JobTree → List ApiJob
listing no_items = []
listing (job name rest) = api_job class_workflow_job name ∷ listing rest
listing (folder name items rest) = api_job class_folder name ∷ listing rest
listing (multibranch name items rest) = api_job class_multibranch_pipeline name ∷ listing rest
listing (other job_class name rest) = api_job job_class name ∷ listing rest

-- The workflow jobs of the tree with their paths. All below a multibranch pipeline are branches, at
-- any depth, and not its direct children only.
abbrev pub entries : String → JobTree → List JobEntry
entries path no_items = []
entries path (job name rest) =
    record { path = full_path path name; is_branch = false } ∷ entries path rest
entries path (folder name items rest) = entries (full_path path name) items ++ entries path rest
entries path (multibranch name items rest) =
    map mark_branch (entries (full_path path name) items) ++ entries path rest
entries path (other job_class name rest) = entries path rest

abbrev max : ℕ → ℕ → ℕ
max a b = if ltb a b then b else a

-- How many listings lie on top of each other.
abbrev pub depth : JobTree → ℕ
depth no_items = 1
depth (job name rest) = depth rest
depth (folder name items rest) = max (suc (depth items)) (depth rest)
depth (multibranch name items rest) = max (suc (depth items)) (depth rest)
depth (other job_class name rest) = depth rest

abbrev is_known : String → Bool
is_known c = c == class_workflow_job || (c == class_folder || c == class_multibranch_pipeline)

depth_positive : (items : JobTree) → 1 ≤ depth items
depth_positive no_items = omega arith
depth_positive (job name rest) = depth_positive rest
depth_positive (folder name items rest) = ground (arith, depth_positive rest)
depth_positive (multibranch name items rest) = ground (arith, depth_positive rest)
depth_positive (other job_class name rest) = depth_positive rest

map_id : (es : List JobEntry) → map (λ sub. sub) es ≡ es
map_id [] = refl
map_id (e ∷ es) = rw (map_id es) refl

module _ ⦃go : Platform⦄ {W E : Type 0} (ports : JobPorts W E) where
  abbrev Lists : String → JobTree → Type 0
  Lists path items = (w : W) → (ports.get_jobs path w).1 ≡ ok (listing items)

  -- The server lists each folder below a path whenever it is asked; the items that are neither jobs
  -- nor folders have other classes.
  abbrev pub ServesItems : String → JobTree → Type 0
  ServesItems path no_items = Unit
  ServesItems path (job name rest) = ServesItems path rest
  ServesItems path (folder name items rest) =
      Lists (full_path path name) items
      × (ServesItems (full_path path name) items × ServesItems path rest)
  ServesItems path (multibranch name items rest) =
      Lists (full_path path name) items
      × (ServesItems (full_path path name) items × ServesItems path rest)
  ServesItems path (other job_class name rest) =
      (is_known job_class ≡ false) × ServesItems path rest

  abbrev pub Serves : String → JobTree → Type 0
  Serves path items = Lists path items × ServesItems path items

  -- What discovery with some fuel finds in each folder that is not nested deeper.
  abbrev Finds : ℕ → Type 0
  Finds fuel =
      (path : String) (items : JobTree) (w : W)
      → depth items ≤ fuel
      → Serves path items
      → (discover_jobs ports fuel path w).1 ≡ some (ok (entries path items))

  discover_each_lem :
      (fuel : ℕ) (path : String) (items : JobTree) (found : List JobEntry) (w : W)
      → Finds fuel
      → depth items ≤ suc fuel
      → ServesItems path items
      → (discover_each ports (discover_jobs ports fuel) path found (listing items) w).1
        ≡ some (ok (found ++ entries path items))
  unfolding discover_each
  discover_each_lem fuel path no_items found w finds deep serves = rw append-nil refl
  discover_each_lem fuel path (job name rest) found w finds deep serves =
      let e : JobEntry = record { path = full_path path name; is_branch = false } in
      discover_each_lem fuel path rest (found ++ (e ∷ [])) w finds deep serves
      ∙ rw (append_assoc found (e ∷ []) (entries path rest)) refl
  discover_each_lem fuel path (folder name items rest) found w finds deep serves =
      let sub = full_path path name in
      let after = (discover_jobs ports fuel sub w).0 in
      let sub_finds = finds sub items w (ground arith) (serves.0, serves.1.0) in
      rw sub_finds (
        discover_each_lem fuel path rest (found ++ map (λ e. e) (entries sub items)) after finds
          (ground arith) serves.1.1
        ∙ rw
            (map_id (entries sub items), append_assoc found (entries sub items) (entries path rest))
            refl)
  discover_each_lem fuel path (multibranch name items rest) found w finds deep serves =
      let sub = full_path path name in
      let after = (discover_jobs ports fuel sub w).0 in
      let sub_finds = finds sub items w (ground arith) (serves.0, serves.1.0) in
      rw (sub_finds) (
        discover_each_lem fuel path rest (found ++ map mark_branch (entries sub items)) after finds
          (ground arith) serves.1.1
        ∙ rw (append_assoc found (map mark_branch (entries sub items)) (entries path rest)) refl)
  discover_each_lem fuel path (other job_class name rest) found w finds deep serves =
      let no_job : (job_class == class_workflow_job) ≡ false = ground arith in
      let no_folder : (job_class == class_folder) ≡ false = ground arith in
      let no_multibranch : (job_class == class_multibranch_pipeline) ≡ false = ground arith in
      rw (no_job, no_folder, no_multibranch)
        (discover_each_lem fuel path rest found w finds deep serves.1)

  -- On a server whose folders are nested finitely deep, and that lists each of them whenever it is
  -- asked, discovery ends and finds the workflow jobs of all folders, in order, with any fuel that
  -- is at least the depth. A job is marked as a branch if it is below a multibranch pipeline, also
  -- where folders lie between them.
  pub discover_jobs_lem :
      (path : String) (items : JobTree) (fuel : ℕ) (w : W)
      → Serves path items
      → depth items ≤ fuel
      → (discover_jobs ports fuel path w).1 ≡ some (ok (entries path items))
  unfolding discover_jobs
  discover_jobs_lem path items zero w serves deep = absurd (ground (arith, depth_positive items))
  discover_jobs_lem path items (suc fuel) w serves deep = rw (serves.0 w) (
      discover_each_lem fuel path items [] (ports.get_jobs path w).0
        (λ p t v d s. discover_jobs_lem p t fuel v s d) deep serves.1)
