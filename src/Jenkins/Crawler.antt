-- ===== src/Jenkins/Crawler.antt =====
-- internal/ingest/jenkins/crawler.go: the crawl, on the crawler's state and the world of its ports.
pub mod Backed
pub mod Groups
use dalikamata.Prelude.{
  ℕ, suc, String, Bool, true, false, Option, none, some, List, [], ◌∷◌, ◌++◌, ◌==◌, if◌then◌else◌,
  is_empty, Result, ok, err,
}
use dalikamata.Prelude.Int.{ℤ, pos, ltb_ℤ, eqb_ℤ}
use dalikamata.Prelude.Dict.{Dict, lookup, insert, delete}
use dalikamata.Prelude.Texts.{concat, sprint_int}
use dalikamata.Prelude.Steps.{Step, pure, then_do}
use dalikamata.Platform.{Platform}
use dalikamata.Model.{Workflow, WorkflowRun, WorkflowTask}
use dalikamata.Jenkins.Api.{ApiBuild, ApiStage, JobEntry, JobPorts, JobSettings}
use dalikamata.Jenkins.Builds.{
  extract_commit_sha, branch_for_job, new_builds, max_published, extract_repo_ids,
}
use dalikamata.Jenkins.Jobs.{pipeline_path, Found, configured_or_all}

-- The highest completed build number published of each job, and whether the store was read.
pub record JobCrawler : Type 0 where
  pub cursors : Dict ℤ
  pub loaded : Bool

pub record EntryWithBuilds : Type 0 where
  pub entry : JobEntry
  pub builds : List ApiBuild

-- A missing key of a `map[string]int` reads as 0, one of a map of groups as an empty group.
abbrev pub number_or_zero : Option ℤ → ℤ
number_or_zero none = pos 0
number_or_zero (some n) = n

abbrev pub or_empty_group : Option (List EntryWithBuilds) → List EntryWithBuilds
or_empty_group none = []
or_empty_group (some group) = group

-- An entry joins its pipeline's group, which is opened by the first one.
unfoldable pub join_group :
    EntryWithBuilds → Dict (List EntryWithBuilds) → Dict (List EntryWithBuilds)
join_group e groups =
    let pp = pipeline_path e.entry in
    insert pp (or_empty_group (lookup pp groups) ++ (e ∷ [])) groups

abbrev pub all_builds : List EntryWithBuilds → List ApiBuild
all_builds [] = []
all_builds (j ∷ js) = j.builds ++ all_builds js

abbrev builds_or_none {ℓ} : {E : Type ℓ} → Result E (List ApiBuild) → List ApiBuild
builds_or_none (ok builds) = builds
builds_or_none (err e) = []

abbrev stages_or_none {ℓ} : {E : Type ℓ} → Result E (List ApiStage) → List ApiStage
stages_or_none (ok stages) = stages
stages_or_none (err e) = []

-- The configured override stands in for repo IDs that no build tells.
abbrev override_ids : Option String → List String
override_ids none = []
override_ids (some repo_id) = repo_id ∷ []

abbrev pub repo_ids_or : List String → Option String → List String
repo_ids_or [] override = override_ids override
repo_ids_or (id ∷ ids) override = id ∷ ids

module _ ⦃go : Platform⦄ {W E : Type 0} (ports : JobPorts W E) (settings : JobSettings) where
  open go use {Float, float_of_int, float_div, unix_milli}

  -- A call of a port, which leaves the crawler's own state alone.
  abbrev pub call_port : {A : Type 0} → Step W A → Step (JobCrawler × W) A
  call_port f s = ((s.0, (f s.1).0), (f s.1).1)

  abbrev pub change_cursors : (Dict ℤ → Dict ℤ) → Step (JobCrawler × W) (Unit {0})
  change_cursors f s = ((record s.0 { cursors = f s.0.cursors }, s.1), tt)

  abbrev seconds : ℤ → Float
  seconds millis = float_div (float_of_int millis) (float_of_int (pos 1000))

  abbrev workflow_run : String → String → ApiBuild → WorkflowRun
  workflow_run job_path workflow_id b = record {
    id = concat job_path (concat "/" (sprint_int b.number));
    workflow_id = workflow_id;
    number = b.number;
    status = b.build_result;
    branch = branch_for_job job_path workflow_id b;
    commit_sha = extract_commit_sha b.actions;
    started_at = unix_milli b.timestamp;
    duration = seconds b.duration;
    workflow_name = "";
    component_names = [];
    team_names = [];
  }

  abbrev workflow_task : String → ℕ → ApiStage → WorkflowTask
  workflow_task build_id i st = record {
    workflow_run_id = build_id;
    order = pos i;
    name = st.name;
    status = st.status;
    started_at = unix_milli st.start_time_millis;
    duration = seconds st.duration_millis;
    workflow_id = "";
    workflow_name = "";
    component_names = [];
    team_names = [];
    branch = "";
  }

  unfoldable pub publish_stages : String → ℕ → List ApiStage → Step (JobCrawler × W) (Unit {0})
  publish_stages build_id i [] = pure tt
  publish_stages build_id i (st ∷ stages) =
      then_do (call_port (ports.publish_workflow_task (workflow_task build_id i st)))
        (λ _. publish_stages build_id (suc i) stages)

  -- A run or a task that cannot be published and stages that cannot be fetched are logged.
  unfoldable pub crawl_job : String → String → List ApiBuild → Step (JobCrawler × W) (Unit {0})
  crawl_job job_path workflow_id [] = pure tt
  crawl_job job_path workflow_id (b ∷ builds) =
      let run = workflow_run job_path workflow_id b in
      then_do (call_port (ports.publish_workflow_run run)) (λ _.
        then_do (call_port (ports.get_stages job_path b.number)) (λ stages.
          then_do (publish_stages run.id 0 (stages_or_none stages))
            (λ _. crawl_job job_path workflow_id builds)))

  unfoldable pub fetch_new_builds : String → ℤ → Step (JobCrawler × W) (List ApiBuild)
  fetch_new_builds path cursor =
      then_do (call_port (ports.get_builds path))
        (λ answer. pure (new_builds cursor (builds_or_none answer)))

  -- A job that was reset: its cursor is dropped and all builds are new.
  abbrev refetch : String → Step (JobCrawler × W) (List ApiBuild)
  refetch path =
      then_do (call_port (ports.clear path))
        (λ _. then_do (change_cursors (delete path)) (λ _. fetch_new_builds path (pos 0)))

  abbrev pub probed : String → ℤ → Result E (Option ℤ) → Step (JobCrawler × W) (List ApiBuild)
  probed path cursor (err e) = fetch_new_builds path cursor
  probed path cursor (ok none) = pure []
  probed path cursor (ok (some last)) =
      if ltb_ℤ last cursor
      then refetch path
      else if eqb_ℤ last cursor
      then pure []
      else fetch_new_builds path cursor

  unfoldable pub probe : JobEntry → Step (JobCrawler × W) (List ApiBuild)
  probe e s =
      let cursor = number_or_zero (lookup e.path s.0.cursors) in
      then_do (call_port (ports.get_last_completed_build_number e.path)) (probed e.path cursor) s

  unfoldable pub group_entries :
      Dict (List EntryWithBuilds)
      → List JobEntry
      → Step (JobCrawler × W) (Dict (List EntryWithBuilds))
  group_entries groups [] = pure groups
  group_entries groups (e ∷ entries) =
      then_do (probe e) (λ builds.
        group_entries (join_group (record { entry = e; builds = builds }) groups) entries)

  -- The cursor in memory moves only if the store has taken it.
  abbrev pub keep_number : String → ℤ → Option E → Step (JobCrawler × W) (Unit {0})
  keep_number path number (some e) = pure tt
  keep_number path number none = change_cursors (insert path number)

  abbrev save_number : String → ℤ → Step (JobCrawler × W) (Unit {0})
  save_number path number = then_do (call_port (ports.save path number)) (keep_number path number)

  unfoldable pub crawl_group_jobs : String → List EntryWithBuilds → Step (JobCrawler × W) (Unit {0})
  crawl_group_jobs pp [] = pure tt
  crawl_group_jobs pp (j ∷ js) =
      then_do
        (if is_empty j.builds
          then pure tt
          else then_do (crawl_job j.entry.path pp j.builds)
              (λ _. save_number j.entry.path (max_published j.builds)))
        (λ _. crawl_group_jobs pp js)

  abbrev workflow_of : String → List EntryWithBuilds → Workflow
  workflow_of pp group = record {
    id = pp;
    name = pp;
    repo_ids =
        repo_ids_or (extract_repo_ids ports.parse_url_path ports.to_upper (all_builds group))
          (lookup pp settings.repo_overrides);
  }

  -- A pipeline without new builds is not published again.
  unfoldable pub crawl_groups : Dict (List EntryWithBuilds) → Step (JobCrawler × W) (Unit {0})
  crawl_groups [] = pure tt
  crawl_groups ((pp, group) ∷ groups) =
      then_do
        (if is_empty (all_builds group)
          then pure tt
          else then_do (call_port (ports.publish_workflow (workflow_of pp group)))
              (λ _. crawl_group_jobs pp group))
        (λ _. crawl_groups groups)

  -- Cursors that cannot be read are none: everything is fetched again.
  abbrev pub loaded_numbers : Result E (Dict ℤ) → Step (JobCrawler × W) (Unit {0})
  loaded_numbers (ok m) s = ((record { cursors = m; loaded = true }, s.1), tt)
  loaded_numbers (err e) s = ((record { cursors = []; loaded = true }, s.1), tt)

  unfoldable pub hydrate_numbers : Step (JobCrawler × W) (Unit {0})
  hydrate_numbers s =
      if s.0.loaded then pure tt s else then_do (call_port ports.load) loaded_numbers s

  abbrev pub crawl_entries : Found ports → Step (JobCrawler × W) (Option (Result E (Unit {0})))
  crawl_entries none = pure none
  crawl_entries (some (err e)) = pure (some (err e))
  crawl_entries (some (ok entries)) =
      then_do (group_entries [] entries)
        (λ groups. then_do (crawl_groups groups) (λ _. pure (some (ok tt))))

  -- `none` is a server whose folders are nested deeper than the fuel.
  unfoldable pub crawl : ℕ → Step (JobCrawler × W) (Option (Result E (Unit {0})))
  crawl fuel =
      then_do hydrate_numbers
        (λ _. then_do (call_port (configured_or_all ports fuel settings.jobs)) crawl_entries)
