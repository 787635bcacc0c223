-- ===== src/Tests/Built.antt =====
-- A Jenkins server with a folder and a multibranch pipeline, and a crawl of it.
use dalikamata.Prelude.{
  ℕ, ◌≡◌, refl, true, false, ◌&&◌, some, none, List, [], ◌∷◌, String, ok, err, any, arith, eq_iff,
  if◌then◌else◌, ◌==◌, filter,
}
use dalikamata.Prelude.Int.{ℤ, pos, eqb_ℤ, ltb_ℤ}
use dalikamata.Prelude.Dict.{Distinct, keys, lookup, insert, delete}
use dalikamata.Prelude.Cuts.{
  contains_text, cut_prefix, split_at, split_path, replace_first, trim_left, trim_right,
  trim_suffix,
}
use dalikamata.Prelude.Parts.{join_with}
use dalikamata.Prelude.Paths.{path_dir, clean}
use dalikamata.Jenkins.Api.{JobEntry, ApiBuildAction, ApiBuild, JobPorts, JobSettings}
use dalikamata.Jenkins.Builds.{
  repo_id_from_url, add_urls, add_actions, add_builds, extract_repo_ids, new_builds, max_published,
}
use dalikamata.Jenkins.Builds.RepoIds.{extract_repo_ids_lem}
use dalikamata.Jenkins.Builds.Newer.{new_builds-max_published}
use dalikamata.Jenkins.Jobs.{discover_jobs, discover_each, pipeline_path}
use dalikamata.Jenkins.Jobs.Discovered.{JobTree, listing, entries, Serves, discover_jobs_lem}
use dalikamata.Jenkins.Crawler.{
  JobCrawler, publish_stages, crawl_job, fetch_new_builds, probe, group_entries, join_group,
  crawl_group_jobs, crawl_groups, hydrate_numbers, crawl,
}
use dalikamata.Jenkins.Crawler.Backed.{IsJobHistory, IsBackedUp, crawl-IsBackedUp}
use dalikamata.Jenkins.Crawler.Groups.{entries_of, group_entries_lem}
use dalikamata.Tests.World.{numbers}

-- Cursors that the store has returned and accepted.
abbrev Log : Type 0
Log = List (String × ℤ)

abbrev git : List String → ApiBuildAction
git urls = record {
  action_class = "hudson.plugins.git.util.BuildData";
  last_built_revision = none;
  remote_urls = urls;
}

abbrev build : ℕ → String → ApiBuild
build n status = record {
  number = pos n;
  build_result = status;
  timestamp = pos 0;
  duration = pos 0;
  in_progress = false;
  actions = git ("/scm/pay/api.git" ∷ "/scm/lib/ci.git" ∷ "/scm/pay/api.git" ∷ []) ∷ [];
}

abbrev three_builds : List ApiBuild
three_builds = build 3 "SUCCESS" ∷ build 2 "FAILURE" ∷ build 1 "SUCCESS" ∷ []

-- pay/main is a branch, lib/build a job in a folder.
abbrev items : JobTree
items =
    JobTree.multibranch "pay" (JobTree.job "main" JobTree.no_items)
      (JobTree.folder "lib" (JobTree.job "build" JobTree.no_items) JobTree.no_items)

abbrev below : String → JobTree
below path =
    if path == ""
    then items
    else if path == "pay"
    then JobTree.job "main" JobTree.no_items
    else JobTree.job "build" JobTree.no_items

abbrev server : JobPorts Log String
server = record {
  load = λ w. (("pay/main", pos 1) ∷ w, ok (("pay/main", pos 1) ∷ []));
  save = λ job_path number w. ((job_path, number) ∷ w, none);
  clear = λ job_path w. (w, none);
  get_jobs = λ path w. (w, ok (listing (below path)));
  get_builds = λ path w. (w, ok three_builds);
  get_last_completed_build_number = λ path w. (w, ok (some (pos 3)));
  get_stages = λ path number w. (w, err "no stages");
  publish_workflow = λ x w. (w, none);
  publish_workflow_run = λ x w. (w, some "connection lost");
  publish_workflow_task = λ x w. (w, none);
  parse_url_path = λ raw. some raw;
  to_upper = λ s. s;
}

abbrev no_settings : JobSettings
no_settings = record { jobs = []; repo_overrides = [] }

abbrev Known : String → ℤ → Log → Type 0
Known k v w = any (λ e. e.0 == k && eqb_ℤ e.1 v) w ≡ true

server-IsJobHistory : IsJobHistory server Known
unfolding lookup
server-IsJobHistory = record {
  accepted = λ k v w h. ground (arith, eq_iff k k);
  returned = λ k v m w h at. ground (arith, eq_iff "pay/main" k);
  load = λ k v w h. ground arith;
  save = λ a b k v w h. ground arith;
  clear = λ a k v w h. h;
  get_jobs = λ a k v w h. h;
  get_builds = λ a k v w h. h;
  get_last_completed_build_number = λ a k v w h. h;
  get_stages = λ a b k v w h. h;
  publish_workflow = λ x k v w h. h;
  publish_workflow_run = λ x k v w h. h;
  publish_workflow_task = λ x k v w h. h;
}

abbrev fresh : JobCrawler × Log
fresh = (record { cursors = []; loaded = false }, [])

fresh-IsBackedUp : IsBackedUp server Known fresh
unfolding lookup
fresh-IsBackedUp k v e = absurd cc

-- The builds 2 and 3 of pay/main are new, and the cursor becomes 3.
crawl-IsBackedUp_example : Known "pay/main" (pos 3) (crawl server no_settings 3 fresh).0.1
unfolding crawl hydrate_numbers discover_jobs discover_each group_entries probe fetch_new_builds
    new_builds join_group pipeline_path crawl_groups crawl_group_jobs crawl_job publish_stages
    max_published lookup insert delete path_dir clean split_path split_at join_with
crawl-IsBackedUp_example =
    crawl-IsBackedUp server Known no_settings server-IsJobHistory 3 fresh fresh-IsBackedUp
      "pay/main" (pos 3) refl

new_builds-max_published_example :
    (ltb_ℤ (pos 1) (pos 3) ≡ true)
    × ((any (λ b. eqb_ℤ b.number (pos 3)) (build 3 "SUCCESS" ∷ build 2 "FAILURE" ∷ []) ≡ true)
        × ((any (λ b. eqb_ℤ b.number (pos 3)) (build 3 "SUCCESS" ∷ build 2 "FAILURE" ∷ []) ≡ true)
            × (new_builds (pos 3) three_builds ≡ [])))
unfolding new_builds max_published
new_builds-max_published_example = new_builds-max_published (pos 1) three_builds refl (λ h. cc)

extract_repo_ids_example :
    extract_repo_ids server.parse_url_path server.to_upper three_builds ≡ "pay/api" ∷ "lib/ci" ∷ []
unfolding extract_repo_ids add_builds add_actions add_urls repo_id_from_url contains_text cut_prefix
    split_at trim_left trim_right trim_suffix replace_first
extract_repo_ids_example = extract_repo_ids_lem server.parse_url_path server.to_upper three_builds

items-Serves : Serves server "" items
items-Serves = ((λ w. refl), ((λ w. refl), (tt, ((λ w. refl), (tt, tt)))))

discover_jobs_example : (discover_jobs server 2 "" []).1 ≡ some (ok (entries "" items))
discover_jobs_example = discover_jobs_lem server "" items 2 [] items-Serves (omega arith)

-- Two branches of one pipeline and a job of another.
abbrev found : List JobEntry
found =
    record { path = "pay/main"; is_branch = true }
    ∷ record { path = "lib"; is_branch = false }
    ∷ record { path = "pay/fix"; is_branch = true }
    ∷ []

group_entries_example :
    Distinct (keys (group_entries server no_settings [] found fresh).1)
    × ((pp : String)
        → entries_of pp (group_entries server no_settings [] found fresh).1
          ≡ filter (λ e. pipeline_path e == pp) found)
group_entries_example = group_entries_lem server no_settings found fresh
