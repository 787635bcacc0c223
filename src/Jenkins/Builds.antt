-- ===== src/Jenkins/Builds.antt =====
-- internal/ingest/jenkins/crawler.go: what a build tells: its branch, its commit, its repos, and
-- whether it is new.
pub mod RepoIds
pub mod Newer
use dalikamata.Prelude.{
  String, Bool, true, false, not, ◌&&◌, ◌||◌, Option, none, some, List, [], ◌∷◌, ◌++◌, ◌==◌,
  if◌then◌else◌, filter, map,
}
use dalikamata.Prelude.Int.{ℤ, pos, ltb_ℤ}
use dalikamata.Prelude.Dict.{contains}
use dalikamata.Prelude.Texts.{concat}
use dalikamata.Prelude.Cuts.{
  cut_prefix, contains_text, trim_suffix, split_at, replace_first, trim_left, trim_right, slash,
}
use dalikamata.Prelude.Paths.{path_dir, path_base}
use dalikamata.Jenkins.Api.{ApiBranch, ApiRevision, ApiBuildAction, ApiBuild}

abbrev pub is_build_data : ApiBuildAction → Bool
is_build_data action = contains_text "BuildData" action.action_class

abbrev without_origin : String → Option String → String
without_origin name none = name
without_origin name (some after) = after

-- The first branch of a revision that has one.
abbrev revision_branch : Option ApiRevision → Option String
revision_branch none = none
revision_branch (some revision) = first_name revision.branch
  where
    first_name : List ApiBranch → Option String
    first_name [] = none
    first_name (b ∷ bs) = some (without_origin b.name (cut_prefix "origin/" b.name))

abbrev or_text : Option String → String → String
or_text none other = other
or_text (some s) other = s

unfoldable pub extract_branch : List ApiBuildAction → String
extract_branch [] = ""
extract_branch (action ∷ actions) =
    let rest = extract_branch actions in
    if is_build_data action then or_text (revision_branch action.last_built_revision) rest else rest

abbrev revision_sha : Option ApiRevision → Option String
revision_sha none = none
revision_sha (some revision) = some revision.sha1

unfoldable pub extract_commit_sha : List ApiBuildAction → String
extract_commit_sha [] = ""
extract_commit_sha (action ∷ actions) =
    let rest = extract_commit_sha actions in
    if is_build_data action then or_text (revision_sha action.last_built_revision) rest else rest

unfoldable pub branch_for_job : String → String → ApiBuild → String
branch_for_job job_path workflow_id b =
    if path_dir job_path == workflow_id then path_base job_path else extract_branch b.actions

-- The last segment but one and the last one.
abbrev pub last_two : List String → Option (String × String)
last_two [] = none
last_two (x ∷ []) = none
last_two (x ∷ (y ∷ [])) = some (x, y)
last_two (x ∷ (y ∷ (z ∷ rest))) = last_two (y ∷ (z ∷ rest))

-- A build that is completed and has a number above the cursor.
abbrev pub is_new : ℤ → ApiBuild → Bool
is_new cursor b = not (b.in_progress || b.build_result == "") && ltb_ℤ cursor b.number

unfoldable pub new_builds : ℤ → List ApiBuild → List ApiBuild
new_builds cursor = filter (is_new cursor)

abbrev pub max_from : ℤ → List ApiBuild → ℤ
max_from m [] = m
max_from m (b ∷ bs) = max_from (if ltb_ℤ m b.number then b.number else m) bs

unfoldable pub max_published : List ApiBuild → ℤ
max_published = max_from (pos 0)

module _ (parse_url_path : String → Option String) (to_upper : String → String) where
  -- SCP-style URLs are made parseable; 58 is the code of ':'.
  abbrev normalise_url : String → String
  normalise_url raw =
      if contains_text "://" raw then raw else concat "ssh://" (replace_first 58 "/" raw)

  abbrev repo_id_of : Option (String × String) → String
  repo_id_of none = ""
  repo_id_of (some (project, last)) =
      let repo_slug = trim_suffix ".git" last in
      if project == "" || repo_slug == ""
      then ""
      else concat (to_upper project) (concat "/" repo_slug)

  abbrev repo_id_of_path : Option String → String
  repo_id_of_path none = ""
  repo_id_of_path (some p) =
      repo_id_of (last_two (split_at slash (trim_right slash (trim_left slash p))))

  unfoldable pub repo_id_from_url : String → String
  repo_id_from_url raw = repo_id_of_path (parse_url_path (normalise_url raw))

  -- The IDs that are not empty and not seen before are appended.
  unfoldable pub add_urls : List String → List String → List String
  add_urls ids [] = ids
  add_urls ids (raw ∷ urls) =
      let id = repo_id_from_url raw in
      add_urls (if id == "" || contains ids id then ids else ids ++ (id ∷ [])) urls

  unfoldable pub add_actions : List String → List ApiBuildAction → List String
  add_actions ids [] = ids
  add_actions ids (action ∷ actions) =
      add_actions (if is_build_data action then add_urls ids action.remote_urls else ids) actions

  unfoldable pub add_builds : List String → List ApiBuild → List String
  add_builds ids [] = ids
  add_builds ids (b ∷ builds) = add_builds (add_actions ids b.actions) builds

  unfoldable pub extract_repo_ids : List ApiBuild → List String
  extract_repo_ids = add_builds []
