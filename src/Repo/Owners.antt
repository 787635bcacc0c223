-- ===== src/Repo/Owners.antt =====
-- internal/domain/repo/memory.go: newOwnerLookup and snapshotOwnerLookup; projection.go: owners.
pub mod Resolved
pub mod Diagnosed
use dalikamata.Prelude.{
  String, Bool, true, false, not, ◌&&◌, ◌||◌, Option, none, some, List, [], ◌∷◌, ◌++◌, map, ◌==◌,
  any, is_empty, if◌then◌else◌,
}
use dalikamata.Prelude.Dict.{Dict, contains, lookup}
use dalikamata.Query.OwnerKey.{owner_key}
use dalikamata.Platform.{Platform}
use dalikamata.Model.{Workflow, RepoOwnership, OwnershipDiagnostics}
use dalikamata.Repo.Memory.{MemoryRepository, text_at}

pub record Owner : Type 0 where
  pub component : String
  pub team : String

abbrev pub same_owner : Owner → Owner → Bool
same_owner a b = a.component == b.component && a.team == b.team

-- The closures of Go's ownerLookup.
pub record OwnerLookup : Type 0 where
  pub owners : String → List Owner
  pub workflow_name : String → String
  pub diagnose : String → OwnershipDiagnostics

abbrev pub or_no_repos : Option (List String) → List String
or_no_repos none = []
or_no_repos (some ids) = ids

abbrev or_id : String → Option String → String
or_id id none = id
or_id id (some name) = name

module _ (rtc : Dict String) (ct : Dict String) where
  unfoldable pub resolve_repo : String → RepoOwnership
  resolve_repo repo_id =
      let comp_name = text_at repo_id rtc in
      let team_name = text_at comp_name ct in
      if comp_name == ""
      then record {
        repo_id = repo_id;
        component_name = "";
        team_name = "";
        reason = "no_component_for_repo";
      }
      else if team_name == ""
      then record {
        repo_id = repo_id;
        component_name = comp_name;
        team_name = "";
        reason = "no_team_for_component";
      }
      else record {
        repo_id = repo_id;
        component_name = comp_name;
        team_name = team_name;
        reason = "ok";
      }

  abbrev pub owner_of : String → Owner
  owner_of comp_name =
      let team_name = text_at comp_name ct in
      record { component = comp_name; team = if team_name == "" then "unknown" else team_name }

  -- The loop over the repos; `seen` holds the owners that `out` holds.
  unfoldable pub collect_owners : List String → List Owner → List Owner
  collect_owners [] out = out
  collect_owners (repo_id ∷ ids) out =
      let comp_name = text_at repo_id rtc in
      let o = owner_of comp_name in
      collect_owners ids
        (if comp_name == "" then out else if any (same_owner o) out then out else out ++ o ∷ [])

  abbrev or_unknown : List Owner → List Owner
  or_unknown [] = record { component = "unknown"; team = "unknown" } ∷ []
  or_unknown (o ∷ os) = o ∷ os

  -- The loop over the outcomes: the reason so far, and whether a component was reached.
  unfoldable pub sum_up : List RepoOwnership → String → Bool → String
  sum_up [] reason has_component =
      if not (reason == "ok") && has_component then "no_team_for_component" else reason
  sum_up (p ∷ ps) reason has_component =
      sum_up ps (if p.reason == "ok" then "ok" else reason)
        (has_component || p.reason == "no_team_for_component")

  unfoldable pub diagnose_repos : String → List String → OwnershipDiagnostics
  diagnose_repos workflow_id [] = record {
    workflow_id = workflow_id;
    reason = "missing_repo_id";
    owners = [];
  }
  diagnose_repos workflow_id (id ∷ ids) =
      let per_repo = map resolve_repo (id ∷ ids) in
      record {
        workflow_id = workflow_id;
        reason = sum_up per_repo "no_component_for_repo" false;
        owners = per_repo;
      }

  unfoldable pub new_owner_lookup : Dict (List String) → Dict String → OwnerLookup
  new_owner_lookup wtr wf_names = record {
    owners = λ workflow_id. or_unknown (collect_owners (or_no_repos (lookup workflow_id wtr)) []);
    workflow_name = λ workflow_id. or_id workflow_id (lookup workflow_id wf_names);
    diagnose = λ workflow_id. diagnose_repos workflow_id (or_no_repos (lookup workflow_id wtr));
  }

-- The loops of snapshotOwnerLookup over the workflows.
abbrev pub repos_of_workflows : Dict Workflow → Dict (List String)
repos_of_workflows = map (λ e. (e.0, e.1.repo_ids))

abbrev pub names_of_workflows : Dict Workflow → Dict String
names_of_workflows = map (λ e. (e.0, e.1.name))

module _ ⦃go : Platform⦄ where
  unfoldable pub snapshot_owner_lookup : MemoryRepository → OwnerLookup
  snapshot_owner_lookup r =
      new_owner_lookup r.repo_to_component r.component_to_team (repos_of_workflows r.workflows)
        (names_of_workflows r.workflows)

unfoldable pub dedup : List String → List String → List String
dedup [] out = out
dedup (x ∷ xs) out = dedup xs (if contains out x then out else out ++ x ∷ [])

unfoldable pub owner_components : List Owner → List String
unfolding dedup
owner_components owners = dedup (map (λ o. o.component) owners) []

unfoldable pub owner_teams : List Owner → List String
unfolding dedup
owner_teams owners = dedup (map (λ o. o.team) owners) []

unfoldable pub owner_keys : List Owner → List String
owner_keys = map (λ o. owner_key o.team o.component)
