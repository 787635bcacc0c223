-- ===== src/Tests/Owned.antt =====
-- A workflow of two repos, one of a component with a team and one of a component without.
use dalikamata.Prelude.{◌≡◌, true, false, List, [], ◌∷◌, map, any, not, is_empty, String, ◌==◌}
use dalikamata.Prelude.Dict.{Dict, lookup}
use dalikamata.Repo.Memory.{text_at}
use dalikamata.Repo.Owners.{Owner, same_owner, or_no_repos, new_owner_lookup}
use dalikamata.Repo.Owners.Resolved.{DistinctOwners, owned_by, owners_lem}
use dalikamata.Repo.Owners.Diagnosed.{
  has_component, has_team, reason_of, expected_reason, diagnose_lem,
}

abbrev repos : Dict String
repos = ("p/web", "shop") ∷ ("p/api", "core") ∷ []

abbrev teams : Dict String
teams = ("shop", "red") ∷ []

abbrev workflows : Dict (List String)
workflows = ("w", "p/web" ∷ "p/api" ∷ "p/none" ∷ []) ∷ []

abbrev used : List String
used = or_no_repos (lookup "w" workflows)

owners_example :
    (is_empty ((new_owner_lookup repos teams workflows []).owners "w") ≡ false)
    × DistinctOwners ((new_owner_lookup repos teams workflows []).owners "w")
    × ((o : Owner)
        → any (λ id. not (text_at id repos == "")) used ≡ true
        → any (same_owner o) ((new_owner_lookup repos teams workflows []).owners "w")
          ≡ any (owned_by repos teams o) used)
    × (any (λ id. not (text_at id repos == "")) used ≡ false
        → (new_owner_lookup repos teams workflows []).owners "w"
          ≡ record { component = "unknown"; team = "unknown" } ∷ [])
owners_example = owners_lem repos teams workflows [] "w"

diagnose_example :
    (((new_owner_lookup repos teams workflows []).diagnose "w").reason
      ≡ expected_reason repos teams used)
    × (map (λ p. p.repo_id) ((new_owner_lookup repos teams workflows []).diagnose "w").owners
        ≡ used)
    × (map (λ p. p.reason) ((new_owner_lookup repos teams workflows []).diagnose "w").owners
        ≡ map
            (λ id. reason_of repos teams (has_team repos teams id) (has_component repos teams id))
            used)
diagnose_example = diagnose_lem repos teams workflows [] "w"
