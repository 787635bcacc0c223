-- ===== src/Repo/Owners/Diagnosed.antt =====
-- internal/domain/repo/memory.go: the reason that `diagnose` gives.
use dalikamata.Prelude.{
  String, ◌≡◌, refl, Bool, true, false, not, ◌&&◌, ◌||◌, List, [], ◌∷◌, map, ◌==◌, any, arith,
  is_empty, if◌then◌else◌,
}
use dalikamata.Prelude.Dict.{Dict, lookup}
use dalikamata.Repo.Memory.{text_at}
use dalikamata.Repo.Owners.{or_no_repos, resolve_repo, sum_up, diagnose_repos, new_owner_lookup}

module _ (rtc : Dict String) (ct : Dict String) where
  -- The repo has a component; the component has a team.
  abbrev pub has_component : String → Bool
  has_component id = not (text_at id rtc == "")

  abbrev pub has_team : String → Bool
  has_team id = has_component id && not (text_at (text_at id rtc) ct == "")

  abbrev pub reason_of : Bool → Bool → String
  reason_of resolved reached =
      if resolved
      then "ok"
      else if reached
      then "no_team_for_component"
      else "no_component_for_repo"

  abbrev reason_so_far : Bool → String
  reason_so_far found = if found then "ok" else "no_component_for_repo"

  resolve_repo-reason :
      (id : String) → (resolve_repo rtc ct id).reason ≡ reason_of (has_team id) (has_component id)
  unfolding resolve_repo
  resolve_repo-reason id = ground arith

  resolve_repo-repo_id : (id : String) → (resolve_repo rtc ct id).repo_id ≡ id
  unfolding resolve_repo
  resolve_repo-repo_id id = ground arith

  abbrev pub reached_only : String → Bool
  reached_only id = has_component id && not (has_team id)

  next_reason :
      (t c found : Bool)
      → (if reason_of t c == "ok" then "ok" else reason_so_far found) ≡ reason_so_far (found || t)
  next_reason true c true = refl
  next_reason true c false = refl
  next_reason false true found = ground arith
  next_reason false false found = ground arith

  next_reached :
      (t c reached : Bool)
      → (reached || reason_of t c == "no_team_for_component") ≡ (reached || c && not t)
  next_reached true true reached = ground arith
  next_reached true false reached = ground arith
  next_reached false true reached = ground arith
  next_reached false false reached = ground arith

  sum_up-reason_of :
      (ids : List String) (found reached : Bool)
      → sum_up rtc ct (map (resolve_repo rtc ct) ids) (reason_so_far found) reached
        ≡ reason_of (found || any has_team ids) (reached || any reached_only ids)
  unfolding sum_up
  sum_up-reason_of [] true reached = ground arith
  sum_up-reason_of [] false reached = ground arith
  sum_up-reason_of (id ∷ ids) found reached =
      let t = has_team id in
      let c = has_component id in
      rw (resolve_repo-reason id, next_reason t c found, next_reached t c reached)
        (ground (arith, sum_up-reason_of ids (found || t) (reached || c && not t)))

  -- The whole diagnosis.
  abbrev pub expected_reason : List String → String
  expected_reason ids =
      if is_empty ids
      then "missing_repo_id"
      else reason_of (any has_team ids) (any has_component ids)

  -- A repo with a team decides first, so the repos that reach only a component may be any.
  reached_any :
      (ids : List String) → any has_team ids ≡ false → any reached_only ids ≡ any has_component ids
  reached_any [] h = refl
  reached_any (id ∷ ids) h = ground (arith, reached_any ids)

  diagnose_repos-reason :
      (workflow_id : String) (ids : List String)
      → (diagnose_repos rtc ct workflow_id ids).reason ≡ expected_reason ids
  unfolding diagnose_repos
  diagnose_repos-reason workflow_id [] = refl
  diagnose_repos-reason workflow_id (id ∷ ids) =
      ground (arith, sum_up-reason_of (id ∷ ids) false false, reached_any (id ∷ ids))

  diagnose_repos-owners :
      (workflow_id : String) (ids : List String)
      → (diagnose_repos rtc ct workflow_id ids).owners ≡ map (resolve_repo rtc ct) ids
  unfolding diagnose_repos
  diagnose_repos-owners workflow_id [] = refl
  diagnose_repos-owners workflow_id (id ∷ ids) = refl

  -- The diagnosis of a workflow. Its reason is "missing_repo_id" if the workflow has no repos,
  -- "ok" if some repo has a component with a team, "no_team_for_component" if none has but some
  -- has a component, and "no_component_for_repo" if none has one; and each repo is listed, in the
  -- workflow's order, with how far its own resolution got.
  pub diagnose_lem :
      (wtr : Dict (List String)) (wf_names : Dict String) (workflow_id : String)
      → let d = (new_owner_lookup rtc ct wtr wf_names).diagnose workflow_id in
        let ids = or_no_repos (lookup workflow_id wtr) in
        (d.reason ≡ expected_reason ids)
        × (map (λ p. p.repo_id) d.owners ≡ ids)
        × (map (λ p. p.reason) d.owners
            ≡ map (λ id. reason_of (has_team id) (has_component id)) ids)
  unfolding new_owner_lookup
  diagnose_lem wtr wf_names workflow_id =
      let ids = or_no_repos (lookup workflow_id wtr) in
      (
        diagnose_repos-reason workflow_id ids,
        rw (diagnose_repos-owners workflow_id ids) (repos_of ids),
        rw (diagnose_repos-owners workflow_id ids) (reasons_of ids),
      )
    where
      repos_of : (l : List String) → map (λ p. p.repo_id) (map (resolve_repo rtc ct) l) ≡ l
      repos_of [] = refl
      repos_of (i ∷ l) = rw (resolve_repo-repo_id i, repos_of l) refl

      reasons_of :
          (l : List String)
          → map (λ p. p.reason) (map (resolve_repo rtc ct) l)
            ≡ map (λ id. reason_of (has_team id) (has_component id)) l
      reasons_of [] = refl
      reasons_of (i ∷ l) = rw (resolve_repo-reason i, reasons_of l) refl
