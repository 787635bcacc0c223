-- ===== src/Jenkins/Builds/RepoIds.antt =====
-- internal/ingest/jenkins/crawler.go: the repo IDs of a pipeline's builds, as a list without repeats.
use mathlib.Core.List.{append_assoc, append-nil}
use dalikamata.Prelude.{
  String, ◌≡◌, refl, subst, Bool, true, not, ◌&&◌, ◌||◌, Option, List, [], ◌∷◌, ◌++◌, ◌==◌, eq_iff,
  arith, if◌then◌else◌, filter, map, Bool-cases, inl, inr,
}
use dalikamata.Prelude.Dict.{contains}
use dalikamata.Jenkins.Api.{ApiBuildAction, ApiBuild}
use dalikamata.Jenkins.Builds.{
  is_build_data, repo_id_from_url, add_urls, add_actions, add_builds, extract_repo_ids,
}

-- Each text once, where it stands first.
abbrev pub first_seen : List String → List String
first_seen [] = []
first_seen (x ∷ xs) = x ∷ filter (λ y. not (x == y)) (first_seen xs)

-- The texts that are not empty and not known are appended one by one.
abbrev collect : List String → List String → List String
collect ids [] = ids
collect ids (x ∷ xs) = collect (if x == "" || contains ids x then ids else ids ++ (x ∷ [])) xs

abbrev named : List String → List String
named = filter (λ x. not (x == ""))

filter-filter :
    (p q r : String → Bool) (xs : List String)
    → ((y : String) → (q y && p y) ≡ r y)
    → filter p (filter q xs) ≡ filter r xs
filter-filter p q r [] same = refl
filter-filter p q r (x ∷ xs) same = ground (arith, same x, filter-filter p q r xs same)

contains-append_one :
    (ids : List String) (x y : String) → contains (ids ++ (x ∷ [])) y ≡ (contains ids y || x == y)
contains-append_one [] x y = ground arith
contains-append_one (i ∷ ids) x y = ground (arith, contains-append_one ids x y)

known-other :
    (ids : List String) (x y : String)
    → contains ids x ≡ true
    → (not (x == y) && not (contains ids y)) ≡ not (contains ids y)
known-other ids x y known = elim (Bool-cases (x == y)) [
  | inl same ↦
      let moved : contains ids y ≡ true =
        subst (λ z. contains ids z ≡ true) ((eq_iff x y).0 same) known in
      rw (same, moved) refl
  | inr other ↦ rw other refl
]

both_unseen : (a b c : Bool) → c ≡ (a || b) → (not b && not a) ≡ not c
both_unseen a b c e = ground arith

filter_all : (xs : List String) → filter (λ y. not (contains [] y)) xs ≡ xs
filter_all [] = refl
filter_all (x ∷ xs) = rw (filter_all xs) refl

collect_lem :
    (ids xs : List String)
    → collect ids xs ≡ ids ++ filter (λ y. not (contains ids y)) (first_seen (named xs))
collect_lem ids [] = rw append-nil refl
collect_lem ids (x ∷ xs) = elim (Bool-cases (x == "")) [
  | inl empty ↦ rw empty (collect_lem ids xs)
  | inr name ↦ elim (Bool-cases (contains ids x)) [
    | inl known ↦
        rw
          (
            name,
            known,
            collect_lem ids xs,
            filter-filter (λ y. not (contains ids y)) (λ y. not (x == y))
                (λ y. not (contains ids y)) (first_seen (named xs))
                (λ y. known-other ids x y known),
          )
          refl
    | inr fresh ↦
        rw
          (
            name,
            fresh,
            collect_lem (ids ++ (x ∷ [])) xs,
            filter-filter (λ y. not (contains ids y)) (λ y. not (x == y))
                (λ y. not (contains (ids ++ (x ∷ [])) y)) (first_seen (named xs))
                (λ y. both_unseen (contains ids y) (x == y) _ (contains-append_one ids x y)),
            append_assoc ids (x ∷ [])
                (filter (λ y. not (contains (ids ++ (x ∷ [])) y)) (first_seen (named xs))),
          )
          refl
  ]
]

collect-append : (ids xs ys : List String) → collect ids (xs ++ ys) ≡ collect (collect ids xs) ys
collect-append ids [] ys = refl
collect-append ids (x ∷ xs) ys =
    collect-append (if x == "" || contains ids x then ids else ids ++ (x ∷ [])) xs ys

module _ (parse_url_path : String → Option String) (to_upper : String → String) where
  abbrev pub action_ids : List ApiBuildAction → List String
  action_ids [] = []
  action_ids (action ∷ actions) =
      (if is_build_data action
        then map (repo_id_from_url parse_url_path to_upper) action.remote_urls
        else [])
      ++ action_ids actions

  -- The ID of each URL that a build's Git data names, in order.
  abbrev pub build_ids : List ApiBuild → List String
  build_ids [] = []
  build_ids (b ∷ builds) = action_ids b.actions ++ build_ids builds

  add_urls-collect :
      (ids urls : List String)
      → add_urls parse_url_path to_upper ids urls
        ≡ collect ids (map (repo_id_from_url parse_url_path to_upper) urls)
  unfolding add_urls
  add_urls-collect ids [] = refl
  add_urls-collect ids (raw ∷ urls) =
      let id = repo_id_from_url parse_url_path to_upper raw in
      add_urls-collect (if id == "" || contains ids id then ids else ids ++ (id ∷ [])) urls

  add_actions-collect :
      (ids : List String) (actions : List ApiBuildAction)
      → add_actions parse_url_path to_upper ids actions ≡ collect ids (action_ids actions)
  unfolding add_actions
  add_actions-collect ids [] = refl
  add_actions-collect ids (action ∷ actions) = elim (Bool-cases (is_build_data action)) [
    | inl git ↦
        rw
          (
            git,
            add_urls-collect ids action.remote_urls,
            add_actions-collect
                (collect ids (map (repo_id_from_url parse_url_path to_upper) action.remote_urls))
                actions,
            collect-append ids (map (repo_id_from_url parse_url_path to_upper) action.remote_urls)
                (action_ids actions),
          )
          refl
    | inr other ↦ rw other (add_actions-collect ids actions)
  ]

  add_builds-collect :
      (ids : List String) (builds : List ApiBuild)
      → add_builds parse_url_path to_upper ids builds ≡ collect ids (build_ids builds)
  unfolding add_builds
  add_builds-collect ids [] = refl
  add_builds-collect ids (b ∷ builds) =
      rw
        (
          add_actions-collect ids b.actions,
          add_builds-collect (collect ids (action_ids b.actions)) builds,
          collect-append ids (action_ids b.actions) (build_ids builds),
        )
        refl

  -- The repo IDs of builds are the IDs of all URLs in their Git data, without the empty ones, each
  -- once and in the order in which they are first seen.
  pub extract_repo_ids_lem :
      (builds : List ApiBuild)
      → extract_repo_ids parse_url_path to_upper builds ≡ first_seen (named (build_ids builds))
  unfolding extract_repo_ids
  extract_repo_ids_lem builds =
      rw (add_builds-collect [] builds, collect_lem [] (build_ids builds)) (filter_all _)
