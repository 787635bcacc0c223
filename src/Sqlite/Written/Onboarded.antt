-- ===== src/Sqlite/Written/Onboarded.antt =====
-- internal/domain/repo/sqlite.go and memory.go: AddRepoOnboarding of both.
use dalikamata.Prelude.{
  String, ◌≡◌, refl, ◌∙◌, sym, subst, ap, true, false, ◌==◌, arith, Option, none, some, List, [],
  ◌∷◌, map, ok, Bool-cases, inl, inr,
}
use dalikamata.Prelude.Dict.{
  Dict, Distinct, contains, keys, values, lookup, insert, insert-Distinct,
}
use dalikamata.Platform.{Platform}
use dalikamata.Model.{Component, RepoOnboarding}
use dalikamata.Repo.Memory.{MemoryRepository, release, claim_repo, add_repo_onboarding}
use dalikamata.Repo.Index.Onboarding.{loses, lookup-release}
use dalikamata.Sqlite.Tables.{
  ComponentRow, Database, Texts, upsert, insert_or_ignore, same_team, same_component,
}
use dalikamata.Sqlite.Writes.{scan_components, ids_named, with_repo, sql_add_repo_onboarding}
use dalikamata.Sqlite.Written.{no_failure, HasOneOwner, ReadsBackIds}
use dalikamata.Sqlite.Written.Rows.{IsKeyed, IsTable, upsert-IsTable}
use dalikamata.Sqlite.Written.Stripped.{row_of, turns, strip, strip_others-turns, turns_all, names}
use dalikamata.Sqlite.Written.Released.{values-release, release-IsKeyed}

map-map :
    {A B C : Type 0} (g : B → C) (f : A → B) (xs : List A)
    → map g (map f xs) ≡ map (λ x. g (f x)) xs
map-map g f [] = refl
map-map g f (x ∷ xs) = rw (map-map g f xs) refl

claim_repo-name :
    (o : RepoOnboarding) (prev : Option Component) → (claim_repo o prev).name ≡ o.component
claim_repo-name o none = refl
claim_repo-name o (some c) = refl

claim_repo-team :
    (o : RepoOnboarding) (prev : Option Component) → (claim_repo o prev).team_name ≡ o.team
claim_repo-team o none = refl
claim_repo-team o (some c) = refl

-- The component that gets the repo does not lose it.
loses_other : (o : RepoOnboarding) (owner : Option String) → loses o owner o.component ≡ false
loses_other o none = refl
loses_other o (some p) = ground arith

ids_of : Option Component → List String
ids_of none = []
ids_of (some c) = c.repo_ids

module _ ⦃go : Platform⦄ {Cell E : Type 0} (texts : Texts Cell E) (reads : ReadsBackIds texts)
    (o : RepoOnboarding) where
  ids_named-values :
      (name : String) (m : Dict Component)
      → IsKeyed (λ (c : Component). c.name) m
      → ids_named texts no_failure name (values m) ≡ ids_of (lookup name m)
  unfolding lookup ids_of
  ids_named-values name [] keyed = refl
  ids_named-values name ((k, c) ∷ m) keyed = elim (Bool-cases (c.name == name)) [
    | inl found ↦ simp (found, keyed.0) refl
    | inr other ↦ simp (other, keyed.0) (ids_named-values name m keyed.1)
  ]

  claim_repo-ids :
      (prev : Option Component)
      → with_repo texts no_failure o.repo_id (ids_of prev) ≡ (claim_repo o prev).repo_ids
  unfolding ids_of
  claim_repo-ids none = refl
  claim_repo-ids (some c) = refl

  names-values :
      (m : Dict Component) → IsKeyed (λ (c : Component). c.name) m → names (values m) ≡ keys m
  names-values [] keyed = refl
  names-values ((k, c) ∷ m) keyed = rw (keyed.0, names-values m keyed.1) refl

  scan_components-rows :
      (cs : List Component)
      → scan_components texts no_failure (map (row_of texts reads o) cs) ≡ ok cs
  scan_components-rows [] = refl
  scan_components-rows (c ∷ cs) = rw ((reads c.repo_ids).1.1, scan_components-rows cs) refl

  module _ (m : Dict Component) (keyed : IsKeyed (λ (c : Component). c.name) m)
      (distinct : Distinct (keys m)) (owner : Option String)
      (only : (c : String) (x : Component)
        → lookup c m ≡ some x
        → contains x.repo_ids o.repo_id ≡ true
        → owner ≡ some c) where
    turned :
        map (turns texts reads o (values m)) (map (row_of texts reads o) (values m))
        ≡ map (row_of texts reads o) (values (release o owner m))
    turned =
        map-map (turns texts reads o (values m)) (row_of texts reads o) (values m)
        ∙ (turns_all texts reads o (values m) (subst Distinct (sym (names-values m keyed)) distinct)
            ∙ (sym (map-map (row_of texts reads o) (strip o) (values m))
                ∙ ap (map (row_of texts reads o))
                    (sym (values-release o m owner keyed distinct only))))

    ids_claimed :
        with_repo texts no_failure o.repo_id (ids_named texts no_failure o.component (values m))
        ≡ (claim_repo o (lookup o.component (release o owner m))).repo_ids
    ids_claimed =
        let kept : lookup o.component (release o owner m) ≡ lookup o.component m =
          lookup-release o owner o.component m ∙ rw (loses_other o owner) refl in
        ap (with_repo texts no_failure o.repo_id) (ids_named-values o.component m keyed)
        ∙ (claim_repo-ids (lookup o.component m) ∙ ap (λ p. (claim_repo o p).repo_ids) (sym kept))

  abbrev pub ComponentTable : List (ComponentRow Cell) → Dict Component → Type 0
  ComponentTable table m =
      IsTable (λ (c : Component). c.name) (row_of texts reads o) table m × Distinct (keys m)

  -- The components' table follows the memory repository through an onboarding.
  pub onboarding-ComponentTable :
      (db : Database Cell) (r : MemoryRepository)
      → HasOneOwner o r
      → ComponentTable db.components r.components
      → (table : List (ComponentRow Cell)) × ((sql_add_repo_onboarding texts no_failure o db).0
          ≡ record db {
            teams = insert_or_ignore same_team (record { name = o.team }) db.teams;
            components = table;
          })
        × ComponentTable table (add_repo_onboarding o r).components
  unfolding sql_add_repo_onboarding add_repo_onboarding
  onboarding-ComponentTable db r only (stored, distinct) =
      let m = r.components in
      let owner = lookup o.repo_id r.repo_to_component in
      let after = release o owner m in
      let claimed = claim_repo o (lookup o.component after) in
      let (n, stripped) = strip_others-turns texts reads o 3 (values m) db.components in
      let table =
        upsert same_component (row_of texts reads o claimed)
          (map (row_of texts reads o) (values after)) in
      let kept = release-IsKeyed o m owner stored.1 distinct in
      let scanned : scan_components texts no_failure db.components ≡ ok (values m) =
        ap (scan_components texts no_failure) stored.0 ∙ scan_components-rows (values m) in
      let left =
        ap (map (turns texts reads o (values m))) stored.0
        ∙ turned m stored.1 distinct owner only in
      let ids = ids_claimed m stored.1 distinct owner only in
      let marshalled = (reads claimed.repo_ids).1.0 in
      let put : IsTable (λ (c : Component). c.name) (row_of texts reads o) table
          (insert claimed.name claimed after) =
        upsert-IsTable (λ (c : Component). c.name) (row_of texts reads o) same_component
          (λ a b. refl) claimed (map (row_of texts reads o) (values after)) after (refl, kept.0) in
      (
        table,
        simp (scanned, stripped, ids, marshalled, left)
            (rw
              (
                claim_repo-name o (lookup o.component after),
                claim_repo-team o (lookup o.component after),
              )
              refl),
        (
          subst
              (λ k.
                IsTable (λ (c : Component). c.name) (row_of texts reads o) table
                  (insert k claimed after))
              (claim_repo-name o (lookup o.component after)) put,
          insert-Distinct o.component claimed after kept.1,
        ),
      )
