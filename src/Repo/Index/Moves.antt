-- ===== src/Repo/Index/Moves.antt =====
-- internal/domain/repo/memory.go: what AddRepoOnboarding does to the indexes and the components.
use dalikamata.Prelude.{
  String, ◌≡◌, refl, true, false, Option, none, some, List, [], ◌∷◌, ◌++◌, ◌==◌, eq_iff, arith,
  if◌then◌else◌, Bool-cases, Option-cases, inl, inr, ◌≢◌,
}
use dalikamata.Prelude.Dict.{contains, lookup, insert, lookup-insert, insert-insert_self}
use dalikamata.Platform.{Platform}
use dalikamata.Model.{Component, RepoOnboarding}
use dalikamata.Repo.Memory.{MemoryRepository, release, claim_repo, add_repo_onboarding}
use dalikamata.Repo.Index.{contains-append_self, contains-filter}
use dalikamata.Repo.Index.Onboarding.{lookup-release, contains-claim_repo}

pub claim_repo-claim_repo :
    (o : RepoOnboarding) (x : Option Component)
    → claim_repo o (some (claim_repo o x)) ≡ claim_repo o x
claim_repo-claim_repo o none = ground (arith, eq_iff o.repo_id o.repo_id)
claim_repo-claim_repo o (some x) = ground (arith, contains-append_self x.repo_ids o.repo_id)

-- Who lists a repo after the onboarding claims it.
contains-claim_repo_iff :
    (o : RepoOnboarding) (x : Component) (id : String)
    → contains (claim_repo o (some x)).repo_ids id ≡ true
    → (o.repo_id == id) ≡ false
    → contains x.repo_ids id ≡ true
contains-claim_repo_iff o x id h other = elim (Bool-cases (contains x.repo_ids o.repo_id)) [
  | inl listed ↦ ground arith
  | inr new ↦ ground (arith, in_append x.repo_ids)
]
  where
    in_append : (xs : List String) → contains (xs ++ o.repo_id ∷ []) id ≡ contains xs id
    in_append [] = ground arith
    in_append (y ∷ ys) = ground (arith, in_append ys)

module _ ⦃go : Platform⦄ where
  -- Onboarding a repo twice is onboarding it once.
  pub add_repo_onboarding_idempotent :
      (o : RepoOnboarding) (r : MemoryRepository)
      → add_repo_onboarding o (add_repo_onboarding o r) ≡ add_repo_onboarding o r
  unfolding add_repo_onboarding
  add_repo_onboarding_idempotent o r =
      let before = release o (lookup o.repo_id r.repo_to_component) r.components in
      let claimed = claim_repo o (lookup o.component before) in
      let self : (o.component == o.component) ≡ true = (eq_iff o.component o.component).1 refl in
      let owned : lookup o.repo_id (insert o.repo_id o.component r.repo_to_component)
          ≡ some o.component =
        ground (
          arith,
          lookup-insert o.repo_id o.repo_id o.component r.repo_to_component,
          eq_iff o.repo_id o.repo_id,
        ) in
      let stored : lookup o.component (insert o.component claimed before) ≡ some claimed =
        rw (lookup-insert o.component o.component claimed before, self) refl in
      rw (
        owned,
        self,
        stored,
        claim_repo-claim_repo o (lookup o.component before),
        insert-insert_self o.component claimed before,
        insert-insert_self o.repo_id o.component r.repo_to_component,
        insert-insert_self o.component o.team r.component_to_team,
        insert-insert_self o.team (record { name = o.team }) r.teams,
      )

  team_of_claim : (o : RepoOnboarding) (x : Option Component) → (claim_repo o x).team_name ≡ o.team
  team_of_claim o none = refl
  team_of_claim o (some x) = refl

  -- The component that loses the repo no longer lists it.
  released-without :
      (o : RepoOnboarding) (r : MemoryRepository) (c : String) (x : Component)
      → lookup o.repo_id r.repo_to_component ≡ some c
      → c ≢ o.component
      → lookup c (release o (lookup o.repo_id r.repo_to_component) r.components) ≡ some x
      → contains x.repo_ids o.repo_id ≡ false
  released-without o r c x owned other at = elim (Option-cases (lookup c r.components)) [
    | inl missing ↦ ground (
      arith,
      eq_iff c o.component,
      lookup-release o (lookup o.repo_id r.repo_to_component) c r.components,
    )
    | inr (y, found) ↦ ground (
      arith,
      eq_iff c o.component,
      eq_iff c c,
      eq_iff o.repo_id o.repo_id,
      contains-filter y.repo_ids o.repo_id o.repo_id,
      lookup-release o (lookup o.repo_id r.repo_to_component) c r.components,
    )
  ]

  -- Components list a repo only if the index names them for it.
  abbrev pub IsExclusive : MemoryRepository → Type 0
  IsExclusive r =
      (c id : String) (x : Component)
      → lookup c r.components ≡ some x
      → contains x.repo_ids id ≡ true
      → lookup id r.repo_to_component ≡ some c

  -- After an onboarding the index names the component for the repo, and what it names for any
  -- other repo is unchanged; the component has the team and lists the repo; and the component
  -- that the index named before, if it is another one, no longer lists the repo.
  pub add_repo_onboarding_lem :
      (o : RepoOnboarding) (r : MemoryRepository)
      → ((id : String)
          → lookup id (add_repo_onboarding o r).repo_to_component
            ≡ (if o.repo_id == id then some o.component else lookup id r.repo_to_component))
        × ((x : Component) × (lookup o.component (add_repo_onboarding o r).components ≡ some x)
            × (x.team_name ≡ o.team)
            × (contains x.repo_ids o.repo_id ≡ true))
        × ((c : String) (x : Component)
            → lookup o.repo_id r.repo_to_component ≡ some c
            → c ≢ o.component
            → lookup c (add_repo_onboarding o r).components ≡ some x
            → contains x.repo_ids o.repo_id ≡ false)
  unfolding add_repo_onboarding
  add_repo_onboarding_lem o r =
      let before = release o (lookup o.repo_id r.repo_to_component) r.components in
      let claimed = claim_repo o (lookup o.component before) in
      let stored : lookup o.component (insert o.component claimed before) ≡ some claimed = ground (
        arith,
        lookup-insert o.component o.component claimed before,
        eq_iff o.component o.component,
      ) in
      (
        λ id. lookup-insert o.repo_id id o.component r.repo_to_component,
        (
          claimed,
          stored,
          team_of_claim o (lookup o.component before),
          contains-claim_repo o (lookup o.component before),
        ),
        λ c x owned other at.
            released-without o r c x owned other
              (ground (arith, eq_iff o.component c, lookup-insert o.component c claimed before)),
      )

  -- A repo that a component still lists when the release is done was its own.
  was_named :
      (o : RepoOnboarding) (r : MemoryRepository) (c id : String) (x : Component)
      → IsExclusive r
      → lookup c (release o (lookup o.repo_id r.repo_to_component) r.components) ≡ some x
      → contains x.repo_ids id ≡ true
      → lookup id r.repo_to_component ≡ some c
  was_named o r c id x exclusive at has = elim (Option-cases (lookup c r.components)) [
    | inl missing ↦
        absurd
          (ground (arith, lookup-release o (lookup o.repo_id r.repo_to_component) c r.components))
    | inr (y, found) ↦ exclusive c id y found (
        ground (
          arith,
          contains-filter y.repo_ids o.repo_id id,
          lookup-release o (lookup o.repo_id r.repo_to_component) c r.components,
        ))
  ]

  claimed_by :
      (o : RepoOnboarding) (r : MemoryRepository) (id : String) (prev : Option Component)
      → IsExclusive r
      → lookup o.component (release o (lookup o.repo_id r.repo_to_component) r.components) ≡ prev
      → contains (claim_repo o prev).repo_ids id ≡ true
      → (o.repo_id == id) ≡ false
      → lookup id r.repo_to_component ≡ some o.component
  claimed_by o r id none exclusive at has other = absurd (ground arith)
  claimed_by o r id (some y) exclusive at has other =
      was_named o r o.component id y exclusive at (contains-claim_repo_iff o y id has other)

  -- An onboarding keeps the components exclusive.
  pub add_repo_onboarding-IsExclusive :
      (o : RepoOnboarding) (r : MemoryRepository)
      → IsExclusive r
      → IsExclusive (add_repo_onboarding o r)
  unfolding add_repo_onboarding
  add_repo_onboarding-IsExclusive o r exclusive c id x at has =
      let before = release o (lookup o.repo_id r.repo_to_component) r.components in
      let claimed = claim_repo o (lookup o.component before) in
      let stored = lookup-insert o.component c claimed before in
      let index = lookup-insert o.repo_id id o.component r.repo_to_component in
      elim (Bool-cases (o.component == c)) [
        | inl here ↦ elim (Bool-cases (o.repo_id == id)) [
          | inl it ↦ ground (arith, eq_iff o.component c)
          | inr other ↦
              let same : claimed ≡ x = ground arith in
              let owned =
                claimed_by o r id (lookup o.component before) exclusive refl (rw same has) other in
              ground (arith, eq_iff o.component c)
        ]
        | inr elsewhere ↦
            let stays : lookup c before ≡ some x = ground arith in
            let owned = was_named o r c id x exclusive stays has in
            elim (Bool-cases (o.repo_id == id)) [
              | inr other ↦ ground arith
              | inl it ↦
                  ground
                    (arith, eq_iff o.repo_id id, eq_iff o.component c, released-without o r c x)
            ]
      ]
