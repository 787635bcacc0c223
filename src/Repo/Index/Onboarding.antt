-- ===== src/Repo/Index/Onboarding.antt =====
-- internal/domain/repo/memory.go: AddRepoOnboarding and the indexes.
use dalikamata.Prelude.{
  String, ◌≡◌, refl, Bool, true, false, not, ◌&&◌, Option, none, some, [], ◌∷◌, ◌==◌, eq_iff, arith,
  filter, if◌then◌else◌, Bool-cases, Option-cases, inl, inr, ◌≢◌,
}
use dalikamata.Prelude.Dict.{Dict, contains, lookup, lookup-insert}
use dalikamata.Platform.{Platform}
use dalikamata.Model.{Component, RepoOnboarding}
use dalikamata.Repo.Memory.{MemoryRepository, release, claim_repo, add_repo_onboarding}
use dalikamata.Repo.Index.{
  IsIndexed, team_of, contains-append_self, contains-append_of, contains-filter,
}

-- Whether the onboarding takes the repo from the component c.
abbrev pub loses : RepoOnboarding → Option String → String → Bool
loses o none c = false
loses o (some prev_name) c = not (prev_name == o.component) && prev_name == c

abbrev pub without_repo : RepoOnboarding → Option Component → Option Component
without_repo o none = none
without_repo o (some x) =
    some (record x { repo_ids = filter (λ id. not (id == o.repo_id)) x.repo_ids })

pub lookup-release :
    (o : RepoOnboarding) (prev : Option String) (c : String) (m : Dict Component)
    → lookup c (release o prev m)
      ≡ (if loses o prev c then without_repo o (lookup c m) else lookup c m)
lookup-release o none c m = refl
lookup-release o (some p) c m = elim (Bool-cases (p == o.component)) [
  | inl same ↦ rw same refl
  | inr other ↦ rw other (elim (Option-cases (lookup p m)) [
    | inl missing ↦ ground (arith, eq_iff p c)
    | inr (x, found) ↦ rw found (
        ground (
          arith,
          eq_iff p c,
          lookup-insert p c
              (record x { repo_ids = filter (λ id. not (id == o.repo_id)) x.repo_ids }) m,
        ))
  ])
]

pub contains-claim_repo :
    (o : RepoOnboarding) (x : Option Component)
    → contains (claim_repo o x).repo_ids o.repo_id ≡ true
contains-claim_repo o none = ground (arith, eq_iff o.repo_id o.repo_id)
contains-claim_repo o (some x) = ground (arith, contains-append_self x.repo_ids o.repo_id)

pub contains-claim_repo_of :
    (o : RepoOnboarding) (x : Component) (id : String)
    → contains x.repo_ids id ≡ true
    → contains (claim_repo o (some x)).repo_ids id ≡ true
contains-claim_repo_of o x id h = ground (arith, contains-append_of x.repo_ids (o.repo_id ∷ []) id)

module _ ⦃go : Platform⦄ where
  module _ (o : RepoOnboarding) (r : MemoryRepository) (indexed : IsIndexed r) where
    abbrev released : Dict Component
    released = release o (lookup o.repo_id r.repo_to_component) r.components

    -- A component keeps its name, its team and every other repo.
    released-kept :
        (c id : String) (x : Component)
        → lookup c r.components ≡ some x
        → contains x.repo_ids id ≡ true
        → id ≢ o.repo_id
        → (y : Component) × (lookup c released ≡ some y) × (contains y.repo_ids id ≡ true)
    released-kept c id x at has other =
        elim (Bool-cases (loses o (lookup o.repo_id r.repo_to_component) c)) [
          | inr keeps ↦ (
            x,
            ground (arith, lookup-release o (lookup o.repo_id r.repo_to_component) c r.components),
            has,
          )
          | inl gone ↦ (
            record x { repo_ids = filter (λ i. not (i == o.repo_id)) x.repo_ids },
            ground (arith, lookup-release o (lookup o.repo_id r.repo_to_component) c r.components),
            ground (arith, contains-filter x.repo_ids o.repo_id id, eq_iff o.repo_id id),
          )
        ]

    released-named : (c : String) (x : Component) → lookup c released ≡ some x → x.name ≡ c
    released-named c x h = elim (Option-cases (lookup c r.components)) [
      | inl missing ↦
          absurd
            (ground (arith, lookup-release o (lookup o.repo_id r.repo_to_component) c r.components))
      | inr (y, found) ↦ ground (
        arith,
        lookup-release o (lookup o.repo_id r.repo_to_component) c r.components,
        indexed.named c y found,
      )
    ]

    released-team : (c : String) → team_of (lookup c released) ≡ team_of (lookup c r.components)
    released-team c = elim (Option-cases (lookup c r.components)) [
      | inl missing ↦
          ground (arith, lookup-release o (lookup o.repo_id r.repo_to_component) c r.components)
      | inr (y, found) ↦
          ground (arith, lookup-release o (lookup o.repo_id r.repo_to_component) c r.components)
    ]

    onboarded-listed :
        (id c : String)
        → lookup id (add_repo_onboarding o r).repo_to_component ≡ some c
        → (x : Component) × (lookup c (add_repo_onboarding o r).components ≡ some x)
          × (contains x.repo_ids id ≡ true)
    unfolding add_repo_onboarding
    onboarded-listed id c h =
        let claimed = claim_repo o (lookup o.component released) in
        let stored = lookup-insert o.component c claimed released in
        elim (Bool-cases (o.repo_id == id)) [
          | inl same ↦ (
            claimed,
            ground (
              arith,
              stored,
              lookup-insert o.repo_id id o.component r.repo_to_component,
              eq_iff o.component c,
            ),
            ground
                (arith, eq_iff o.repo_id id, contains-claim_repo o (lookup o.component released)),
          )
          | inr other ↦
              let before : lookup id r.repo_to_component ≡ some c =
                ground (arith, lookup-insert o.repo_id id o.component r.repo_to_component) in
              let (x, at, has) = indexed.listed id c before in
              let differs : id ≢ o.repo_id = λ e. ground (arith, eq_iff o.repo_id id) in
              let (y, kept, holds) = released-kept c id x at has differs in
              elim (Bool-cases (o.component == c)) [
                | inr elsewhere ↦ (y, ground (arith, stored), holds)
                | inl here ↦
                    let at_target : lookup o.component released ≡ some y =
                      ground (arith, eq_iff o.component c) in
                    (
                      claimed,
                      ground (arith, stored),
                      rw at_target (contains-claim_repo_of o y id holds),
                    )
              ]
        ]

    -- AddRepoOnboarding keeps the indexes right.
    pub add_repo_onboarding-IsIndexed : IsIndexed (add_repo_onboarding o r)
    unfolding add_repo_onboarding
    add_repo_onboarding-IsIndexed = record {
      named = λ c x h. ground (
        arith,
        lookup-insert o.component c (claim_repo o (lookup o.component released)) released,
        eq_iff o.component c,
        released-named c x,
      );
      listed = onboarded-listed;
      teams = λ c. ground (
        arith,
        lookup-insert o.component c (claim_repo o (lookup o.component released)) released,
        lookup-insert o.component c o.team r.component_to_team,
        indexed.teams c,
        released-team c,
      );
    }
