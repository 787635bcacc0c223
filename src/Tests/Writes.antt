-- ===== src/Tests/Writes.antt =====
-- A component file's component, then a repo that moves to another component.
use dalikamata.Prelude.{
  ◌≡◌, ◌↔◌, ◌≢◌, refl, true, false, none, some, [], ◌∷◌, arith, String, if◌then◌else◌, ◌==◌, eq_iff,
}
use dalikamata.Prelude.Dict.{contains, lookup, insert, delete}
use dalikamata.Model.{Component, RepoOnboarding}
use dalikamata.Repo.Memory.{
  MemoryRepository, new_memory, drop_stale, index_repos, add_component, add_repo_onboarding,
}
use dalikamata.Repo.Index.{IsIndexed}
use dalikamata.Repo.Index.Components.{add_component-owns_iff, add_component-others}
use dalikamata.Repo.Index.Moves.{
  IsExclusive, add_repo_onboarding_idempotent, add_repo_onboarding_lem,
  add_repo_onboarding-IsExclusive,
}
use dalikamata.Repo.Index.Reachable.{Reachable, Step, reachable-IsIndexed}
use dalikamata.Tests.World.{numbers}

abbrev shop : Component
shop = record { name = "shop"; team_name = "red"; repo_ids = "p/web" ∷ "p/api" ∷ [] }

abbrev smaller_shop : Component
smaller_shop = record { name = "shop"; team_name = "red"; repo_ids = "p/web" ∷ [] }

abbrev billing : Component
billing = record { name = "billing"; team_name = "blue"; repo_ids = "p/bill" ∷ [] }

abbrev moved : RepoOnboarding
moved = record { repo_id = "p/api"; component = "billing"; team = "blue" }

abbrev before : MemoryRepository
before = add_component shop new_memory

abbrev reached : Reachable before
reached = Reachable.step Reachable.start (Step.component shop)

reachable-IsIndexed_example :
    IsIndexed (add_repo_onboarding moved before)
    × ((id : String)
        → lookup id (add_repo_onboarding moved before).repo_to_component ≡ (
            if "p/api" == id
            then some "billing"
            else if contains ("p/web" ∷ "p/api" ∷ []) id
            then some "shop"
            else none))
reachable-IsIndexed_example = reachable-IsIndexed (Reachable.step reached (Step.onboarding moved))

before-IsIndexed : IsIndexed before
before-IsIndexed = (reachable-IsIndexed reached).0

add_component-owns_iff_example :
    (lookup "p/api" (add_component smaller_shop before).repo_to_component ≡ some "shop")
    ↔ (contains ("p/web" ∷ []) "p/api" ≡ true)
add_component-owns_iff_example = add_component-owns_iff smaller_shop before "p/api" before-IsIndexed

add_component-others_example :
    lookup "p/api" (add_component billing before).repo_to_component ≡ some "shop"
unfolding add_component lookup insert delete drop_stale index_repos
add_component-others_example =
    add_component-others billing before "p/api" "shop" before-IsIndexed refl refl (λ e. cc)

add_repo_onboarding_idempotent_example :
    add_repo_onboarding moved (add_repo_onboarding moved before) ≡ add_repo_onboarding moved before
add_repo_onboarding_idempotent_example = add_repo_onboarding_idempotent moved before

add_repo_onboarding_example :
    ((id : String)
      → lookup id (add_repo_onboarding moved before).repo_to_component
        ≡ (if "p/api" == id then some "billing" else lookup id before.repo_to_component))
    × ((x : Component) × (lookup "billing" (add_repo_onboarding moved before).components ≡ some x)
        × (x.team_name ≡ "blue")
        × (contains x.repo_ids "p/api" ≡ true))
    × ((c : String) (x : Component)
        → lookup "p/api" before.repo_to_component ≡ some c
        → c ≢ "billing"
        → lookup c (add_repo_onboarding moved before).components ≡ some x
        → contains x.repo_ids "p/api" ≡ false)
add_repo_onboarding_example = add_repo_onboarding_lem moved before

before-IsExclusive : IsExclusive before
unfolding add_component lookup insert index_repos
before-IsExclusive c id x at has = ground (arith, eq_iff "shop" c)

add_repo_onboarding-IsExclusive_example : IsExclusive (add_repo_onboarding moved before)
add_repo_onboarding-IsExclusive_example =
    add_repo_onboarding-IsExclusive moved before before-IsExclusive
