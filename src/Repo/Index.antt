-- ===== src/Repo/Index.antt =====
-- internal/domain/repo/memory.go: the ownership indexes that AddComponent and AddRepoOnboarding keep.
pub mod Components
pub mod Onboarding
pub mod Moves
pub mod Reachable
use dalikamata.Prelude.{
  String, ◌≡◌, refl, Bool, true, false, not, ◌&&◌, Option, none, some, List, [], ◌∷◌, ◌++◌, ◌==◌,
  eq_iff, arith, filter, if◌then◌else◌, Bool-cases, inl, inr,
}
use dalikamata.Prelude.Dict.{Dict, contains, lookup, insert, delete, lookup-insert, lookup-delete}
use dalikamata.Platform.{Platform}
use dalikamata.Model.{Component}
use dalikamata.Repo.Memory.{MemoryRepository, text_at, drop_stale, index_repos}

abbrev pub team_of : Option Component → Option String
team_of none = none
team_of (some comp) = some comp.team_name

module _ ⦃go : Platform⦄ where
  -- Components are stored under their names; an indexed repo is listed by the component that the
  -- index names; and the team index has the team of every component, and no other entry.
  pub record IsIndexed (r : MemoryRepository) : Type 0 where
    pub named : (c : String) (comp : Component) → lookup c r.components ≡ some comp → comp.name ≡ c
    pub listed :
        (id c : String)
        → lookup id r.repo_to_component ≡ some c
        → (comp : Component) × (lookup c r.components ≡ some comp)
          × (contains comp.repo_ids id ≡ true)
    pub teams : (c : String) → lookup c r.component_to_team ≡ team_of (lookup c r.components)

pub lookup-index_repos :
    (id name : String) (ids : List String) (m : Dict String)
    → lookup id (index_repos name ids m) ≡ (if contains ids id then some name else lookup id m)
unfolding index_repos
lookup-index_repos id name [] m = refl
lookup-index_repos id name (i ∷ ids) m =
    ground (arith, lookup-index_repos id name ids (insert i name m), lookup-insert i id name m)

-- What the loop over a component's repos deletes: those that still name the component.
pub lookup-drop_stale :
    (id name : String) (ids : List String) (m : Dict String)
    → lookup id (drop_stale name ids m)
      ≡ (if contains ids id && text_at id m == name then none else lookup id m)
unfolding drop_stale
lookup-drop_stale id name [] m = refl
lookup-drop_stale id name (i ∷ ids) m = elim (Bool-cases (text_at i m == name)) [
  | inl stale ↦ rw stale (
      ground (arith, lookup-drop_stale id name ids (delete i m), lookup-delete i id m, eq_iff i id))
  | inr kept ↦ rw kept (ground (arith, lookup-drop_stale id name ids m, eq_iff i id))
]

pub contains-append_self : (xs : List String) (x : String) → contains (xs ++ x ∷ []) x ≡ true
contains-append_self [] x = ground (arith, eq_iff x x)
contains-append_self (y ∷ ys) x = ground (arith, contains-append_self ys x)

pub contains-append_of :
    (xs ys : List String) (x : String) → contains xs x ≡ true → contains (xs ++ ys) x ≡ true
contains-append_of [] ys x h = cc
contains-append_of (y ∷ xs) ys x h = ground (arith, contains-append_of xs ys x)

-- Filtering one text out keeps the others.
pub contains-filter :
    (xs : List String) (gone x : String)
    → contains (filter (λ id. not (id == gone)) xs) x ≡ (if gone == x then false else contains xs x)
contains-filter [] gone x = ground arith
contains-filter (y ∷ ys) gone x =
    ground (arith, contains-filter ys gone x, eq_iff y gone, eq_iff gone x, eq_iff y x)
