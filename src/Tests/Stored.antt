-- ===== src/Tests/Stored.antt =====
-- A database whose cells are the times and the lists themselves.
use dalikamata.Prelude.{ℕ, refl, [], ◌∷◌, List, String, Result, ok, err, arith, eq_iff}
use dalikamata.Repo.Memory.{
  new_memory, add_repo, add_commit, add_team, add_component, drop_stale, index_repos,
}
use dalikamata.Prelude.Dict.{lookup, insert, delete}
use dalikamata.Sqlite.Tables.{Texts}
use dalikamata.Sqlite.Written.{
  Write, repo, commit, team, component, onboarding, HaveOneOwner, in_memory, new_database, on_disk,
  Holds, ReadsBackIds,
}
use dalikamata.Sqlite.Written.Stored.{on_disk-Holds}
use dalikamata.Tests.World.{numbers}

data Cell : Type 0 where
  of_time : ℕ → Cell
  of_ids : List String → Cell

abbrev read_time : Cell → Result String ℕ
read_time (of_time t) = ok t
read_time (of_ids ids) = err "no time"

abbrev read_ids : Cell → Result String (List String)
read_ids (of_time t) = err "no list"
read_ids (of_ids ids) = ok ids

abbrev texts : Texts Cell String
texts = record {
  format_time = λ t. of_time t;
  parse_time = read_time;
  marshal_ids = λ ids. ok (of_ids ids);
  unmarshal_ids = read_ids;
}

texts-ReadsBackIds : ReadsBackIds texts
texts-ReadsBackIds ids = (of_ids ids, (refl, refl))

-- A component that is written twice, and whose repo moves to a new one.
abbrev writes : List Write
writes =
    repo (record { repo_id = "p/api"; name = "API" })
    ∷ commit (record { sha = "a1"; repo_id = "p/api"; author = "ann"; timestamp = 5 })
    ∷ team (record { name = "red" })
    ∷ component (record { name = "shop"; team_name = "red"; repo_ids = [] })
    ∷ component (record { name = "shop"; team_name = "blue"; repo_ids = "p/api" ∷ [] })
    ∷ onboarding (record { repo_id = "p/api"; component = "billing"; team = "green" })
    ∷ []

writes-HaveOneOwner : HaveOneOwner writes new_memory
unfolding add_repo add_commit add_team add_component lookup insert delete drop_stale index_repos
writes-HaveOneOwner = ((λ c x at has. ground (arith, eq_iff "shop" c)), tt)

on_disk-Holds_example :
    Holds texts (on_disk texts writes new_database) (in_memory writes new_memory)
on_disk-Holds_example = on_disk-Holds texts texts-ReadsBackIds writes writes-HaveOneOwner
