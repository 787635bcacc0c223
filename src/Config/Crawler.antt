-- ===== src/Config/Crawler.antt =====
-- internal/ingest/config/crawler.go: Run publishes the teams and the components of the files.
-- The publisher is the caller's step on a state of its own.
pub mod Published
use dalikamata.Prelude.{
  String, true, Option, none, some, List, [], ◌∷◌, if◌then◌else◌, Result, ok, err,
}
use dalikamata.Prelude.Dict.{contains}
use dalikamata.Model.{Team, Component}
use dalikamata.Config.Files.{ComponentFile, Invalid, LoadError, convert_to_domain}

pub data RunError (E : Type 0) : Type 0 where
  loading : LoadError E → RunError E
  converting : String → Invalid → RunError E
  publishing_team publishing_component : String → E → RunError E

module _ {E S : Type 0} (publish_team : Team → S → S × Option E)
    (publish_component : Component → S → S × Option E) where
  -- A step that fails ends the run, and one that succeeds goes on.
  abbrev pub and_then :
      S × Option E → (E → RunError E) → (S → S × Option (RunError E)) → S × Option (RunError E)
  and_then (s, some e) fail next = (s, some (fail e))
  and_then (s, none) fail next = next s

  -- The body of the loop for a file that converts.
  abbrev pub publish_file :
      List String → Team → Component → (S → S × Option (RunError E)) → S → S × Option (RunError E)
  publish_file seen team comp next s =
      and_then (if contains seen team.name then (s, none) else publish_team team s)
        (publishing_team team.name)
        (λ t. and_then (publish_component comp t) (publishing_component comp.name) next)

  -- The loop over the files; `seen` holds the teams that were published.
  unfoldable pub publish_files : List String → List ComponentFile → S → S × Option (RunError E)
  publish_files seen [] s = (s, none)
  publish_files seen (f ∷ fs) s = elim (convert_to_domain f) [
    | err e ↦ (s, some (converting f.name e))
    | ok (team, comp) ↦ publish_file seen team comp (λ t. publish_files (team.name ∷ seen) fs t) s
  ]

  unfoldable pub run : Result (LoadError E) (List ComponentFile) → S → S × Option (RunError E)
  run (err e) s = (s, some (loading e))
  run (ok files) s = publish_files [] files s
