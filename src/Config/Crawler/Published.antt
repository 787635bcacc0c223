-- ===== src/Config/Crawler/Published.antt =====
-- internal/ingest/config/crawler.go: what a run publishes.
use dalikamata.Prelude.{
  String, ◌≡◌, refl, sym, ap, ◌∙◌, eq_iff, true, false, Option, none, List, [], ◌∷◌, ◌++◌, map,
  arith, if◌then◌else◌, ok, All, Result-cases, Bool-cases, inl, inr,
}
use mathlib.Core.List.{append-nil, append_assoc}
use dalikamata.Prelude.Dict.{contains}
use dalikamata.Model.{Team, Component}
use dalikamata.Config.Files.{ComponentFile, validate, convert_to_domain}
use dalikamata.Config.Validated.{is_valid, validate-ok}
use dalikamata.Config.Crawler.{publish_files, run}

pub data Event : Type 0 where
  team : Team → Event
  component : Component → Event

-- A publisher that never fails and records the events.
abbrev pub record_team : {E : Type 0} → Team → List Event → List Event × Option E
record_team t s = (s ++ team t ∷ [], none)

abbrev pub record_component : {E : Type 0} → Component → List Event → List Event × Option E
record_component c s = (s ++ component c ∷ [], none)

abbrev pub team_of_file : ComponentFile → Team
team_of_file f = record { name = f.team }

abbrev pub component_of_file : ComponentFile → Component
component_of_file f = record {
  name = f.name;
  team_name = f.team;
  repo_ids = map (λ r. r.id) f.repos;
}

-- The components among the events.
abbrev pub components_of : List Event → List Component
components_of [] = []
components_of (team t ∷ es) = components_of es
components_of (component c ∷ es) = c ∷ components_of es

-- Each team comes once, and before the components that name it.
abbrev pub TeamsFirst : List String → List Event → Type 0
TeamsFirst seen [] = Unit
TeamsFirst seen (team t ∷ es) = (contains seen t.name ≡ false) × TeamsFirst (t.name ∷ seen) es
TeamsFirst seen (component c ∷ es) = (contains seen c.team_name ≡ true) × TeamsFirst seen es

convert-ok :
    (f : ComponentFile)
    → is_valid f ≡ true
    → convert_to_domain f ≡ ok (team_of_file f, component_of_file f)
unfolding convert_to_domain
convert-ok f h = elim (Result-cases (validate f)) [
  | inl (u, e) ↦ rw e refl
  | inr (x, e) ↦ absurd (ground (arith, validate-ok f))
]

-- The events of a run.
abbrev events : List String → List ComponentFile → List Event
events seen [] = []
events seen (f ∷ fs) =
    let rest = events (f.team ∷ seen) fs in
    if contains seen f.team
    then component (component_of_file f) ∷ rest
    else team (team_of_file f) ∷ component (component_of_file f) ∷ rest

publish_files-events :
    {E : Type 0} (seen : List String) (files : List ComponentFile) (s : List Event)
    → All (λ f. is_valid f ≡ true) files
    → publish_files {E = E} record_team record_component seen files s
      ≡ (s ++ events seen files, none)
unfolding publish_files
publish_files-events seen [] s valid = rw (append-nil s) refl
publish_files-events {E} seen (f ∷ fs) s valid = elim (Bool-cases (contains seen f.team)) [
  | inl known ↦
      rw (publish_files, convert-ok f valid.0, known)
        (let now = component (component_of_file f) ∷ [] in
          publish_files-events {E = E} (f.team ∷ seen) fs (s ++ now) valid.1
          ∙ ap (λ es. (es, none)) (append_assoc s now (events (f.team ∷ seen) fs)))
  | inr new ↦
      rw (publish_files, convert-ok f valid.0, new)
        (let first = team (team_of_file f) ∷ [] in
          let second = component (component_of_file f) ∷ [] in
          let rest = events (f.team ∷ seen) fs in
          publish_files-events {E = E} (f.team ∷ seen) fs (s ++ first ++ second) valid.1
          ∙ ap (λ es. (es, none))
              (append_assoc (s ++ first) second rest ∙ append_assoc s first (second ++ rest)))
]

components_of-events :
    (seen : List String) (files : List ComponentFile)
    → components_of (events seen files) ≡ map component_of_file files
components_of-events seen [] = refl
components_of-events seen (f ∷ fs) = ground (arith, components_of-events (f.team ∷ seen) fs)

-- A set that holds more teams promises no less.
events-TeamsFirst :
    (seen also : List String) (files : List ComponentFile)
    → ((t : String) → contains seen t ≡ contains also t)
    → TeamsFirst also (events seen files)
events-TeamsFirst seen also [] same = tt
events-TeamsFirst seen also (f ∷ fs) same = elim (Bool-cases (contains seen f.team)) [
  | inl known ↦
      rw (TeamsFirst, events, known)
        (
          sym (same f.team) ∙ known,
          events-TeamsFirst (f.team ∷ seen) also fs (λ t. ground (arith, same t, eq_iff f.team t)),
        )
  | inr new ↦
      rw (TeamsFirst, events, new)
        (
          sym (same f.team) ∙ new,
          (
            ground (arith, eq_iff f.team f.team),
            events-TeamsFirst (f.team ∷ seen) (f.team ∷ also) fs (λ t. ground (arith, same t)),
          ),
        )
]

-- A run over valid files with a publisher that never fails ends well. It publishes the component
-- of each file, in the files' order, and each team once, before the components that name it.
pub run_lem :
    {E : Type 0} (files : List ComponentFile)
    → All (λ f. is_valid f ≡ true) files
    → (es : List Event) × (run {E = E} record_team record_component (ok files) [] ≡ (es, none))
      × (components_of es ≡ map component_of_file files)
      × TeamsFirst [] es
unfolding run
run_lem {E} files valid = (
  events [] files,
  publish_files-events {E = E} [] files [] valid,
  components_of-events [] files,
  events-TeamsFirst [] [] files (λ t. refl),
)
