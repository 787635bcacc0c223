-- ===== src/Tests/Configured.antt =====
-- A directory of two component files, one of them broken.
use dalikamata.Prelude.{
  ◌≡◌, ◌↔◌, refl, true, none, List, [], ◌∷◌, ◌++◌, map, All, String, Result, ok, err, is_ok,
  if◌then◌else◌, ◌==◌,
}
use dalikamata.Prelude.Dict.{Distinct}
use dalikamata.Prelude.Texts.{is_blank}
use dalikamata.Config.Files.{ComponentFile, validate, load_dir}
use dalikamata.Config.Validated.{is_valid, validate-ok}
use dalikamata.Config.Directory.{names, loaded, load_dir_lem}
use dalikamata.Config.Crawler.{run}
use dalikamata.Config.Crawler.Published.{
  Event, record_team, record_component, component_of_file, components_of, TeamsFirst, run_lem,
}

abbrev shop_file : ComponentFile
shop_file = record {
  version = "1";
  name = "shop";
  team = "red";
  repos = record { id = "p/web" } ∷ record { id = "p/api" } ∷ [];
}

abbrev core_file : ComponentFile
core_file = record {
  version = "1";
  name = "core";
  team = "red";
  repos = record { id = "p/core" } ∷ [];
}

abbrev nameless_file : ComponentFile
nameless_file = record { version = "1"; name = " "; team = "red"; repos = [] }

validate-ok_example : is_ok (validate shop_file) ≡ is_valid shop_file
validate-ok_example = validate-ok shop_file

-- The paths are the contents.
abbrev read_file : String → Result String String
read_file path = ok path

abbrev unmarshal : String → Result String ComponentFile
unmarshal content =
    if content == "shop.yaml"
    then ok shop_file
    else if content == "core.yml"
    then ok core_file
    else if content == "nameless.yaml"
    then ok nameless_file
    else err "no YAML"

abbrev yaml : List String
yaml = "nameless.yaml" ∷ "shop.yaml" ∷ []

abbrev glob : String → Result String (List String)
glob pattern = if pattern == "*.yaml" then ok yaml else ok ("core.yml" ∷ [])

load_dir_example :
    ((load_dir read_file unmarshal glob ≡ ok (shop_file ∷ core_file ∷ [])) ↔ (
      (shop_file ∷ core_file ∷ [] ≡ loaded read_file unmarshal glob (yaml ++ "core.yml" ∷ []))
      × Distinct (names (shop_file ∷ core_file ∷ []))))
    × All (λ f. is_valid f ≡ true) (loaded read_file unmarshal glob (yaml ++ "core.yml" ∷ []))
load_dir_example =
    load_dir_lem read_file unmarshal glob yaml ("core.yml" ∷ []) (shop_file ∷ core_file ∷ []) refl
      refl

run_example :
    (es : List Event) × (run {E = String} record_team record_component
        (ok (shop_file ∷ core_file ∷ []))
        []
      ≡ (es, none))
    × (components_of es ≡ map component_of_file (shop_file ∷ core_file ∷ []))
    × TeamsFirst [] es
unfolding is_blank
run_example = run_lem (shop_file ∷ core_file ∷ []) (refl, (refl, tt))
