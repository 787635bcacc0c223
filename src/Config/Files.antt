-- ===== src/Config/Files.antt =====
-- internal/config/component: the files, their rules, their conversion and the directory.
use dalikamata.Prelude.{
  ℕ, suc, String, not, ◌∷◌, [], ◌++◌, Option, none, some, List, map, ◌==◌, if◌then◌else◌, Result,
  ok, err, ◌>>=◌, ◌>>◌,
}
use dalikamata.Prelude.Dict.{Dict, contains, lookup, insert}
use dalikamata.Prelude.Texts.{is_blank}
use dalikamata.Model.{Team, Component, RepoOnboarding}

abbrev pub schema_version : String
schema_version = "1"

pub record RepoRef : Type 0 where
  pub id : String

pub record ComponentFile : Type 0 where
  pub version : String
  pub name : String
  pub team : String
  pub repos : List RepoRef

pub record RepoFile : Type 0 where
  pub version : String
  pub team : String
  pub component : String

-- The messages of Validate.
pub data Invalid : Type 0 where
  unsupported_version : String → Invalid
  name_is_required team_is_required component_is_required repos_are_empty : Invalid
  repo_id_is_required : ℕ → Invalid
  repo_id_is_duplicated : ℕ → String → Invalid

abbrev ids_of : List RepoRef → List String
ids_of = map (λ r. r.id)

-- The loop over the repos, from the index i; `seen` holds the IDs before it.
unfoldable pub validate_repos : ℕ → List String → List RepoRef → Result Invalid (Unit {0})
validate_repos i seen [] = ok tt
validate_repos i seen (r ∷ rs) =
    let rest = validate_repos (suc i) (r.id ∷ seen) rs in
    if is_blank r.id
    then err (repo_id_is_required i)
    else if contains seen r.id
    then err (repo_id_is_duplicated i r.id)
    else rest

abbrev pub validate_some : List RepoRef → Result Invalid (Unit {0})
validate_some [] = err repos_are_empty
validate_some (r ∷ rs) = validate_repos 0 [] (r ∷ rs)

unfoldable pub validate : ComponentFile → Result Invalid (Unit {0})
validate f =
    if not (f.version == schema_version)
    then err (unsupported_version f.version)
    else if is_blank f.name
    then err name_is_required
    else if is_blank f.team
    then err team_is_required
    else validate_some f.repos

unfoldable pub validate_repo_file : RepoFile → Result Invalid (Unit {0})
validate_repo_file f =
    if not (f.version == schema_version)
    then err (unsupported_version f.version)
    else if is_blank f.team
    then err team_is_required
    else if is_blank f.component
    then err component_is_required
    else ok tt

unfoldable pub convert_to_domain : ComponentFile → Result Invalid (Team × Component)
convert_to_domain f =
    validate f
    >> ok (
      record { name = f.team },
      record { name = f.name; team_name = f.team; repo_ids = ids_of f.repos },
    )

unfoldable pub to_repo_onboarding : String → RepoFile → Result Invalid RepoOnboarding
to_repo_onboarding repo_id f =
    validate_repo_file f
    >> ok (record { repo_id = repo_id; component = f.component; team = f.team })

-- How the operating system and the YAML library fail, and what the program makes of it.
pub data LoadError (E : Type 0) : Type 0 where
  of_system : E → LoadError E
  invalid : Invalid → LoadError E
  duplicate_name : (name path prev : String) → LoadError E

abbrev pub from_system {ℓ} : {E : Type 0} {A : Type ℓ} → Result E A → Result (LoadError E) A
from_system (ok a) = ok a
from_system (err e) = err (of_system e)

abbrev pub if_valid {ℓ} : {E : Type 0} {A : Type ℓ} → Result Invalid A → Result (LoadError E) A
if_valid (ok a) = ok a
if_valid (err e) = err (invalid e)

-- ParseRepoFile, after yaml.Unmarshal
unfoldable pub parse_repo_file :
    {E : Type 0} {Data : Type 0} → (Data → Result E RepoFile) → Data → Result (LoadError E) RepoFile
parse_repo_file unmarshal content = do
  f ← from_system (unmarshal content)
  _ ← if_valid (validate_repo_file f)
  ok f

-- os.ReadFile, yaml.Unmarshal, and filepath.Glob in the directory
module _ {E : Type 0} {Data : Type 0} (read_file : String → Result E Data)
    (unmarshal : Data → Result E ComponentFile) (glob : String → Result E (List String)) where
  unfoldable pub load : String → Result (LoadError E) ComponentFile
  load path = do
    content ← from_system (read_file path)
    f ← from_system (unmarshal content)
    _ ← if_valid (validate f)
    ok f

  -- A name that was seen ends the loop, and a new one goes on with the rest.
  abbrev pub add_file :
      (path : String) (f : ComponentFile)
      → Option String
      → Result (LoadError E) (List ComponentFile)
      → Result (LoadError E) (List ComponentFile)
  add_file path f (some prev) rest = err (duplicate_name f.name path prev)
  add_file path f none rest = do files ← rest; ok (f ∷ files)

  -- The loop over the paths; `seen` has the path of each name. A file that fails to load is skipped.
  unfoldable pub load_entries :
      Dict String → List String → Result (LoadError E) (List ComponentFile)
  load_entries seen [] = ok []
  load_entries seen (path ∷ paths) = elim (load path) [
    | err e ↦ load_entries seen paths
    | ok f ↦ add_file path f (lookup f.name seen) (load_entries (insert f.name path seen) paths)
  ]

  unfoldable pub load_dir : Result (LoadError E) (List ComponentFile)
  load_dir = do
    entries ← from_system (glob "*.yaml")
    yml_entries ← from_system (glob "*.yml")
    load_entries [] (entries ++ yml_entries)
