-- ===== src/Config/Validated.antt =====
-- internal/config/component: which files are valid.
use dalikamata.Prelude.{
  ℕ, suc, String, ◌≡◌, refl, Bool, true, not, ◌&&◌, List, [], ◌∷◌, all, arith, ◌==◌, is_empty,
  is_ok,
}
use dalikamata.Prelude.Dict.{contains}
use dalikamata.Prelude.Texts.{is_blank}
use dalikamata.Config.Files.{
  RepoRef, ComponentFile, schema_version, validate_some, validate_repos, validate,
}

-- No ID stands twice, among themselves or with those before.
abbrev pub no_repeats : List String → List RepoRef → Bool
no_repeats seen [] = true
no_repeats seen (r ∷ rs) = not (contains seen r.id) && no_repeats (r.id ∷ seen) rs

-- What makes a component file valid.
abbrev pub is_valid : ComponentFile → Bool
is_valid f =
    f.version == schema_version
    && not (is_blank f.name)
    && not (is_blank f.team)
    && not (is_empty f.repos)
    && all (λ r. not (is_blank r.id)) f.repos
    && no_repeats [] f.repos

validate_repos-ok :
    (i : ℕ) (seen : List String) (rs : List RepoRef)
    → is_ok (validate_repos i seen rs) ≡ (all (λ r. not (is_blank r.id)) rs && no_repeats seen rs)
unfolding validate_repos
validate_repos-ok i seen [] = refl
validate_repos-ok i seen (r ∷ rs) = ground (arith, validate_repos-ok (suc i) (r.id ∷ seen) rs)

validate_some-ok :
    (rs : List RepoRef)
    → is_ok (validate_some rs)
      ≡ (not (is_empty rs) && all (λ r. not (is_blank r.id)) rs && no_repeats [] rs)
validate_some-ok [] = refl
validate_some-ok (r ∷ rs) = validate_repos-ok 0 [] (r ∷ rs)

-- Validate accepts a file exactly if the version is the schema's, the name and the team are not
-- blank, and there are repos, with IDs that are not blank and all different.
pub validate-ok : (f : ComponentFile) → is_ok (validate f) ≡ is_valid f
unfolding validate
validate-ok f = ground (arith, validate_some-ok f.repos)
