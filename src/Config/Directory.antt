-- ===== src/Config/Directory.antt =====
-- internal/config/component: what LoadDir returns.
use dalikamata.Prelude.{
  String, ◌≡◌, refl, sym, ap, true, false, none, List, [], ◌∷◌, ◌++◌, map, arith, eq_iff, ◌↔◌,
  Result, ok, err, ◌>>=◌, >>=-eq-ok, All, Result-cases, Option-cases, inl, inr,
}
use dalikamata.Prelude.Dict.{Dict, Distinct, contains, lookup, insert, lookup-insert}
use dalikamata.Config.Files.{
  ComponentFile, LoadError, from_system, if_valid, validate, load, load_entries, load_dir,
}
use dalikamata.Config.Validated.{is_valid, validate-ok}

abbrev pub names : List ComponentFile → List String
names = map (λ f. f.name)

-- A name that neither `seen` nor an earlier file has.
abbrev pub AllNew : Dict String → List ComponentFile → Type 0
AllNew seen [] = Unit
AllNew seen (f ∷ fs) = (lookup f.name seen ≡ none) × AllNew seen fs

AllNew-insert :
    (n path : String) (seen : Dict String) (fs : List ComponentFile)
    → AllNew (insert n path seen) fs
    → (contains (names fs) n ≡ false) × AllNew seen fs
AllNew-insert n path seen [] h = (refl, tt)
AllNew-insert n path seen (f ∷ fs) h = ground (
  arith,
  AllNew-insert n path seen fs h.1,
  lookup-insert n f.name path seen,
  eq_iff n f.name,
  eq_iff f.name n,
)

AllNew-of-insert :
    (n path : String) (seen : Dict String) (fs : List ComponentFile)
    → contains (names fs) n ≡ false
    → AllNew seen fs
    → AllNew (insert n path seen) fs
AllNew-of-insert n path seen [] new h = tt
AllNew-of-insert n path seen (f ∷ fs) new h = ground (
  arith,
  AllNew-of-insert n path seen fs,
  lookup-insert n f.name path seen,
  eq_iff n f.name,
  eq_iff f.name n,
)

AllNew-nil : (fs : List ComponentFile) → AllNew [] fs
unfolding lookup
AllNew-nil [] = tt
AllNew-nil (f ∷ fs) = (refl, AllNew-nil fs)

module _ {E : Type 0} {Data : Type 0} (read_file : String → Result E Data)
    (unmarshal : Data → Result E ComponentFile) (glob : String → Result E (List String)) where
  -- The files that load, in the paths' order.
  abbrev with_loaded : Result (LoadError E) ComponentFile → List ComponentFile → List ComponentFile
  with_loaded (err e) fs = fs
  with_loaded (ok f) fs = f ∷ fs

  abbrev pub loaded : List String → List ComponentFile
  loaded [] = []
  loaded (path ∷ paths) = with_loaded (load read_file unmarshal glob path) (loaded paths)

  load-valid :
      (path : String) (f : ComponentFile)
      → load read_file unmarshal glob path ≡ ok f
      → is_valid f ≡ true
  unfolding load
  load-valid path f h =
      let (content, read, then_parse) = >>=-eq-ok (from_system (read_file path)) _ h in
      let (g, parsed, then_validate) = >>=-eq-ok (from_system (unmarshal content)) _ then_parse in
      let (_, valid, made) = >>=-eq-ok (if_valid (validate g)) _ then_validate in
      ground (arith, validate-ok g)

  loaded-valid : (paths : List String) → All (λ f. is_valid f ≡ true) (loaded paths)
  loaded-valid [] = tt
  loaded-valid (path ∷ paths) = elim (Result-cases (load read_file unmarshal glob path)) [
    | inl (f, e) ↦ rw (All, e) (load-valid path f e, loaded-valid paths)
    | inr (x, e) ↦ rw (All, e) (loaded-valid paths)
  ]

  load_entries-ok :
      (seen : Dict String) (paths : List String) (files : List ComponentFile)
      → load_entries read_file unmarshal glob seen paths ≡ ok files
      → (files ≡ loaded paths) × Distinct (names files) × AllNew seen files
  unfolding load_entries
  load_entries-ok seen [] files h =
      let none_left : [] ≡ files = ground arith in rw (sym none_left) (refl, tt, tt)
  load_entries-ok seen (path ∷ paths) files h =
      elim (Result-cases (load read_file unmarshal glob path)) [
        | inr (x, skipped) ↦
            let (same, distinct, new) = load_entries-ok seen paths files (ground arith) in
            (rw skipped same, distinct, new)
        | inl (f, found) ↦ elim (Option-cases (lookup f.name seen)) [
          | inr (prev, twice) ↦ absurd (ground arith)
          | inl first ↦
              let rest = load_entries read_file unmarshal glob (insert f.name path seen) paths in
              let after : (rest >>= λ fs. ok (f ∷ fs)) ≡ ok files = ground arith in
              let (fs, others, made) = >>=-eq-ok rest _ after in
              let (same, distinct, new) =
                load_entries-ok (insert f.name path seen) paths fs others in
              let (absent, new_before) = AllNew-insert f.name path seen fs new in
              let cons : files ≡ f ∷ fs = ground arith in
              rw (cons, found) (ap (λ l. f ∷ l) same, (absent, distinct), (first, new_before))
        ]
      ]

  load_entries-loaded :
      (seen : Dict String) (paths : List String)
      → Distinct (names (loaded paths))
      → AllNew seen (loaded paths)
      → load_entries read_file unmarshal glob seen paths ≡ ok (loaded paths)
  unfolding load_entries
  load_entries-loaded seen [] distinct new = refl
  load_entries-loaded seen (path ∷ paths) distinct new =
      elim (Result-cases (load read_file unmarshal glob path)) [
        | inr (x, skipped) ↦ ground (arith, load_entries-loaded seen paths)
        | inl (f, found) ↦ ground (
          arith,
          load_entries-loaded (insert f.name path seen) paths,
          AllNew-of-insert f.name path seen (loaded paths),
        )
      ]

  -- LoadDir, when both patterns can be listed: it succeeds exactly if the names of the files that
  -- load are all different, and returns those files, all of them valid, the *.yaml files before
  -- the *.yml files. A file that fails to load is left out and stops nothing.
  pub load_dir_lem :
      (yaml yml : List String) (files : List ComponentFile)
      → glob "*.yaml" ≡ ok yaml
      → glob "*.yml" ≡ ok yml
      → ((load_dir read_file unmarshal glob ≡ ok files)
          ↔ ((files ≡ loaded (yaml ++ yml)) × Distinct (names files)))
        × All (λ f. is_valid f ≡ true) (loaded (yaml ++ yml))
  unfolding load_dir
  load_dir_lem yaml yml files listed listed_too = (
    rw (listed, listed_too)
        (
          λ h.
              let (same, distinct, new) = load_entries-ok [] (yaml ++ yml) files h in
              (same, distinct),
          λ h. rw (h.0) (
              load_entries-loaded [] (yaml ++ yml) (rw (sym h.0) h.1)
                (AllNew-nil (loaded (yaml ++ yml)))),
        ),
    loaded-valid (yaml ++ yml),
  )
