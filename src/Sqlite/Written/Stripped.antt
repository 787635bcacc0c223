-- ===== src/Sqlite/Written/Stripped.antt =====
-- internal/domain/repo/sqlite.go beside memory.go: the components that an onboarding takes its repo
-- from. SQLite strips the repo from every other component, the memory repository from the one that
-- its index names.
use dalikamata.Prelude.{
  ℕ, suc, String, ◌≡◌, refl, ap, ◌∙◌, sym, Bool, true, false, not, ◌==◌, eq_iff, arith, List, [],
  ◌∷◌, map, filter, ok, Bool-cases, inl, inr, if◌then◌else◌,
}
use dalikamata.Prelude.Dict.{Distinct, contains}
use dalikamata.Platform.{Platform}
use dalikamata.Model.{Component, RepoOnboarding}
use dalikamata.Sqlite.Tables.{ComponentRow, Texts}
use dalikamata.Sqlite.Writes.{component_row, set_ids, strip_others}
use dalikamata.Sqlite.Written.{no_failure, ReadsBackIds}

abbrev pub others_than : String → List String → List String
others_than x = filter (λ id. not (id == x))

-- A component without the repo, unless it is the one that gets it.
abbrev pub strip : RepoOnboarding → Component → Component
strip o c =
    if c.name == o.component then c else record c { repo_ids = others_than o.repo_id c.repo_ids }

abbrev pub names : List Component → List String
names = map (λ c. c.name)

pub strip-name : (o : RepoOnboarding) (c : Component) → (strip o c).name ≡ c.name
strip-name o c = elim (Bool-cases (c.name == o.component)) [
  | inl target ↦ simp (target) refl
  | inr other ↦ simp (other) refl
]

filter_absent : (x : String) (xs : List String) → contains xs x ≡ false → others_than x xs ≡ xs
filter_absent x [] h = refl
filter_absent x (y ∷ ys) h = ground (arith, filter_absent x ys)

pub strip_absent :
    (o : RepoOnboarding) (c : Component) → contains c.repo_ids o.repo_id ≡ false → strip o c ≡ c
strip_absent o c h = elim (Bool-cases (c.name == o.component)) [
  | inl target ↦ simp (target) refl
  | inr other ↦ simp (other) (rw (filter_absent o.repo_id c.repo_ids h) refl)
]

module _ ⦃go : Platform⦄ {Cell E : Type 0} (texts : Texts Cell E) (reads : ReadsBackIds texts)
    (o : RepoOnboarding) where
  abbrev pub row_of : Component → ComponentRow Cell
  row_of c = component_row texts no_failure c (reads c.repo_ids).0

  abbrev taken_from : Component → Bool
  taken_from c = if c.name == o.component then false else contains c.repo_ids o.repo_id

  abbrev with_ids : String → Cell → ComponentRow Cell → ComponentRow Cell
  with_ids name cell row = if row.name == name then record row { repo_ids = cell } else row

  -- What one turn of the loop does to a row.
  abbrev turn : Component → ComponentRow Cell → ComponentRow Cell
  turn c row =
      if taken_from c then with_ids c.name (reads (others_than o.repo_id c.repo_ids)).0 row else row

  abbrev pub turns : List Component → ComponentRow Cell → ComponentRow Cell
  turns [] row = row
  turns (c ∷ cs) row = turns cs (turn c row)

  set_ids-map :
      (name : String) (cell : Cell) (rows : List (ComponentRow Cell))
      → set_ids texts no_failure name cell rows ≡ map (with_ids name cell) rows
  set_ids-map name cell [] = refl
  set_ids-map name cell (row ∷ rows) = rw (set_ids-map name cell rows) refl

  map_same : {A : Type 0} (xs : List A) → map (λ x. x) xs ≡ xs
  map_same [] = refl
  map_same (x ∷ xs) = rw (map_same xs) refl

  map_skipped :
      (c : Component) (cs : List Component) (rows : List (ComponentRow Cell))
      → taken_from c ≡ false
      → map (turns (c ∷ cs)) rows ≡ map (turns cs) rows
  map_skipped c cs [] h = refl
  map_skipped c cs (row ∷ rows) h =
      let kept : turn c row ≡ row = simp (h) refl in rw (kept, map_skipped c cs rows h) refl

  map_taken :
      (c : Component) (cs : List Component) (rows : List (ComponentRow Cell))
      → taken_from c ≡ true
      → map (turns (c ∷ cs)) rows
        ≡ map (turns cs) (map (with_ids c.name (reads (others_than o.repo_id c.repo_ids)).0) rows)
  map_taken c cs [] h = refl
  map_taken c cs (row ∷ rows) h =
      let set : turn c row ≡ with_ids c.name (reads (others_than o.repo_id c.repo_ids)).0 row =
        simp (h) refl in
      rw (set, map_taken c cs rows h) refl

  pub strip_others-turns :
      (k : ℕ) (cs : List Component) (rows : List (ComponentRow Cell))
      → (n : ℕ) × (strip_others texts no_failure o k cs rows ≡ ok (n, map (turns cs) rows))
  unfolding strip_others
  strip_others-turns k [] rows = (k, rw (map_same rows) refl)
  strip_others-turns k (c ∷ cs) rows = elim (Bool-cases (c.name == o.component)) [
    | inl target ↦
        let (n, e) = strip_others-turns k cs rows in
        (
          n,
          simp (target)
              (e ∙ ap (λ rs. ok (n, rs)) (sym (map_skipped c cs rows (simp (target) refl)))),
        )
    | inr other ↦ elim (Bool-cases (contains c.repo_ids o.repo_id)) [
      | inr free ↦
          let (n, e) = strip_others-turns k cs rows in
          (
            n,
            simp (other, free)
                (e ∙ ap (λ rs. ok (n, rs)) (sym (map_skipped c cs rows (simp (other, free) refl)))),
          )
      | inl listed ↦
          let cell = (reads (others_than o.repo_id c.repo_ids)).0 in
          let (n, e) = strip_others-turns (suc k) cs (map (with_ids c.name cell) rows) in
          (
            n,
            simp
                (
                  other,
                  listed,
                  (reads (others_than o.repo_id c.repo_ids)).1.0,
                  set_ids-map c.name cell rows,
                )
                (e ∙ ap (λ rs. ok (n, rs)) (sym (map_taken c cs rows (simp (other, listed) refl)))),
          )
    ]
  ]

  turns_other :
      (cs : List Component) (row : ComponentRow Cell)
      → contains (names cs) row.name ≡ false
      → turns cs row ≡ row
  turns_other [] row h = refl
  turns_other (c ∷ cs) row h =
      let same : turn c row ≡ row =
        ground (arith, eq_iff c.name row.name, eq_iff row.name c.name) in
      rw same (turns_other cs row (ground arith))

  turn_own : (c : Component) → turn c (row_of c) ≡ row_of (strip o c)
  turn_own c =
      let own : (c.name == c.name) ≡ true = (eq_iff c.name c.name).1 refl in
      elim (Bool-cases (c.name == o.component)) [
        | inl target ↦ simp (target) refl
        | inr other ↦ elim (Bool-cases (contains c.repo_ids o.repo_id)) [
          | inl listed ↦ simp (other, listed, own) refl
          | inr free ↦ simp (other, free, filter_absent o.repo_id c.repo_ids free) refl
        ]
      ]

  turn_others :
      (c : Component) (cs xs : List Component)
      → contains (names xs) c.name ≡ false
      → map (λ x. turns cs (turn c (row_of x))) xs ≡ map (λ x. turns cs (row_of x)) xs
  turn_others c cs [] h = refl
  turn_others c cs (x ∷ xs) h =
      let same : turn c (row_of x) ≡ row_of x =
        ground (arith, eq_iff c.name x.name, eq_iff x.name c.name) in
      rw (same, turn_others c cs xs (ground arith)) refl

  pub turns_all :
      (cs : List Component)
      → Distinct (names cs)
      → map (λ x. turns cs (row_of x)) cs ≡ map (λ x. row_of (strip o x)) cs
  turns_all [] d = refl
  turns_all (c ∷ cs) d =
      let named : (strip o c).name ≡ c.name = strip-name o c in
      let absent : contains (names cs) (strip o c).name ≡ false = rw named d.0 in
      let head = ap (turns cs) (turn_own c) ∙ turns_other cs (row_of (strip o c)) absent in
      rw (head, turn_others c cs cs d.0, turns_all cs d.1) refl
