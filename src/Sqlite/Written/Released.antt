-- ===== src/Sqlite/Written/Released.antt =====
-- internal/domain/repo/memory.go: where no component but the one that the index names lists a repo, an
-- onboarding strips the repo from every other component.
use dalikamata.Prelude.{
  String, ◌≡◌, refl, ◌∙◌, sym, subst, ap, true, false, ◌==◌, eq_iff, arith, Option, none, some, [],
  ◌∷◌, map, All, Bool-cases, Option-cases, inl, inr, if◌then◌else◌,
}
use dalikamata.Prelude.Dict.{
  Dict, Distinct, contains, keys, values, lookup, insert, All-insert, All-lookup, insert-Distinct,
}
use dalikamata.Model.{Component, RepoOnboarding}
use dalikamata.Repo.Memory.{release}
use dalikamata.Sqlite.Written.Rows.{IsKeyed}
use dalikamata.Sqlite.Written.Stripped.{others_than, strip, strip_absent}

module _ {V : Type 0} where
  lookup-contains :
      (k : String) (v : V) (m : Dict V) → lookup k m ≡ some v → contains (keys m) k ≡ true
  unfolding lookup
  lookup-contains k v [] h = cc
  lookup-contains k v ((j, w) ∷ m) h = ground (arith, lookup-contains k v m)

  -- Where no key stands twice, what holds of each stored value holds of each entry.
  entries_of_lookup :
      (Q : String × V → Type 0) (m : Dict V)
      → Distinct (keys m)
      → ((k : String) (v : V) → lookup k m ≡ some v → Q (k, v))
      → All Q m
  unfolding lookup
  entries_of_lookup Q [] d h = tt
  entries_of_lookup Q ((j, w) ∷ m) d h =
      let own : (j == j) ≡ true = (eq_iff j j).1 refl in
      (
        h j w (rw own refl),
        entries_of_lookup Q m d.1
            (λ k v at. h k v (ground (arith, lookup-contains k v m at, eq_iff j k))),
      )

  abbrev put : String → V → String × V → V
  put k v e = if e.0 == k then v else e.1

  put_absent :
      (k : String) (v : V) (m : Dict V) → contains (keys m) k ≡ false → map (put k v) m ≡ values m
  put_absent k v [] h = refl
  put_absent k v ((j, w) ∷ m) h =
      let other : (j == k) ≡ false = ground arith in
      let rest : contains (keys m) k ≡ false = ground arith in
      rw (other, put_absent k v m rest) refl

  values-insert :
      (k : String) (v : V) (m : Dict V)
      → Distinct (keys m)
      → contains (keys m) k ≡ true
      → values (insert k v m) ≡ map (put k v) m
  unfolding insert
  values-insert k v [] d h = ground arith
  values-insert k v ((j, w) ∷ m) d h = elim (Bool-cases (j == k)) [
    | inl found ↦
        let absent : contains (keys m) k ≡ false =
          subst (λ i. contains (keys m) i ≡ false) ((eq_iff j k).0 found) d.0 in
        rw (found, put_absent k v m absent) refl
    | inr other ↦ rw (other, values-insert k v m d.1 (ground arith)) refl
  ]

module _ (o : RepoOnboarding) where
  stripped_entries :
      (f : String × Component → Component) (m : Dict Component)
      → All (λ e. strip o e.1 ≡ f e) m
      → map (strip o) (values m) ≡ map f m
  stripped_entries f [] h = refl
  stripped_entries f (e ∷ m) h = rw (h.0, stripped_entries f m h.1) refl

  module _ (m : Dict Component) (keyed : IsKeyed (λ (c : Component). c.name) m)
      (distinct : Distinct (keys m)) (owner : Option String)
      (only : (c : String) (x : Component)
        → lookup c m ≡ some x
        → contains x.repo_ids o.repo_id ≡ true
        → owner ≡ some c) where
    name_of : (c : String) (x : Component) → lookup c m ≡ some x → c ≡ x.name
    name_of c x at = All-lookup (λ e. e.0 ≡ e.1.name) c x m at keyed

    -- A component that is not the owner, or is the one that gets the repo, stays as it is.
    strip_same :
        (c : String) (x : Component)
        → lookup c m ≡ some x
        → (owner ≡ some c → c ≡ o.component)
        → strip o x ≡ x
    strip_same c x at target = elim (Bool-cases (contains x.repo_ids o.repo_id)) [
      | inr free ↦ strip_absent o x free
      | inl listed ↦
          let named : (x.name == o.component) ≡ true =
            (eq_iff x.name o.component).1 (sym (name_of c x at) ∙ target (only c x at listed)) in
          simp (named) refl
    ]

    all_same :
        ((c : String) (x : Component) → lookup c m ≡ some x → owner ≡ some c → c ≡ o.component)
        → values m ≡ map (strip o) (values m)
    all_same target = sym (
        stripped_entries (λ e. e.1) m
          (entries_of_lookup (λ e. strip o e.1 ≡ e.1) m distinct
            (λ c x at. strip_same c x at (target c x at))))

    loser_stripped :
        (p : String) (loser : Component)
        → owner ≡ some p
        → (p == o.component) ≡ false
        → lookup p m ≡ some loser
        → values (insert p (record loser { repo_ids = others_than o.repo_id loser.repo_ids }) m)
          ≡ map (strip o) (values m)
    loser_stripped p loser owned other at =
        let left : Component = record loser { repo_ids = others_than o.repo_id loser.repo_ids } in
        values-insert p left m distinct (lookup-contains p loser m at)
        ∙ sym (
            stripped_entries (put p left) m (
              entries_of_lookup (λ e. strip o e.1 ≡ put p left e) m distinct
                (λ c x found. elim (Bool-cases (c == p)) [
                  | inl same ↦
                      let k : c ≡ p = (eq_iff c p).0 same in
                      let is : x ≡ loser = ground arith in
                      let named : (x.name == o.component) ≡ false =
                        subst (λ n. (n == o.component) ≡ false) (sym k ∙ name_of c x found) other in
                      let without : Component → Component =
                        λ y. record y { repo_ids = others_than o.repo_id y.repo_ids } in
                      simp (same, named) (ap without is)
                  | inr not_p ↦
                      simp (not_p)
                        (strip_same c x found (λ owns. absurd (ground (arith, eq_iff c p))))
                ])))

  pub values-release :
      (m : Dict Component) (owner : Option String)
      → IsKeyed (λ (c : Component). c.name) m
      → Distinct (keys m)
      → ((c : String) (x : Component)
          → lookup c m ≡ some x
          → contains x.repo_ids o.repo_id ≡ true
          → owner ≡ some c)
      → values (release o owner m) ≡ map (strip o) (values m)
  values-release m none keyed distinct only =
      all_same m keyed distinct none only (λ c x at owned. absurd cc)
  values-release m (some p) keyed distinct only = elim (Bool-cases (p == o.component)) [
    | inl target ↦ rw target (
        all_same m keyed distinct (some p) only
          (λ c x at owned. ground (arith, eq_iff p o.component)))
    | inr other ↦ rw other (elim (Option-cases (lookup p m)) [
      | inl missing ↦
          rw missing
            (all_same m keyed distinct (some p) only (λ c x at owned. absurd (ground arith)))
      | inr (loser, at) ↦
          rw at (loser_stripped m keyed distinct (some p) only p loser refl other at)
    ])
  ]

  -- Taking the repo from its owner keeps each component under its own name, once.
  pub release-IsKeyed :
      (m : Dict Component) (owner : Option String)
      → IsKeyed (λ (c : Component). c.name) m
      → Distinct (keys m)
      → IsKeyed (λ (c : Component). c.name) (release o owner m)
        × Distinct (keys (release o owner m))
  release-IsKeyed m none keyed distinct = (keyed, distinct)
  release-IsKeyed m (some p) keyed distinct = elim (Bool-cases (p == o.component)) [
    | inl target ↦ rw target (keyed, distinct)
    | inr other ↦ rw other (elim (Option-cases (lookup p m)) [
      | inl missing ↦ rw missing (keyed, distinct)
      | inr (loser, at) ↦
          let named : p ≡ loser.name = All-lookup (λ e. e.0 ≡ e.1.name) p loser m at keyed in
          let left : Component = record loser { repo_ids = others_than o.repo_id loser.repo_ids } in
          rw at (
            All-insert (λ (e : String × Component). e.0 ≡ e.1.name) p left m named keyed,
            insert-Distinct p left m distinct,
          )
    ])
  ]
