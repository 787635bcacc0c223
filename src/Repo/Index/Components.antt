-- ===== src/Repo/Index/Components.antt =====
-- internal/domain/repo/memory.go: AddComponent and the indexes.
use dalikamata.Prelude.{
  String, ◌≡◌, refl, true, false, ◌&&◌, Option, none, some, ◌==◌, eq_iff, arith, if◌then◌else◌,
  Bool-cases, Option-cases, inl, inr, ◌↔◌, ◌≢◌,
}
use dalikamata.Prelude.Dict.{Dict, contains, lookup, lookup-insert}
use dalikamata.Platform.{Platform}
use dalikamata.Model.{Component}
use dalikamata.Repo.Memory.{MemoryRepository, text_at, without_previous, add_component}
use dalikamata.Repo.Index.{IsIndexed, lookup-index_repos, lookup-drop_stale}

-- What is left of the index when the previous version's entries are gone.
abbrev left_by : Option Component → String → Dict String → Option String
left_by none id rtc = lookup id rtc
left_by (some prev) id rtc =
    if contains prev.repo_ids id && text_at id rtc == prev.name then none else lookup id rtc

lookup-without_previous :
    (id : String) (o : Option Component) (rtc : Dict String)
    → lookup id (without_previous o rtc) ≡ left_by o id rtc
lookup-without_previous id none rtc = refl
lookup-without_previous id (some prev) rtc = lookup-drop_stale id prev.name prev.repo_ids rtc

module _ ⦃go : Platform⦄ where
  lookup-add_component :
      (comp : Component) (r : MemoryRepository) (id : String)
      → lookup id (add_component comp r).repo_to_component ≡ (
          if contains comp.repo_ids id
          then some comp.name
          else left_by (lookup comp.name r.components) id r.repo_to_component)
  unfolding add_component
  lookup-add_component comp r id = ground (
    arith,
    lookup-index_repos id comp.name comp.repo_ids
        (without_previous (lookup comp.name r.components) r.repo_to_component),
    lookup-without_previous id (lookup comp.name r.components) r.repo_to_component,
  )

  module _ (comp : Component) (r : MemoryRepository) (id c : String) (indexed : IsIndexed r) where
    was_there :
        (o : Option Component)
        → left_by o id r.repo_to_component ≡ some c
        → lookup id r.repo_to_component ≡ some c
    was_there none h = h
    was_there (some prev) h = ground arith

    -- An entry that is left does not name the component that is replaced.
    names_other :
        (o : Option Component)
        → lookup comp.name r.components ≡ o
        → left_by o id r.repo_to_component ≡ some c
        → (comp.name == c) ≡ false
    names_other none e h =
        let (x, at, has) = indexed.listed id c h in ground (arith, eq_iff comp.name c)
    names_other (some prev) e h =
        let (x, at, has) = indexed.listed id c (was_there (some prev) h) in
        ground (
          arith,
          eq_iff comp.name c,
          eq_iff c prev.name,
          indexed.named comp.name prev e,
          was_there (some prev) h,
        )

    add_component-listed :
        lookup id (add_component comp r).repo_to_component ≡ some c
        → (x : Component) × (lookup c (add_component comp r).components ≡ some x)
          × (contains x.repo_ids id ≡ true)
    add_component-listed h = elim (Bool-cases (contains comp.repo_ids id)) [
      | inl now ↦
          let same : comp.name ≡ c = ground (arith, lookup-add_component comp r id) in
          (
            comp,
            unfold add_component in
                ground (arith, lookup-insert comp.name c comp r.components, eq_iff comp.name c),
            now,
          )
      | inr before ↦
          let left : left_by (lookup comp.name r.components) id r.repo_to_component ≡ some c =
            ground (arith, lookup-add_component comp r id) in
          let other = names_other (lookup comp.name r.components) refl left in
          let (x, at, has) = indexed.listed id c (was_there (lookup comp.name r.components) left) in
          (
            x,
            unfold add_component in ground (arith, lookup-insert comp.name c comp r.components),
            has,
          )
    ]

  -- AddComponent keeps the indexes right.
  pub add_component-IsIndexed :
      (comp : Component) (r : MemoryRepository) → IsIndexed r → IsIndexed (add_component comp r)
  unfolding add_component
  add_component-IsIndexed comp r indexed = record {
    named = λ c x h.
        ground (
          arith,
          lookup-insert comp.name c comp r.components,
          eq_iff comp.name c,
          indexed.named c x,
        );
    listed = λ id c h. add_component-listed comp r id c indexed h;
    teams = λ c. ground (
      arith,
      lookup-insert comp.name c comp r.components,
      lookup-insert comp.name c comp.team_name r.component_to_team,
      indexed.teams c,
    );
  }

  -- After AddComponent the index names the component for each repo that it lists, and for no
  -- other repo: a repo that its previous version listed and that it no longer lists is free.
  pub add_component-owns_iff :
      (comp : Component) (r : MemoryRepository) (id : String)
      → IsIndexed r
      → (lookup id (add_component comp r).repo_to_component ≡ some comp.name)
        ↔ (contains comp.repo_ids id ≡ true)
  add_component-owns_iff comp r id indexed = (
    λ h. elim (Bool-cases (contains comp.repo_ids id)) [
      | inl now ↦ now
      | inr before ↦
          let left : left_by (lookup comp.name r.components) id r.repo_to_component
              ≡ some comp.name =
            ground (arith, lookup-add_component comp r id) in
          ground (
            arith,
            names_other comp r id comp.name indexed (lookup comp.name r.components) refl left,
            eq_iff comp.name comp.name,
          )
    ],
    λ h. rw (lookup-add_component comp r id, h),
  )

  -- A repo that neither version of the component lists keeps its owner.
  pub add_component-others :
      (comp : Component) (r : MemoryRepository) (id c : String)
      → IsIndexed r
      → contains comp.repo_ids id ≡ false
      → lookup id r.repo_to_component ≡ some c
      → c ≢ comp.name
      → lookup id (add_component comp r).repo_to_component ≡ some c
  add_component-others comp r id c indexed new h other =
      rw (lookup-add_component comp r id, new) (keeps (lookup comp.name r.components) refl)
    where
      keeps :
          (o : Option Component)
          → lookup comp.name r.components ≡ o
          → left_by o id r.repo_to_component ≡ some c
      keeps none e = h
      keeps (some prev) e = ground (arith, eq_iff c prev.name, indexed.named comp.name prev e)

  -- The owner of a repo once the component is none: no owner, or another component.
  abbrev pub freed_by : String → Option String → Option String
  freed_by name none = none
  freed_by name (some c) = if c == name then none else some c

  module _ (comp : Component) (r : MemoryRepository) (id : String) (indexed : IsIndexed r) where
    left_by-freed_by :
        (o : Option Component)
        → lookup comp.name r.components ≡ o
        → left_by o id r.repo_to_component ≡ freed_by comp.name (lookup id r.repo_to_component)
    left_by-freed_by none e = elim (Option-cases (lookup id r.repo_to_component)) [
      | inl free ↦ rw free refl
      | inr (c, owned) ↦
          let (x, at, has) = indexed.listed id c owned in
          rw owned (ground (arith, eq_iff c comp.name))
    ]
    left_by-freed_by (some prev) e = elim (Option-cases (lookup id r.repo_to_component)) [
      | inl free ↦ rw free (ground arith)
      | inr (c, owned) ↦
          let (x, at, has) = indexed.listed id c owned in
          let named : prev.name ≡ comp.name = indexed.named comp.name prev e in
          rw owned (ground (arith, eq_iff c comp.name, eq_iff c prev.name))
    ]

  -- AddComponent gives the repos that the component lists to it, and takes the others from it.
  pub add_component-owner :
      (comp : Component) (r : MemoryRepository) (id : String)
      → IsIndexed r
      → lookup id (add_component comp r).repo_to_component ≡ (
          if contains comp.repo_ids id
          then some comp.name
          else freed_by comp.name (lookup id r.repo_to_component))
  add_component-owner comp r id indexed =
      rw
        (
          lookup-add_component comp r id,
          left_by-freed_by comp r id indexed (lookup comp.name r.components) refl,
        )
        refl
