-- ===== src/Repo/Queries/Hits.antt =====
-- internal/domain/repo/memory.go: what queryEntities emits and filterProject returns.
use dalikamata.Prelude.{
  ℕ, suc, ◌≡◌, refl, sym, true, Option, none, some, List, [], ◌∷◌, ◌++◌, map, length, take, filter,
  All, arith, ok, ◌>>=◌, >>=-eq-ok, Option-cases, Result-cases, inl, inr,
}
use mathlib.Core.List.{append-nil, append_assoc}
use dalikamata.Platform.{Platform}
use dalikamata.Query.Value.{Fields, Filter}
use dalikamata.Query.Match.{match}
use dalikamata.Query.Sort.{sort_by, paginate}
use dalikamata.Query.Semantics.{meaning}
use dalikamata.Query.Semantics.Typed.{well_typed_opt, match-eq-meaning}
use dalikamata.Repo.Queries.{
  Context, in_query, poll, Query, select_items, emit_all, query_entities, filter_project,
}

module _ ⦃go : Platform⦄ where
  -- The items that the query is about: those that satisfy the filter, in the sort's order, cut to
  -- the page.
  abbrev pub page : {T : Type 0} → Query → (T → Fields) → List T → Option (List T)
  page q project snapshot =
      paginate (sort_by (filter (λ i. meaning q.filter (project i)) snapshot) q.sort project) q.from
        q.size

  module _ {E : Type 0} {T : Type 0} where
    -- A caller's step that records each item.
    abbrev pub recording : (T → Option E) → T → List T → List T × Option E
    recording answer item s = (s ++ item ∷ [], answer item)

    pub select-filter :
        (ctx : Context E) (f : Option Filter) (project : T → Fields) (k : ℕ) (items : List T)
        → ((n : ℕ) → ctx n ≡ none)
        → All (λ i. well_typed_opt f (project i) ≡ true) items
        → select_items ctx f project k items ≡ ok (filter (λ i. meaning f (project i)) items)
    unfolding select_items
    select-filter ctx f project k [] live typed = refl
    select-filter ctx f project k (i ∷ items) live typed = rw (
      live k,
      match-eq-meaning f (project i) typed.0,
      select-filter ctx f project (suc k) items live typed.1,
    )

    select_ok :
        (ctx : Context E) (f : Option Filter) (project : T → Fields) (k : ℕ) (items kept : List T)
        → All (λ i. well_typed_opt f (project i) ≡ true) items
        → select_items ctx f project k items ≡ ok kept
        → kept ≡ filter (λ i. meaning f (project i)) items
    unfolding select_items
    select_ok ctx f project k [] kept typed h = ground arith
    select_ok ctx f project k (i ∷ items) kept typed h =
        let (u, lives, after_poll) = >>=-eq-ok (poll (ctx k)) _ h in
        let (found, matched, after_match) =
          >>=-eq-ok (in_query (match f (project i))) _ after_poll in
        let (rest, others, all) =
          >>=-eq-ok (select_items ctx f project (suc k) items) _ after_match in
        let answer : found ≡ meaning f (project i) =
          ground (arith, match-eq-meaning f (project i) typed.0) in
        ground (arith, select_ok ctx f project (suc k) items rest typed.1 others)

    -- Whatever the context and the caller answer, the recorded items are the first of the page.
    emit_all-prefix :
        (ctx : Context E) (answer : T → Option E) (k : ℕ) (items : List T) (s : List T)
        → (n : ℕ) × ((emit_all ctx (recording answer) k items s).0 ≡ s ++ take n items)
    unfolding emit_all
    emit_all-prefix ctx answer k [] s = (0, sym (append-nil s))
    emit_all-prefix ctx answer k (i ∷ items) s = elim (Option-cases (ctx k)) [
      | inr (e, ended) ↦ (0, ground (arith, append-nil s))
      | inl live ↦ elim (Option-cases (answer i)) [
        | inr (e, refused) ↦ (1, ground arith)
        | inl accepted ↦
            let (n, same) = emit_all-prefix ctx answer (suc k) items (s ++ i ∷ []) in
            (suc n, ground (arith, append_assoc s (i ∷ []) (take n items)))
      ]
    ]

    -- What a query may emit when it is cut short. If its filter fits the snapshot's field maps, then
    -- whatever the context and the caller answer at each step, the items handed to the caller are
    -- the first of the hits.
    pub query_entities-prefix :
        (ctx : Context E) (snapshot : List T) (q : Query) (project : T → Fields)
        (answer : T → Option E) (hits : List T)
        → All (λ i. well_typed_opt q.filter (project i) ≡ true) snapshot
        → page q project snapshot ≡ some hits
        → (n : ℕ) × ((query_entities ctx snapshot q project (recording answer) []).0 ≡ take n hits)
    unfolding query_entities
    query_entities-prefix ctx snapshot q project answer hits typed cut =
        elim (Result-cases (select_items ctx q.filter project 0 snapshot)) [
          | inr (e, ended) ↦ (0, rw ended refl)
          | inl (kept, e) ↦
              let same : kept ≡ filter (λ i. meaning q.filter (project i)) snapshot =
                select_ok ctx q.filter project 0 snapshot kept typed e in
              let (n, first) = emit_all-prefix ctx answer (length snapshot) hits [] in
              (n, rw (e, same, cut) first)
        ]

    -- An aggregation sees the items that a query with its filter has as hits before the page is
    -- cut: filterProject fails where the first loop of queryEntities fails, with the same failure,
    -- and returns the field maps of the items that the loop keeps.
    pub filter_project-select_items :
        (ctx : Context E) (f : Option Filter) (project : T → Fields) (k : ℕ) (items : List T)
        → filter_project ctx f project k items
          ≡ (select_items ctx f project k items >>= λ kept. ok (map project kept))
    unfolding filter_project select_items
    filter_project-select_items ctx f project k [] = refl
    filter_project-select_items ctx f project k (i ∷ items) =
        ground (arith, filter_project-select_items ctx f project (suc k) items)
