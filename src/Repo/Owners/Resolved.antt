-- ===== src/Repo/Owners/Resolved.antt =====
-- internal/domain/repo/memory.go: the owners that newOwnerLookup finds for a workflow.
use dalikamata.Prelude.{
  String, ◌≡◌, refl, sym, Bool, true, false, not, ◌&&◌, ◌||◌, List, [], ◌∷◌, ◌++◌, ◌==◌, any,
  eq_iff, arith, is_empty, Bool-cases, inl, inr,
}
use dalikamata.Prelude.Dict.{Dict, lookup}
use dalikamata.Repo.Memory.{text_at}
use dalikamata.Repo.Owners.{
  Owner, same_owner, or_no_repos, owner_of, or_unknown, collect_owners, new_owner_lookup,
}

-- No owner stands twice.
abbrev pub DistinctOwners : List Owner → Type 0
DistinctOwners [] = Unit
DistinctOwners (o ∷ os) = (any (same_owner o) os ≡ false) × DistinctOwners os

any-append_one :
    (o x : Owner) (os : List Owner)
    → any (same_owner o) (os ++ x ∷ []) ≡ (any (same_owner o) os || same_owner o x)
any-append_one o x [] = ground arith
any-append_one o x (y ∷ os) = ground (arith, any-append_one o x os)

same_owner-sym : (a b : Owner) → same_owner a b ≡ same_owner b a
same_owner-sym a b = ground (
  arith,
  eq_iff a.component b.component,
  eq_iff b.component a.component,
  eq_iff a.team b.team,
  eq_iff b.team a.team,
)

append_one-DistinctOwners :
    (x : Owner) (os : List Owner)
    → DistinctOwners os
    → any (same_owner x) os ≡ false
    → DistinctOwners (os ++ x ∷ [])
append_one-DistinctOwners x [] h new = (refl, tt)
append_one-DistinctOwners x (y ∷ os) h new = (
  ground (arith, any-append_one y x os, same_owner-sym x y),
  append_one-DistinctOwners x os h.1 (ground arith),
)

any-same_owner :
    (o x : Owner) (os : List Owner)
    → same_owner o x ≡ true
    → any (same_owner o) os ≡ any (same_owner x) os
any-same_owner o x [] h = refl
any-same_owner o x (y ∷ os) h =
    let component : o.component ≡ x.component = ground (arith, eq_iff o.component x.component) in
    let team : o.team ≡ x.team = ground (arith, eq_iff o.team x.team) in
    rw (component, team, any-same_owner o x os h) refl

module _ (rtc : Dict String) (ct : Dict String) where
  -- A repo of a component has the component, with its team, as its owner.
  abbrev pub owned_by : Owner → String → Bool
  owned_by o id = not (text_at id rtc == "") && same_owner o (owner_of rtc ct (text_at id rtc))

  any-collect_owners :
      (o : Owner) (ids : List String) (out : List Owner)
      → any (same_owner o) (collect_owners rtc ct ids out)
        ≡ (any (same_owner o) out || any (owned_by o) ids)
  unfolding collect_owners
  any-collect_owners o [] out = ground arith
  any-collect_owners o (id ∷ ids) out =
      let x = owner_of rtc ct (text_at id rtc) in
      elim (Bool-cases (text_at id rtc == "")) [
        | inl nothing ↦ rw nothing (any-collect_owners o ids out)
        | inr named ↦ rw named (elim (Bool-cases (any (same_owner x) out)) [
          | inl seen ↦
              rw seen (ground (arith, any-collect_owners o ids out, any-same_owner o x out))
          | inr new ↦
              rw new
                (ground (arith, any-collect_owners o ids (out ++ x ∷ []), any-append_one o x out))
        ])
      ]

  collect_owners-DistinctOwners :
      (ids : List String) (out : List Owner)
      → DistinctOwners out
      → DistinctOwners (collect_owners rtc ct ids out)
  unfolding collect_owners
  collect_owners-DistinctOwners [] out h = h
  collect_owners-DistinctOwners (id ∷ ids) out h =
      let x = owner_of rtc ct (text_at id rtc) in
      elim (Bool-cases (text_at id rtc == "")) [
        | inl nothing ↦ rw nothing (collect_owners-DistinctOwners ids out h)
        | inr named ↦ rw named (elim (Bool-cases (any (same_owner x) out)) [
          | inl seen ↦ rw seen (collect_owners-DistinctOwners ids out h)
          | inr new ↦ rw new (
              collect_owners-DistinctOwners ids (out ++ x ∷ [])
                (append_one-DistinctOwners x out h new))
        ])
      ]

  or_unknown-DistinctOwners :
      (os : List Owner) → DistinctOwners os → DistinctOwners (or_unknown rtc ct os)
  or_unknown-DistinctOwners [] h = (refl, tt)
  or_unknown-DistinctOwners (o ∷ os) h = h

  -- No repo resolves: then the only owner is the fallback.
  unknown_if_none :
      (ids : List String) (os : List Owner)
      → ((o : Owner) → any (same_owner o) os ≡ any (owned_by o) ids)
      → any (λ id. not (text_at id rtc == "")) ids ≡ false
      → or_unknown rtc ct os ≡ record { component = "unknown"; team = "unknown" } ∷ []
  unknown_if_none ids [] h none_named = refl
  unknown_if_none ids (o ∷ os) h none_named =
      absurd (ground (arith, h o, same_owner-refl o, no_owner ids none_named))
    where
      same_owner-refl : (a : Owner) → same_owner a a ≡ true
      same_owner-refl a = ground (arith, eq_iff a.component a.component, eq_iff a.team a.team)

      no_owner :
          (l : List String)
          → any (λ id. not (text_at id rtc == "")) l ≡ false
          → any (owned_by o) l ≡ false
      no_owner [] e = refl
      no_owner (i ∷ l) e = ground (arith, no_owner l)

  -- The owners of a workflow. They are never none and no two are the same. If some repo of the
  -- workflow has a component, an owner is among them exactly if it is the component of such a repo
  -- with the component's team ("unknown" for one without a team); if none has, the only owner is
  -- "unknown" with the team "unknown".
  pub owners_lem :
      (wtr : Dict (List String)) (wf_names : Dict String) (workflow_id : String)
      → let os = (new_owner_lookup rtc ct wtr wf_names).owners workflow_id in
        let ids = or_no_repos (lookup workflow_id wtr) in
        let named = any (λ id. not (text_at id rtc == "")) ids in
        (is_empty os ≡ false)
        × DistinctOwners os
        × ((o : Owner) → named ≡ true → any (same_owner o) os ≡ any (owned_by o) ids)
        × (named ≡ false → os ≡ record { component = "unknown"; team = "unknown" } ∷ [])
  unfolding new_owner_lookup
  owners_lem wtr wf_names workflow_id =
      let ids = or_no_repos (lookup workflow_id wtr) in
      let os = collect_owners rtc ct ids [] in
      (
        never_empty os,
        or_unknown-DistinctOwners os (collect_owners-DistinctOwners ids [] tt),
        λ o named. among ids os (λ x. any-collect_owners x ids []) o named,
        λ none_named. unknown_if_none ids os (λ x. any-collect_owners x ids []) none_named,
      )
    where
      never_empty : (l : List Owner) → is_empty (or_unknown rtc ct l) ≡ false
      never_empty [] = refl
      never_empty (x ∷ l) = refl

      owner_itself :
          (i : String)
          → (text_at i rtc == "") ≡ false
          → owned_by (owner_of rtc ct (text_at i rtc)) i ≡ true
      owner_itself i h =
          let x = owner_of rtc ct (text_at i rtc) in
          ground (arith, eq_iff x.component x.component, eq_iff x.team x.team)

      -- A repo with a component is a reason for an owner.
      some_owner :
          (l : List String)
          → any (λ id. not (text_at id rtc == "")) l ≡ true
          → ((o : Owner) → any (owned_by o) l ≡ false)
          → true ≡ false
      some_owner [] e nobody = absurd cc
      some_owner (i ∷ l) e nobody = elim (Bool-cases (text_at i rtc == "")) [
        | inl nothing ↦ some_owner l (ground arith) (λ o. ground (arith, nobody o))
        | inr named ↦ ground (arith, owner_itself i named, nobody (owner_of rtc ct (text_at i rtc)))
      ]

      among :
          (ids : List String) (l : List Owner)
          → ((x : Owner) → any (same_owner x) l ≡ any (owned_by x) ids)
          → (o : Owner) → any (λ id. not (text_at id rtc == "")) ids ≡ true
          → any (same_owner o) (or_unknown rtc ct l) ≡ any (owned_by o) ids
      among ids [] h o named = absurd (ground (arith, some_owner ids named (λ x. sym (h x))))
      among ids (x ∷ l) h o named = h o
