-- ===== src/Sqlite/Written/Rows.antt =====
-- internal/domain/repo/sqlite.go: a table that follows a map of memory.go.
use dalikamata.Prelude.{
  String, ◌≡◌, refl, ◌∙◌, sym, subst, Bool, true, false, ◌==◌, eq_iff, List, [], ◌∷◌, map, All,
  Result, ok, Bool-cases, inl, inr,
}
use dalikamata.Prelude.Dict.{Dict, values, insert, All-insert}
use dalikamata.Sqlite.Tables.{upsert, insert_or_ignore}
use dalikamata.Sqlite.Loads.{scan_all}

-- Each entry stands under its entity's own key.
abbrev pub IsKeyed : {V : Type 0} → (V → String) → Dict V → Type 0
IsKeyed key = All (λ e. e.0 ≡ key e.1)

-- A table of rows made from the entries of a map whose keys are the entities' own.
module _ {V Row : Type 0} (key : V → String) (row : V → Row) (same_key : Row → Row → Bool)
    (keys_agree : (a b : V) → same_key (row a) (row b) ≡ (key a == key b)) where
  upsert-insert :
      (v : V) (m : Dict V)
      → IsKeyed key m
      → upsert same_key (row v) (map row (values m)) ≡ map row (values (insert (key v) v m))
  unfolding upsert insert
  upsert-insert v [] keyed = refl
  upsert-insert v ((name, old) ∷ m) keyed = elim (Bool-cases (name == key v)) [
    | inl found ↦
        let agrees : same_key (row old) (row v) ≡ true =
          keys_agree old v ∙ subst (λ k. (k == key v) ≡ true) keyed.0 found in
        rw (agrees, found) refl
    | inr other ↦
        let agrees : same_key (row old) (row v) ≡ false =
          keys_agree old v ∙ subst (λ k. (k == key v) ≡ false) keyed.0 other in
        rw (agrees, other, upsert-insert v m keyed.1) refl
  ]

  -- A row that stays is the one that would replace it, if rows of one key are equal.
  insert_or_ignore-insert :
      (v : V) (m : Dict V)
      → ((a b : V) → key a ≡ key b → a ≡ b)
      → IsKeyed key m
      → insert_or_ignore same_key (row v) (map row (values m))
        ≡ map row (values (insert (key v) v m))
  unfolding insert_or_ignore insert
  insert_or_ignore-insert v [] unique keyed = refl
  insert_or_ignore-insert v ((name, old) ∷ m) unique keyed = elim (Bool-cases (name == key v)) [
    | inl found ↦
        let agrees : same_key (row old) (row v) ≡ true =
          keys_agree old v ∙ subst (λ k. (k == key v) ≡ true) keyed.0 found in
        rw (agrees, found, unique old v (sym keyed.0 ∙ (eq_iff name (key v)).0 found)) refl
    | inr other ↦
        let agrees : same_key (row old) (row v) ≡ false =
          keys_agree old v ∙ subst (λ k. (k == key v) ≡ false) keyed.0 other in
        rw (agrees, other, insert_or_ignore-insert v m unique keyed.1) refl
  ]

-- A table beside a map: its rows are those of the entries, which stand under their own keys.
abbrev pub IsTable : {V Row : Type 0} → (V → String) → (V → Row) → List Row → Dict V → Type 0
IsTable key row table m = (table ≡ map row (values m)) × IsKeyed key m

module _ {V Row : Type 0} (key : V → String) (row : V → Row) (same_key : Row → Row → Bool)
    (keys_agree : (a b : V) → same_key (row a) (row b) ≡ (key a == key b)) (v : V)
    (table : List Row) (m : Dict V) (before : IsTable key row table m) where
  insert-IsKeyed : IsKeyed key (insert (key v) v m)
  insert-IsKeyed = All-insert (λ e. e.0 ≡ key e.1) (key v) v m refl before.1

  pub upsert-IsTable : IsTable key row (upsert same_key (row v) table) (insert (key v) v m)
  upsert-IsTable =
      (rw (before.0, upsert-insert key row same_key keys_agree v m before.1) refl, insert-IsKeyed)

  pub insert_or_ignore-IsTable :
      ((a b : V) → key a ≡ key b → a ≡ b)
      → IsTable key row (insert_or_ignore same_key (row v) table) (insert (key v) v m)
  insert_or_ignore-IsTable unique = (
    rw (before.0, insert_or_ignore-insert key row same_key keys_agree v m unique before.1) refl,
    insert-IsKeyed,
  )

pub scan_all-map :
    {E V Row : Type 0} (row : V → Row) (scan : Row → Result E V) (stored : V → V) (vs : List V)
    → ((v : V) → scan (row v) ≡ ok (stored v))
    → scan_all scan (map row vs) ≡ ok (map stored vs)
unfolding scan_all
scan_all-map row scan stored [] reads = refl
scan_all-map row scan stored (v ∷ vs) reads =
    rw (reads v, scan_all-map row scan stored vs reads) refl

pub scan_all-through :
    {E V Row : Type 0} (row : V → Row) (scan : Row → Result E V) (through : V → Result E V)
    (vs : List V)
    → ((v : V) → scan (row v) ≡ through v)
    → scan_all scan (map row vs) ≡ scan_all through vs
unfolding scan_all
scan_all-through row scan through [] reads = refl
scan_all-through row scan through (v ∷ vs) reads =
    rw (reads v, scan_all-through row scan through vs reads) refl
