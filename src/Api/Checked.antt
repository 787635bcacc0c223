-- ===== src/Api/Checked.antt =====
-- internal/api/query_params.go: which fields an accepted query string names, and why one is refused.
use dalikamata.Prelude.{
  String, Bool, true, false, ◌≡◌, refl, Option, none, some, List, [], ◌∷◌, ◌++◌, ◌==◌, ◌>>=◌,
  if◌then◌else◌, Result, ok, err, all, any, arith, Bool-cases, inl, inr, eq_iff,
}
use dalikamata.Prelude.Int.{ℤ}
use dalikamata.Prelude.Dict.{Dict, contains, insert, lookup}
use dalikamata.Prelude.Cuts.{cut_prefix, cut_last}
use dalikamata.Platform.{Platform}
use dalikamata.Api.Params.{
  ParamError, size_invalid, from_invalid, unknown_field, UrlValues, checked, is_range_suffix,
  add_range, or_list, Params, add_cut, add_entry, collect_params,
}

-- The field that a parameter's key asks for, if it is a filter.
abbrev pub asked_cut : String → Option (String × String) → String
asked_cut rest none = rest
asked_cut rest (some (base, suffix)) =
    if suffix == "exists" then base else if is_range_suffix suffix then base else rest

abbrev asked : Option String → Option String
asked none = none
asked (some rest) = some (asked_cut rest (cut_last 46 rest))

abbrev pub asked_field : String → Option String
asked_field key = asked (cut_prefix "filter." key)

abbrev pub known_field : List String → Option String → Bool
known_field known none = true
known_field known (some field) = contains known field

abbrev pub asks_for : String → Option String → Bool
asks_for field none = false
asks_for field (some other) = other == field

module _ {V : Type 0} (test : String → Bool) where
  all-insert :
      (k : String) (v : V) (m : Dict V)
      → all (λ e. test e.0) m ≡ true
      → test k ≡ true
      → all (λ e. test e.0) (insert k v m) ≡ true
  unfolding insert
  all-insert k v [] h t = ground arith
  all-insert k v ((j, w) ∷ m) h t = ground (arith, eq_iff j k, all-insert k v m)

module _ ⦃go : Platform⦄ (known : List String) where
  -- Every field that the grouped filters name is known.
  abbrev pub IsKnown : Params → Type 0
  IsKnown p =
      (all (λ e. contains known e.0) p.terms ≡ true)
      × (all (λ e. contains known e.0) p.ranges ≡ true)
      × (all (λ e. contains known e.0) p.exists ≡ true)

  module _ (E : Type 0) where
    -- One key: it asks for a known field, or it is refused for its field.
    abbrev Added : Option String → Result (ParamError E) Params → Type 0
    Added field (ok p) = (known_field known field ≡ true) × IsKnown p
    Added field (err (size_invalid e)) = ⊥
    Added field (err (from_invalid e)) = ⊥
    Added field (err (unknown_field name)) =
        (asks_for name field ≡ true) × (contains known name ≡ false)

    checked-Added :
        (field : String) (p : Params)
        → (contains known field ≡ true → IsKnown p)
        → Added (some field) (checked field known p)
    checked-Added field p h = elim (Bool-cases (contains known field)) [
      | inl there ↦ rw there (there, h there)
      | inr missing ↦ rw missing ((eq_iff field field).1 refl, missing)
    ]

  module _ {E : Type 0} (atoi : String → Result E ℤ) (parse_time : String → Option go.Time)
      (parse_int : String → Option ℤ) (parse_float : String → Option go.Float) where
    abbrev add : List String → Params → Option String → Result (ParamError E) Params
    add = add_entry atoi parse_time parse_int parse_float known

    add_terms-IsKnown :
        (rest : String) (vals : List String) (p : Params)
        → IsKnown p
        → contains known rest ≡ true
        → IsKnown (record p { terms = insert rest (or_list (lookup rest p.terms) ++ vals) p.terms })
    add_terms-IsKnown rest vals p h k = (
      all-insert (contains known) rest (or_list (lookup rest p.terms) ++ vals) p.terms h.0 k,
      h.1,
      h.2,
    )

    add_range-IsKnown :
        (base suffix : String) (vals : List String) (p : Params)
        → IsKnown p
        → contains known base ≡ true
        → IsKnown (add_range atoi parse_time parse_int parse_float base suffix vals p)
    add_range-IsKnown base suffix [] p h k = h
    add_range-IsKnown base suffix (v ∷ vs) p h k =
        (h.0, all-insert (contains known) base _ p.ranges h.1 k, h.2)

    add_exists-IsKnown :
        (base : String) (p : Params)
        → IsKnown p
        → contains known base ≡ true
        → IsKnown (record p { exists = insert base tt p.exists })
    add_exists-IsKnown base p h k = (h.0, h.1, all-insert (contains known) base tt p.exists h.2 k)

    add_cut-Added :
        (rest : String) (vals : List String) (p : Params) (cut : Option (String × String))
        → IsKnown p
        → Added E
            (some (asked_cut rest cut))
            (add_cut atoi parse_time parse_int parse_float known rest vals p cut)
    add_cut-Added rest vals p none h = checked-Added E rest _ (add_terms-IsKnown rest vals p h)
    add_cut-Added rest vals p (some (base, suffix)) h = elim (Bool-cases (suffix == "exists")) [
      | inl e ↦ rw e (checked-Added E base _ (add_exists-IsKnown base p h))
      | inr n ↦ rw n (elim (Bool-cases (is_range_suffix suffix)) [
        | inl r ↦ rw r (checked-Added E base _ (add_range-IsKnown base suffix vals p h))
        | inr o ↦ rw o (checked-Added E rest _ (add_terms-IsKnown rest vals p h))
      ])
    ]

    add_entry-Added :
        (vals : List String) (p : Params) (suffix : Option String)
        → IsKnown p
        → Added E (asked suffix) (add vals p suffix)
    add_entry-Added vals p none h = (refl, h)
    add_entry-Added vals p (some rest) h = add_cut-Added rest vals p (cut_last 46 rest) h

    -- All keys: each asks for a known field, or one is refused.
    abbrev pub Gathered : UrlValues → Result (ParamError E) Params → Type 0
    Gathered params (ok p) =
        (all (λ e. known_field known (asked_field e.0)) params ≡ true) × IsKnown p
    Gathered params (err (size_invalid e)) = ⊥
    Gathered params (err (from_invalid e)) = ⊥
    Gathered params (err (unknown_field name)) =
        (any (λ e. asks_for name (asked_field e.0)) params ≡ true) × (contains known name ≡ false)

    after_first :
        (key : String) (vals : List String) (params : UrlValues) (r : Result (ParamError E) Params)
        → known_field known (asked_field key) ≡ true
        → Gathered params r
        → Gathered ((key, vals) ∷ params) r
    after_first key vals params (ok p) k g = (ground arith, g.1)
    after_first key vals params (err (size_invalid e)) k g = g
    after_first key vals params (err (from_invalid e)) k g = g
    after_first key vals params (err (unknown_field name)) k g = (ground arith, g.1)

    gathered :
        (key : String) (vals : List String) (params : UrlValues) (r : Result (ParamError E) Params)
        (next : Params → Result (ParamError E) Params)
        → Added E (asked_field key) r
        → ((p : Params) → IsKnown p → Gathered params (next p))
        → Gathered ((key, vals) ∷ params) (r >>= next)
    gathered key vals params (ok p) next a g = after_first key vals params (next p) a.0 (g p a.1)
    gathered key vals params (err (size_invalid e)) next a g = a
    gathered key vals params (err (from_invalid e)) next a g = a
    gathered key vals params (err (unknown_field name)) next a g = (ground arith, a.1)

    pub collect_params-Gathered :
        (params : UrlValues) (p : Params)
        → IsKnown p
        → Gathered params (collect_params atoi parse_time parse_int parse_float known params p)
    unfolding collect_params
    collect_params-Gathered [] p h = (refl, h)
    collect_params-Gathered ((key, vals) ∷ params) p h =
        gathered key vals params (add vals p (cut_prefix "filter." key)) _
          (add_entry-Added vals p (cut_prefix "filter." key) h) (collect_params-Gathered params)
