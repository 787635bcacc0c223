-- ===== src/Query/Semantics/Typed.antt =====
-- internal/domain/query/evaluator.go: which filters fit a field map.
use dalikamata.Prelude.{
  String, ◌≡◌, refl, Bool, true, false, not, ◌&&◌, Option, none, some, List, [], ◌∷◌, all, arith,
  Result, ok, is_ok, Result-cases, inl, inr,
}
use Prim.Native.Nat.{Ordering}
use dalikamata.Prelude.Dict.{lookup}
use dalikamata.Platform.{Platform}
use dalikamata.Query.Value.{
  ValueKind, kind_string, kind_int, kind_float, kind_bool, kind_time, op_bool, op_term, op_terms,
  op_range, op_exists, FilterOp, Error, Value, Any, Fields, Range, Filter, Filters, filter, nil,
  cons,
}
use dalikamata.Query.Compare.{compare_as, compare_field_value}
use dalikamata.Query.Match.{
  found_field, match_term_value, match_terms_values, match_range_value, match_values,
  match_any_element, match_term, match_terms, bound_holds, match_range, match_filter, match_must,
  match_must_not, match_should, match, is_positive, is_negative,
}
use dalikamata.Query.Semantics.{scalars, meaning}
use dalikamata.Query.Semantics.Sound.{match-denote}

module _ ⦃go : Platform⦄ where
  -- Which values a field can be compared with, by the kind of the value.
  abbrev pub accepts : ValueKind → Any → Bool
  accepts kind_string (Any.string s) = true
  accepts kind_int (Any.int n) = true
  accepts kind_int (Any.int64 n) = true
  accepts kind_float (Any.int n) = true
  accepts kind_float (Any.int64 n) = true
  accepts kind_float (Any.float64 f) = true
  accepts kind_float (Any.float32 f) = true
  accepts kind_bool (Any.bool b) = true
  accepts kind_time (Any.time t) = true
  accepts _ _ = false

  abbrev pub accepts_opt : Any → Option Value → Bool
  accepts_opt a none = true
  accepts_opt a (some v) = accepts v.kind a

  abbrev pub accepts_all : Any → List Value → Bool
  accepts_all a vs = all (λ x. all (λ v. accepts v.kind x) vs) (scalars a)

  abbrev pub accepts_range : Any → Range → Bool
  accepts_range (Any.strings es) r = false
  accepts_range a r =
      accepts_opt a r.gt && accepts_opt a r.gte && accepts_opt a r.lt && accepts_opt a r.lte

  -- A missing field puts no condition on the rest of a leaf.
  abbrev pub if_present : (Any → Bool) → Option Any → Bool
  if_present p none = true
  if_present p (some a) = p a

  abbrev pub term_typed : Option Value → Option Any → Bool
  term_typed none o = false
  term_typed (some v) o = if_present (λ a. accepts_all a (v ∷ [])) o

  abbrev pub range_typed : Option Range → Option Any → Bool
  range_typed none o = false
  range_typed (some r) o = if_present (λ a. accepts_range a r) o

  unfoldable mutual
    pub well_typed : Filter → Fields → Bool
    well_typed (filter op_bool must must_not should field value values range) fields =
        all_typed must fields && all_typed must_not fields && all_typed should fields
    well_typed (filter op_term must must_not should field value values range) fields =
        term_typed value (lookup field fields)
    well_typed (filter op_terms must must_not should field value values range) fields =
        if_present (λ a. accepts_all a values) (lookup field fields)
    well_typed (filter op_range must must_not should field value values range) fields =
        range_typed range (lookup field fields)
    well_typed (filter op_exists must must_not should field value values range) fields = true
    well_typed (filter (FilterOp.unknown op) must must_not should field value values range) fields =
        false

    pub all_typed : Filters → Fields → Bool
    all_typed nil fields = true
    all_typed (cons f fs) fields = well_typed f fields && all_typed fs fields

  abbrev pub well_typed_opt : Option Filter → Fields → Bool
  well_typed_opt none fields = true
  well_typed_opt (some f) fields = well_typed f fields

  compare_as-ok :
      (k : ValueKind) (a : Any) (v : Value) → accepts k a ≡ true → is_ok (compare_as k a v) ≡ true
  compare_as-ok k a v h = ground arith

  compare-ok :
      (a : Any) (v : Value) → accepts v.kind a ≡ true → is_ok (compare_field_value a v) ≡ true
  unfolding compare_field_value
  compare-ok a v h = compare_as-ok v.kind a v h

  values-ok :
      (a : Any) (vs : List Value)
      → all (λ v. accepts v.kind a) vs ≡ true
      → is_ok (match_values a vs) ≡ true
  unfolding match_values
  values-ok a [] h = refl
  values-ok a (v ∷ vs) h = ground (arith, compare-ok a v, values-ok a vs)

  elements-ok :
      (es : List String) (vs : List Value)
      → accepts_all (Any.strings es) vs ≡ true
      → is_ok (match_any_element es vs) ≡ true
  unfolding match_any_element
  elements-ok [] vs h = refl
  elements-ok (e ∷ es) vs h = ground (arith, values-ok (Any.string e) vs, elements-ok es vs)

  term_value-ok :
      (v : Value) (a : Any) → accepts_all a (v ∷ []) ≡ true → is_ok (match_term_value a v) ≡ true
  term_value-ok v (Any.strings es) h = elements-ok es (v ∷ []) h
  term_value-ok v a h = ground (arith, compare-ok a v)

  terms_values-ok :
      (vs : List Value) (a : Any) → accepts_all a vs ≡ true → is_ok (match_terms_values a vs) ≡ true
  terms_values-ok vs (Any.strings es) h = elements-ok es vs h
  terms_values-ok vs a h = ground (arith, values-ok a vs)

  bound-ok :
      (test : Ordering → Bool) (a : Any) (o : Option Value)
      → accepts_opt a o ≡ true
      → is_ok (bound_holds test a o) ≡ true
  unfolding bound_holds
  bound-ok test a none h = refl
  bound-ok test a (some v) h = ground (arith, compare-ok a v)

  range_value-ok :
      (field : String) (r : Range) (a : Any)
      → accepts_range a r ≡ true
      → is_ok (match_range_value field a r) ≡ true
  range_value-ok field r (Any.strings es) h = ground arith
  range_value-ok field r a h = ground (
    arith,
    bound-ok is_positive a r.gt,
    bound-ok (λ c. not (is_negative c)) a r.gte,
    bound-ok is_negative a r.lt,
    bound-ok (λ c. not (is_positive c)) a r.lte,
  )

  found_field-ok :
      (o : Option Any) (k : Any → Result Error Bool) (p : Any → Bool)
      → ((a : Any) → p a ≡ true → is_ok (k a) ≡ true)
      → if_present p o ≡ true
      → is_ok (found_field o k) ≡ true
  unfolding found_field
  found_field-ok none k p sound h = refl
  found_field-ok (some a) k p sound h = sound a h

  term-ok :
      (field : String) (value : Option Value) (fields : Fields)
      → term_typed value (lookup field fields) ≡ true
      → is_ok (match_term field value fields) ≡ true
  unfolding match_term
  term-ok field none fields h = ground arith
  term-ok field (some v) fields h = found_field-ok _ _ _ (term_value-ok v) h

  range-ok :
      (field : String) (range : Option Range) (fields : Fields)
      → range_typed range (lookup field fields) ≡ true
      → is_ok (match_range field range fields) ≡ true
  unfolding match_range
  range-ok field none fields h = ground arith
  range-ok field (some r) fields h = found_field-ok _ _ _ (range_value-ok field r) h

  terms-ok :
      (field : String) (vs : List Value) (fields : Fields)
      → if_present (λ a. accepts_all a vs) (lookup field fields) ≡ true
      → is_ok (match_terms field vs fields) ≡ true
  unfolding match_terms
  terms-ok field vs fields h = found_field-ok _ _ _ (terms_values-ok vs) h

  mutual
    unfolding match_filter well_typed

    filter-ok :
        (f : Filter) (fields : Fields)
        → well_typed f fields ≡ true
        → is_ok (match_filter f fields) ≡ true
    filter-ok (filter op_bool must must_not should field value values range) fields h =
        ground (arith, must-ok must fields, must_not-ok must_not fields, should-ok should fields)
    filter-ok (filter op_term must must_not should field value values range) fields h =
        term-ok field value fields h
    filter-ok (filter op_terms must must_not should field value values range) fields h =
        terms-ok field values fields h
    filter-ok (filter op_range must must_not should field value values range) fields h =
        range-ok field range fields h
    filter-ok (filter op_exists must must_not should field value values range) fields h = refl
    filter-ok (filter (FilterOp.unknown op) must must_not should field value values range) fields
          h =
        ground arith

    must-ok :
        (fs : Filters) (fields : Fields)
        → all_typed fs fields ≡ true
        → is_ok (match_must fs fields) ≡ true
    must-ok nil fields h = refl
    must-ok (cons f fs) fields h = ground (arith, filter-ok f fields, must-ok fs fields)

    must_not-ok :
        (fs : Filters) (fields : Fields)
        → all_typed fs fields ≡ true
        → is_ok (match_must_not fs fields) ≡ true
    must_not-ok nil fields h = refl
    must_not-ok (cons f fs) fields h = ground (arith, filter-ok f fields, must_not-ok fs fields)

    should-ok :
        (fs : Filters) (fields : Fields)
        → all_typed fs fields ≡ true
        → is_ok (match_should fs fields) ≡ true
    should-ok nil fields h = refl
    should-ok (cons f fs) fields h = ground (arith, filter-ok f fields, should-ok fs fields)

  match-ok :
      (f : Option Filter) (fields : Fields)
      → well_typed_opt f fields ≡ true
      → is_ok (match f fields) ≡ true
  unfolding match
  match-ok none fields h = refl
  match-ok (some f) fields h = filter-ok f fields h

  -- A filter whose operators are known, whose leaves have what they need and whose values fit the
  -- fields that are present never fails: `Match` answers its meaning.
  pub match-eq-meaning :
      (f : Option Filter) (fields : Fields)
      → well_typed_opt f fields ≡ true
      → match f fields ≡ ok (meaning f fields)
  match-eq-meaning f fields h = elim (Result-cases (match f fields)) [
    | inl (b, e) ↦ rw (match-denote f fields b e) e
    | inr (e, failed) ↦ absurd (ground (arith, match-ok f fields))
  ]
