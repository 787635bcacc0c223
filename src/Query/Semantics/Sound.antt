-- ===== src/Query/Semantics/Sound.antt =====
-- internal/domain/query/evaluator.go: `Match` and the meaning of a filter.
use dalikamata.Prelude.{
  String, ◌≡◌, refl, Bool, true, false, not, Option, none, some, List, [], ◌∷◌, is_empty, arith,
  Result, ok,
}
use dalikamata.Prelude.Dict.{lookup}
use dalikamata.Platform.{Platform}
use dalikamata.Query.Value.{
  op_bool, op_term, op_terms, op_range, op_exists, FilterOp, Error, Value, Any, Fields, Range,
  Filter, Filters, filter, nil, cons,
}
use dalikamata.Query.Match.{
  found_field, match_term_value, match_terms_values, match_range_value, exists_value, match_term,
  match_terms, bound_holds, match_range, match_exists, match_filter, match_must, match_must_not,
  match_should, match,
}
use dalikamata.Query.Semantics.{
  of_field, of_value, of_range, equals_any, meaning, denote, all_hold, any_holds, scalars,
  match_values-any, match_any_element-any,
}

module _ ⦃go : Platform⦄ where
  found_field-of_field :
      (o : Option Any) (k : Any → Result Error Bool) (p : Any → Bool) (b : Bool)
      → ((a : Any) → k a ≡ ok b → p a ≡ b)
      → found_field o k ≡ ok b
      → of_field p o ≡ b
  unfolding found_field
  found_field-of_field none k p b sound h = ground arith
  found_field-of_field (some a) k p b sound h = sound a h

  term_value-equals_any :
      (v : Value) (b : Bool) (a : Any) → match_term_value a v ≡ ok b → of_value a (some v) ≡ b
  term_value-equals_any v b (Any.strings es) h = match_any_element-any es _ b h
  term_value-equals_any v b a h = ground arith

  terms_values-equals_any :
      (vs : List Value) (b : Bool) (a : Any) → match_terms_values a vs ≡ ok b → equals_any a vs ≡ b
  terms_values-equals_any vs b (Any.strings es) h = match_any_element-any es vs b h
  terms_values-equals_any vs b a h = ground (arith, match_values-any a vs b)

  range_value-in_bounds :
      (field : String) (r : Range) (b : Bool) (a : Any)
      → match_range_value field a r ≡ ok b
      → of_range a (some r) ≡ b
  unfolding bound_holds
  range_value-in_bounds field r b (Any.strings es) h = ground arith
  range_value-in_bounds field r b a h = ground arith

  exists-scalars : (o : Option Any) → exists_value o ≡ of_field (λ a. not (is_empty (scalars a))) o
  exists-scalars none = refl
  exists-scalars (some (Any.strings [])) = refl
  exists-scalars (some (Any.strings (e ∷ es))) = refl
  exists-scalars (some a) = refl

  term_sound :
      (field : String) (value : Option Value) (fields : Fields) (b : Bool)
      → match_term field value fields ≡ ok b
      → of_field (λ a. of_value a value) (lookup field fields) ≡ b
  unfolding match_term
  term_sound field none fields b h = ground arith
  term_sound field (some v) fields b h =
      found_field-of_field (lookup field fields) (λ a. match_term_value a v) _ b
        (term_value-equals_any v b) h

  terms_sound :
      (field : String) (vs : List Value) (fields : Fields) (b : Bool)
      → match_terms field vs fields ≡ ok b
      → of_field (λ a. equals_any a vs) (lookup field fields) ≡ b
  unfolding match_terms
  terms_sound field vs fields b h =
      found_field-of_field (lookup field fields) (λ a. match_terms_values a vs) _ b
        (terms_values-equals_any vs b) h

  range_sound :
      (field : String) (range : Option Range) (fields : Fields) (b : Bool)
      → match_range field range fields ≡ ok b
      → of_field (λ a. of_range a range) (lookup field fields) ≡ b
  unfolding match_range
  range_sound field none fields b h = ground arith
  range_sound field (some r) fields b h =
      found_field-of_field (lookup field fields) (λ a. match_range_value field a r) _ b
        (range_value-in_bounds field r b) h

  mutual
    unfolding match_filter denote match_exists

    filter_sound :
        (f : Filter) (fields : Fields) (b : Bool)
        → match_filter f fields ≡ ok b
        → denote f fields ≡ b
    filter_sound (filter op_bool must must_not should field value values range) fields b h =
        ground (
          arith,
          must_sound must fields true,
          must_sound must fields false,
          must_not_sound must_not fields true,
          must_not_sound must_not fields false,
          should_sound should fields b,
        )
    filter_sound (filter op_term must must_not should field value values range) fields b h =
        term_sound field value fields b h
    filter_sound (filter op_terms must must_not should field value values range) fields b h =
        terms_sound field values fields b h
    filter_sound (filter op_range must must_not should field value values range) fields b h =
        range_sound field range fields b h
    filter_sound (filter op_exists must must_not should field value values range) fields b h =
        ground (arith, exists-scalars (lookup field fields))
    filter_sound (filter (FilterOp.unknown op) must must_not should field value values range) fields
          b h =
        ground arith

    must_sound :
        (fs : Filters) (fields : Fields) (b : Bool)
        → match_must fs fields ≡ ok b
        → all_hold fs fields ≡ b
    must_sound nil fields b h = ground arith
    must_sound (cons f fs) fields b h =
        ground
          (arith, filter_sound f fields true, filter_sound f fields false, must_sound fs fields b)

    must_not_sound :
        (fs : Filters) (fields : Fields) (b : Bool)
        → match_must_not fs fields ≡ ok b
        → not (any_holds fs fields) ≡ b
    must_not_sound nil fields b h = ground arith
    must_not_sound (cons f fs) fields b h =
        ground (
          arith,
          filter_sound f fields true,
          filter_sound f fields false,
          must_not_sound fs fields b,
        )

    should_sound :
        (fs : Filters) (fields : Fields) (b : Bool)
        → match_should fs fields ≡ ok b
        → any_holds fs fields ≡ b
    should_sound nil fields b h = ground arith
    should_sound (cons f fs) fields b h =
        ground
          (arith, filter_sound f fields true, filter_sound f fields false, should_sound fs fields b)

  -- Whatever `Match` answers is the meaning of the filter (a nil filter means true): the order in
  -- which it visits the clauses, and where it leaves, never change an answer.
  pub match-denote :
      (f : Option Filter) (fields : Fields) (b : Bool)
      → match f fields ≡ ok b
      → meaning f fields ≡ b
  unfolding match
  match-denote none fields b h = ground arith
  match-denote (some f) fields b h = filter_sound f fields b h
