-- ===== src/Query/Semantics.antt =====
-- What a filter means, independently of the order in which internal/domain/query/evaluator.go visits
-- its clauses.
pub mod Sound
pub mod Typed
use Prim.Native.Nat.{Ordering}
use dalikamata.Prelude.{
  String, ◌≡◌, refl, sym, Bool, true, false, not, ◌&&◌, ◌||◌, Option, none, some, List, [], ◌∷◌,
  map, arith, any, is_empty, Result, ok, err, ◌>>=◌, if◌then◌else◌,
}
use dalikamata.Prelude.Dict.{lookup}
use dalikamata.Platform.{Platform}
use dalikamata.Query.Value.{
  op_bool, op_term, op_terms, op_range, op_exists, FilterOp, Error, Value, Any, Fields, Range,
  Filter, Filters, filter, nil, cons,
}
use dalikamata.Query.Compare.{compare_field_value}
use dalikamata.Query.Match.{
  is_zero, is_negative, is_positive, match_values, match_any_element, match_term, match_terms,
  bound_holds, match_range, match_exists, has_clauses, match_filter, match_must, match_must_not,
  match_should, match,
}

module _ ⦃go : Platform⦄ where
  -- A comparison that fails holds of nothing.
  abbrev pub holds : (Ordering → Bool) → Any → Value → Bool
  holds test a v = elim (compare_field_value a v) [ ok c ↦ test c | err e ↦ false ]

  abbrev pub holds_opt : (Ordering → Bool) → Any → Option Value → Bool
  holds_opt test a none = true
  holds_opt test a (some v) = holds test a v

  -- A scalar is one value, and a list field has the values of its elements.
  abbrev pub scalars : Any → List Any
  scalars (Any.strings es) = map (λ e. Any.string e) es
  scalars a = a ∷ []

  -- Some value of the field equals some candidate.
  abbrev pub equals_any : Any → List Value → Bool
  equals_any a vs = any (λ x. any (λ v. holds is_zero x v) vs) (scalars a)

  abbrev pub in_bounds : Any → Range → Bool
  in_bounds (Any.strings es) r = false
  in_bounds a r =
      holds_opt is_positive a r.gt
      && holds_opt (λ c. not (is_negative c)) a r.gte
      && holds_opt is_negative a r.lt
      && holds_opt (λ c. not (is_positive c)) a r.lte

  -- A leaf asks something of a field's value, and holds of no missing field.
  abbrev pub of_field : (Any → Bool) → Option Any → Bool
  of_field p none = false
  of_field p (some a) = p a

  abbrev pub of_value : Any → Option Value → Bool
  of_value a none = false
  of_value a (some v) = equals_any a (v ∷ [])

  abbrev pub of_range : Any → Option Range → Bool
  of_range a none = false
  of_range a (some r) = in_bounds a r

  unfoldable mutual
    pub denote : Filter → Fields → Bool
    denote (filter op_bool must must_not should field value values range) fields =
        all_hold must fields
        && not (any_holds must_not fields)
        && (has_clauses must || not (has_clauses should) || any_holds should fields)
    denote (filter op_term must must_not should field value values range) fields =
        of_field (λ a. of_value a value) (lookup field fields)
    denote (filter op_terms must must_not should field value values range) fields =
        of_field (λ a. equals_any a values) (lookup field fields)
    denote (filter op_range must must_not should field value values range) fields =
        of_field (λ a. of_range a range) (lookup field fields)
    denote (filter op_exists must must_not should field value values range) fields =
        of_field (λ a. not (is_empty (scalars a))) (lookup field fields)
    denote (filter (FilterOp.unknown op) must must_not should field value values range) fields =
        false

    pub all_hold : Filters → Fields → Bool
    all_hold nil fields = true
    all_hold (cons f fs) fields = denote f fields && all_hold fs fields

    pub any_holds : Filters → Fields → Bool
    any_holds nil fields = false
    any_holds (cons f fs) fields = denote f fields || any_holds fs fields

  abbrev pub meaning : Option Filter → Fields → Bool
  meaning none fields = true
  meaning (some f) fields = denote f fields

  pub match_values-any :
      (a : Any) (vs : List Value) (b : Bool)
      → match_values a vs ≡ ok b
      → any (λ v. holds is_zero a v) vs ≡ b
  unfolding match_values
  match_values-any a [] b h = ground arith
  match_values-any a (v ∷ vs) b h = ground (arith, match_values-any a vs b)

  pub match_any_element-any :
      (es : List String) (vs : List Value) (b : Bool)
      → match_any_element es vs ≡ ok b
      → equals_any (Any.strings es) vs ≡ b
  unfolding match_any_element
  match_any_element-any [] vs b h = ground arith
  match_any_element-any (e ∷ es) vs b h = ground (
    arith,
    match_values-any (Any.string e) vs true,
    match_values-any (Any.string e) vs false,
    match_any_element-any es vs b,
  )
