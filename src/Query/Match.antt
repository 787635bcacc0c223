-- ===== src/Query/Match.antt =====
-- internal/domain/query/evaluator.go: `Match` and the filter operators.
use Prim.Native.Nat.{Ordering}
use dalikamata.Prelude.{
  String, Bool, true, false, not, ◌&&◌, Option, none, some, List, [], ◌∷◌, if◌then◌else◌, is_empty,
  Result, ok, err, ◌>>=◌,
}
use dalikamata.Prelude.Dict.{lookup}
use dalikamata.Platform.{Platform}
use dalikamata.Query.Value.{
  op_bool, op_term, op_terms, op_range, op_exists, FilterOp, Error, unknown_filter_op, value_is_nil,
  range_is_nil, range_on_list, Value, Any, Fields, Range, Filter, Filters, filter, nil, cons,
}
use dalikamata.Query.Compare.{compare_field_value}

-- The tests that the code makes on -1, 0 and 1.
abbrev pub is_zero : Ordering → Bool
is_zero o = elim o [ Ordering.eq ↦ true | _ ↦ false ]

abbrev pub is_negative : Ordering → Bool
is_negative o = elim o [ Ordering.lt ↦ true | _ ↦ false ]

abbrev pub is_positive : Ordering → Bool
is_positive o = elim o [ Ordering.gt ↦ true | _ ↦ false ]

module _ ⦃go : Platform⦄ where
  -- `for _, v := range values { if cmp == 0 { return true } }`
  unfoldable pub match_values : Any → List Value → Result Error Bool
  match_values a [] = ok false
  match_values a (v ∷ vs) =
      let rest = match_values a vs in
      do c ← compare_field_value a v; if is_zero c then ok true else rest

  unfoldable pub match_any_element : List String → List Value → Result Error Bool
  match_any_element [] candidates = ok false
  match_any_element (e ∷ es) candidates =
      let rest = match_any_element es candidates in
      do found ← match_values (Any.string e) candidates; if found then ok true else rest

  -- `fieldVal, ok := fields[f.Field]; if !ok { return false, nil }` before the rest of a leaf.
  unfoldable pub found_field : Option Any → (Any → Result Error Bool) → Result Error Bool
  found_field none k = ok false
  found_field (some a) k = k a

  abbrev pub match_term_value : Any → Value → Result Error Bool
  match_term_value (Any.strings list) v = match_any_element list (v ∷ [])
  match_term_value a v = do c ← compare_field_value a v; ok (is_zero c)

  unfoldable pub match_term : String → Option Value → Fields → Result Error Bool
  match_term field none fields = err (value_is_nil field)
  match_term field (some v) fields = found_field (lookup field fields) (λ a. match_term_value a v)

  abbrev pub match_terms_values : Any → List Value → Result Error Bool
  match_terms_values (Any.strings list) vs = match_any_element list vs
  match_terms_values a vs = match_values a vs

  unfoldable pub match_terms : String → List Value → Fields → Result Error Bool
  match_terms field vs fields = found_field (lookup field fields) (λ a. match_terms_values a vs)

  -- One bound of a range: a bound that is not set holds.
  unfoldable pub bound_holds : (Ordering → Bool) → Any → Option Value → Result Error Bool
  bound_holds test a none = ok true
  bound_holds test a (some v) = do c ← compare_field_value a v; ok (test c)

  abbrev pub match_bounds : Any → Range → Result Error Bool
  match_bounds a r = do
    above ← bound_holds is_positive a r.gt
    if not above then ok false else do
      from ← bound_holds (λ c. not (is_negative c)) a r.gte
      if not from then ok false else do
        below ← bound_holds is_negative a r.lt
        if not below then ok false else bound_holds (λ c. not (is_positive c)) a r.lte

  abbrev pub match_range_value : String → Any → Range → Result Error Bool
  match_range_value field (Any.strings list) r = err (range_on_list field)
  match_range_value field a r = match_bounds a r

  unfoldable pub match_range : String → Option Range → Fields → Result Error Bool
  match_range field none fields = err (range_is_nil field)
  match_range field (some r) fields =
      found_field (lookup field fields) (λ a. match_range_value field a r)

  -- A list field exists if it has an element.
  abbrev pub exists_value : Option Any → Bool
  exists_value none = false
  exists_value (some (Any.strings list)) = not (is_empty list)
  exists_value (some a) = true

  unfoldable pub match_exists : String → Fields → Bool
  match_exists field fields = exists_value (lookup field fields)

  abbrev pub has_clauses : Filters → Bool
  has_clauses nil = false
  has_clauses (cons f fs) = true

  -- The loops of matchBool over Must, MustNot and Should leave at the first child that decides.
  unfoldable mutual
    unfolding match_term match_terms match_range match_exists match_values match_any_element
        bound_holds

    pub match_filter : Filter → Fields → Result Error Bool
    match_filter (filter op_bool must must_not should field value values range) fields = do
      required ← match_must must fields
      if not required then ok false else do
        allowed ← match_must_not must_not fields
        if not allowed
            then ok false
            else (if not (has_clauses must) && has_clauses should
                then match_should should fields
                else ok true)
    match_filter (filter op_term must must_not should field value values range) fields =
        match_term field value fields
    match_filter (filter op_terms must must_not should field value values range) fields =
        match_terms field values fields
    match_filter (filter op_range must must_not should field value values range) fields =
        match_range field range fields
    match_filter (filter op_exists must must_not should field value values range) fields =
        ok (match_exists field fields)
    match_filter (filter (FilterOp.unknown op) must must_not should field value values range)
          fields =
        err (unknown_filter_op op)

    pub match_must : Filters → Fields → Result Error Bool
    match_must nil fields = ok true
    match_must (cons f fs) fields =
        let rest = match_must fs fields in
        do found ← match_filter f fields; if found then rest else ok false

    pub match_must_not : Filters → Fields → Result Error Bool
    match_must_not nil fields = ok true
    match_must_not (cons f fs) fields =
        let rest = match_must_not fs fields in
        do found ← match_filter f fields; if found then ok false else rest

    pub match_should : Filters → Fields → Result Error Bool
    match_should nil fields = ok false
    match_should (cons f fs) fields =
        let rest = match_should fs fields in
        do found ← match_filter f fields; if found then ok true else rest

  -- Match: a nil filter matches everything.
  unfoldable pub match : Option Filter → Fields → Result Error Bool
  match none fields = ok true
  match (some f) fields = match_filter f fields
