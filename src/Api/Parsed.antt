-- ===== src/Api/Parsed.antt =====
-- internal/api/query_params.go: what a query string is parsed to, on every branch.
use dalikamata.Prelude.{
  String, Bool, true, false, ◌&&◌, ◌≡◌, refl, sym, ◌⊎◌, inl, inr, Bool-cases, ◌==◌, Option, none,
  some, List, [], ◌∷◌, ◌++◌, ◌>>=◌, ◌∙◌, Result, ok, err, Result-cases, map, all, any, arith,
}
use dalikamata.Prelude.Int.{ℤ, pos}
use dalikamata.Prelude.Dict.{Dict, contains}
use dalikamata.Prelude.Perms.{all-Perm, any-Perm}
use dalikamata.Platform.{Platform}
use dalikamata.Query.Value.{
  op_bool, op_term, op_terms, op_range, op_exists, FilterOp, Range, Filter, Filters, filter, nil,
  cons,
}
use dalikamata.Query.Builders.{
  filters, term_filter, terms_filter, range_filter, exists_filter, and_filter,
}
use dalikamata.Repo.Queries.{Query, Entity}
use dalikamata.Api.Fields.{valid_fields}
use dalikamata.Api.Params.{
  ParamError, size_invalid, from_invalid, unknown_field, UrlValues, Params, no_params, combine,
  term_clause, range_clause, exists_clause, clauses, number_or, get_param, parse_query_params,
}
use dalikamata.Api.Checked.{
  asked_field, known_field, asks_for, IsKnown, Gathered, collect_params-Gathered,
}

module _ ⦃go : Platform⦄ (known : List String) where
  open go use {range_order, range_order-Perm}

  -- Every field that a leaf of the filter names is known.
  unfoldable mutual
    pub names_known : Filter → Bool
    names_known (filter op_bool must must_not should field value values range) =
        all_names_known must && (all_names_known must_not && all_names_known should)
    names_known (filter op_term must must_not should field value values range) =
        contains known field
    names_known (filter op_terms must must_not should field value values range) =
        contains known field
    names_known (filter op_range must must_not should field value values range) =
        contains known field
    names_known (filter op_exists must must_not should field value values range) =
        contains known field
    names_known (filter (FilterOp.unknown op) must must_not should field value values range) =
        contains known field

    pub all_names_known : Filters → Bool
    all_names_known nil = true
    all_names_known (cons f fs) = names_known f && all_names_known fs

  abbrev pub some_names_known : Option Filter → Bool
  some_names_known none = true
  some_names_known (some f) = names_known f

  all_names_known-filters : (fs : List Filter) → all_names_known (filters fs) ≡ all names_known fs
  unfolding all_names_known
  all_names_known-filters [] = refl
  all_names_known-filters (f ∷ fs) = rw (all_names_known-filters fs) refl

  combine-known :
      (fs : List Filter) → all names_known fs ≡ true → some_names_known (combine fs) ≡ true
  unfolding names_known and_filter
  combine-known [] h = refl
  combine-known (f ∷ []) h = ground arith
  combine-known (f ∷ (g ∷ fs)) h = rw (all_names_known-filters fs) (ground arith)

  all-append :
      (fs gs : List Filter)
      → all names_known (fs ++ gs) ≡ (all names_known fs && all names_known gs)
  all-append [] gs = refl
  all-append (f ∷ fs) gs = ground (arith, all-append fs gs)

  all-map :
      {V : Type 0} (clause : String × V → Filter)
      → ((e : String × V) → names_known (clause e) ≡ contains known e.0)
      → (m : Dict V) → all names_known (map clause m) ≡ all (λ e. contains known e.0) m
  all-map clause named [] = refl
  all-map clause named (e ∷ m) = rw (named e, all-map clause named m) refl

  module _ {E : Type 0} (atoi : String → Result E ℤ) (parse_time : String → Option go.Time)
      (parse_int : String → Option ℤ) (parse_float : String → Option go.Float) where
    term_clause-named :
        (e : String × List String)
        → names_known (term_clause atoi parse_time parse_int parse_float e) ≡ contains known e.0
    unfolding names_known term_filter terms_filter
    term_clause-named (field, []) = refl
    term_clause-named (field, v ∷ []) = refl
    term_clause-named (field, v ∷ (w ∷ vs)) = refl

    range_clause-named :
        (e : String × Range)
        → names_known (range_clause atoi parse_time parse_int parse_float e) ≡ contains known e.0
    unfolding names_known range_filter
    range_clause-named (field, r) = refl

    exists_clause-named :
        (e : String × Unit {0})
        → names_known (exists_clause atoi parse_time parse_int parse_float e) ≡ contains known e.0
    unfolding names_known exists_filter
    exists_clause-named (field, unit) = refl

    in_order :
        {V : Type 0} (clause : String × V → Filter)
        → ((e : String × V) → names_known (clause e) ≡ contains known e.0)
        → (m : Dict V)
        → all names_known (map clause (range_order m)) ≡ all (λ e. contains known e.0) m
    in_order clause named m =
        all-map clause named (range_order m)
        ∙ all-Perm (λ e. contains known e.0) (range_order-Perm m)

    clauses-known :
        (p : Params)
        → IsKnown known p
        → all names_known (clauses atoi parse_time parse_int parse_float p) ≡ true
    clauses-known p h =
        let terms =
          in_order (term_clause atoi parse_time parse_int parse_float) term_clause-named p.terms in
        let ranges =
          in_order (range_clause atoi parse_time parse_int parse_float) range_clause-named
            p.ranges in
        let exists =
          in_order (exists_clause atoi parse_time parse_int parse_float) exists_clause-named
            p.exists in
        rw (all-append, all-append, terms, ranges, exists, h.0, h.1, h.2) refl

    -- What the parser's answer says of the parameters.
    abbrev pub Judged : Entity → UrlValues → Result (ParamError E) Query → Type 0
    Judged entity params (ok q) =
        (all (λ e. known_field known (asked_field e.0)) params ≡ true)
        × (some_names_known q.filter ≡ true)
        × (q.entity ≡ entity)
    Judged entity params (err (size_invalid e)) = atoi (get_param "size" params) ≡ err e
    Judged entity params (err (from_invalid e)) = atoi (get_param "from" params) ≡ err e
    Judged entity params (err (unknown_field name)) =
        (any (λ e. asks_for name (asked_field e.0)) params ≡ true) × (contains known name ≡ false)

    number_or-cases :
        (default : ℤ) (fail : E → ParamError E) (s : String)
        → ((n : ℤ) × (number_or atoi parse_time parse_int parse_float default fail s ≡ ok n))
          ⊎ ((e : E) × (number_or atoi parse_time parse_int parse_float default fail s
                ≡ err (fail e))
              × (atoi s ≡ err e))
    number_or-cases default fail s = elim (Bool-cases (s == "")) [
      | inl blank ↦ inl (default, rw blank refl)
      | inr given ↦ elim (Result-cases (atoi s)) [
        | inl (n, e) ↦ inl (n, rw (given, e) refl)
        | inr (error, e) ↦ inr (error, rw (given, e) refl, e)
      ]
    ]

    collected-Judged :
        (entity : Entity) (params : UrlValues) (r : Result (ParamError E) Params)
        (build : Params → Query)
        → ((p : Params)
            → (build p).filter ≡ combine (clauses atoi parse_time parse_int parse_float p))
        → ((p : Params) → (build p).entity ≡ entity)
        → Gathered known atoi parse_time parse_int parse_float (range_order params) r
        → Judged entity params (r >>= λ p. ok (build p))
    collected-Judged entity params (ok p) build same of_entity g = (
      sym (all-Perm (λ e. known_field known (asked_field e.0)) (range_order-Perm params)) ∙ g.0,
      rw (same p)
          (combine-known (clauses atoi parse_time parse_int parse_float p) (clauses-known p g.1)),
      of_entity p,
    )
    collected-Judged entity params (err (size_invalid e)) build same of_entity g = absurd g
    collected-Judged entity params (err (from_invalid e)) build same of_entity g = absurd g
    collected-Judged entity params (err (unknown_field name)) build same of_entity g =
        (sym (any-Perm (λ e. asks_for name (asked_field e.0)) (range_order-Perm params)) ∙ g.0, g.1)

module _ ⦃go : Platform⦄ {E : Type 0} (atoi : String → Result E ℤ)
    (parse_time : String → Option go.Time) (parse_int : String → Option ℤ)
    (parse_float : String → Option go.Float) where
  -- An accepted query string asks to filter by known fields of the entity only, and the query is
  -- of that entity, with a filter that names no other field. A refused one has a size or an offset that is no number, or it
  -- asks to filter by the field that the error names, which the entity does not have.
  pub parse_query_params_lem :
      (params : UrlValues) (entity : Entity)
      → Judged
          (valid_fields entity)
          atoi
          parse_time
          parse_int
          parse_float
          entity
          params
          (parse_query_params atoi parse_time parse_int parse_float params entity)
  unfolding parse_query_params
  parse_query_params_lem params entity =
      let known = valid_fields entity in
      let size =
        number_or-cases known atoi parse_time parse_int parse_float (pos 100) size_invalid
          (get_param "size" params) in
      let from =
        number_or-cases known atoi parse_time parse_int parse_float (pos 0) from_invalid
          (get_param "from" params) in
      elim size [
        | inr (e, failed, cause) ↦ rw failed cause
        | inl (n, parsed) ↦ rw parsed (elim from [
          | inr (e, failed, cause) ↦ rw failed cause
          | inl (k, found) ↦ rw found (
              collected-Judged known atoi parse_time parse_int parse_float entity params _ _
                (λ p. refl) (λ p. refl)
                (collect_params-Gathered known atoi parse_time parse_int parse_float
                  (go.range_order params) no_params (refl, refl, refl)))
        ])
      ]
