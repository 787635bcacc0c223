-- ===== src/Api/Params.antt =====
-- internal/api/query_params.go: a URL's query string as a query. time.Parse at RFC 3339 and the parsers
-- of strconv are parameters.
use dalikamata.Prelude.{
  String, Bool, false, ◌||◌, Option, none, some, List, [], ◌∷◌, ◌++◌, ◌==◌, ◌>>=◌, if◌then◌else◌,
  Result, ok, err, map,
}
use dalikamata.Prelude.Int.{ℤ, pos}
use dalikamata.Prelude.Dict.{Dict, contains, lookup, insert}
use dalikamata.Prelude.Texts.{trim_space}
use dalikamata.Prelude.Cuts.{cut_prefix, cut_last, split_at}
use dalikamata.Platform.{Platform}
use dalikamata.Query.Value.{Value, Range, Filter, SortField, sort_asc, sort_desc}
use dalikamata.Query.Builders.{
  string_value, int_value, float_value, time_value, term_filter, terms_filter, range_filter,
  exists_filter, and_filter,
}
use dalikamata.Query.Aggregation.{Aggs}
use dalikamata.Repo.Queries.{Query, Entity}
use dalikamata.Api.Fields.{valid_fields}

pub data ParamError (E : Type 0) : Type 0 where
  size_invalid from_invalid : E → ParamError E
  unknown_field : String → ParamError E

-- url.Values and its Get.
abbrev pub UrlValues : Type 0
UrlValues = Dict (List String)

abbrev first_of : Option (List String) → String
first_of none = ""
first_of (some []) = ""
first_of (some (v ∷ vs)) = v

abbrev pub get_param : String → UrlValues → String
get_param key params = first_of (lookup key params)

abbrev pub or_list : Option (List String) → List String
or_list none = []
or_list (some vs) = vs

-- 44 is the code of ','.
abbrev sort_field : String → Option String → SortField
sort_field part none = record { field = part; order = sort_asc }
sort_field part (some rest) = record { field = rest; order = sort_desc }

abbrev pub sort_fields_of : List String → List SortField
sort_fields_of [] = []
sort_fields_of (part ∷ parts) =
    let rest = sort_fields_of parts in
    let name = trim_space part in
    if name == "" then rest else sort_field name (cut_prefix "-" name) ∷ rest

unfoldable pub parse_sort_fields : String → List SortField
parse_sort_fields s = sort_fields_of (split_at 44 s)

abbrev pub is_range_suffix : String → Bool
is_range_suffix suffix = suffix == "gte" || suffix == "lte" || suffix == "gt" || suffix == "lt"

-- checkField, and what follows it.
abbrev pub checked : {E A : Type 0} → String → List String → A → Result (ParamError E) A
checked field known a = if contains known field then ok a else err (unknown_field field)

module _ ⦃go : Platform⦄ where
  open go use {Float, Time, range_order}

  -- The filter parameters, grouped by their type.
  pub record Params : Type 0 where
    pub terms : Dict (List String)
    pub ranges : Dict Range
    pub exists : Dict (Unit {0})

  abbrev pub no_params : Params
  no_params = record { terms = []; ranges = []; exists = [] }

  abbrev or_range : Option Range → Range
  or_range none = record { gt = none; gte = none; lt = none; lte = none }
  or_range (some r) = r

  abbrev set_bound : String → Value → Range → Range
  set_bound suffix v r =
      if suffix == "gte"
      then record r { gte = some v }
      else if suffix == "lte"
      then record r { lte = some v }
      else if suffix == "gt"
      then record r { gt = some v }
      else record r { lt = some v }

  abbrev pub combine : List Filter → Option Filter
  combine [] = none
  combine (clause ∷ []) = some clause
  combine (clause ∷ (next ∷ clauses)) = some (and_filter (clause ∷ (next ∷ clauses)))

  module _ {E : Type 0} (atoi : String → Result E ℤ) (parse_time : String → Option Time)
      (parse_int : String → Option ℤ) (parse_float : String → Option Float) where
    abbrev value_of : Option Time → Option ℤ → Option Float → String → Value
    value_of (some t) int float s = time_value t
    value_of none (some n) float s = int_value n
    value_of none none (some f) s = float_value f
    value_of none none none s = string_value s

    unfoldable pub infer_value : String → Value
    infer_value s = value_of (parse_time s) (parse_int s) (parse_float s) s

    abbrev pub add_range : String → String → List String → Params → Params
    add_range base suffix [] p = p
    add_range base suffix (v ∷ vs) p = record p {
      ranges =
          insert base (set_bound suffix (infer_value v) (or_range (lookup base p.ranges))) p.ranges;
    }

    abbrev add_exists : String → Params → Params
    add_exists base p = record p { exists = insert base tt p.exists }

    abbrev add_terms : String → List String → Params → Params
    add_terms rest vals p = record p {
      terms = insert rest (or_list (lookup rest p.terms) ++ vals) p.terms;
    }

    module _ (known : List String) where
      abbrev pub add_cut :
          String → List String → Params → Option (String × String) → Result (ParamError E) Params
      add_cut rest vals p none = checked rest known (add_terms rest vals p)
      add_cut rest vals p (some (base, suffix)) =
          if suffix == "exists"
          then checked base known (add_exists base p)
          else if is_range_suffix suffix
          then checked base known (add_range base suffix vals p)
          else checked rest known (add_terms rest vals p)

      -- A key without the prefix "filter." is passed over. 46 is the code of '.'.
      abbrev pub add_entry : List String → Params → Option String → Result (ParamError E) Params
      add_entry vals p none = ok p
      add_entry vals p (some rest) = add_cut rest vals p (cut_last 46 rest)

      unfoldable pub collect_params : UrlValues → Params → Result (ParamError E) Params
      collect_params [] p = ok p
      collect_params ((key, vals) ∷ params) p =
          add_entry vals p (cut_prefix "filter." key) >>= λ q. collect_params params q

    abbrev pub term_clause : String × List String → Filter
    term_clause (field, []) = terms_filter field []
    term_clause (field, v ∷ []) = term_filter field (infer_value v)
    term_clause (field, v ∷ (w ∷ vs)) = terms_filter field (map infer_value (v ∷ (w ∷ vs)))

    abbrev pub range_clause : String × Range → Filter
    range_clause (field, r) = range_filter field r

    abbrev pub exists_clause : String × Unit {0} → Filter
    exists_clause (field, unit) = exists_filter field

    abbrev pub clauses : Params → List Filter
    clauses p =
        map term_clause (range_order p.terms)
        ++ (map range_clause (range_order p.ranges) ++ map exists_clause (range_order p.exists))

    abbrev pub number_or : ℤ → (E → ParamError E) → String → Result (ParamError E) ℤ
    number_or default fail s = if s == "" then ok default else number (atoi s)
      where
        number : Result E ℤ → Result (ParamError E) ℤ
        number (err e) = err (fail e)
        number (ok n) = ok n

    abbrev sort_of : String → List SortField
    sort_of s = if s == "" then [] else parse_sort_fields s

    unfoldable pub parse_query_params : UrlValues → Entity → Result (ParamError E) Query
    parse_query_params params entity = do
      size ← number_or (pos 100) size_invalid (get_param "size" params)
      from ← number_or (pos 0) from_invalid (get_param "from" params)
      p ← collect_params (valid_fields entity) (range_order params) no_params
      ok (record {
        entity = entity;
        filter = combine (clauses p);
        sort = sort_of (get_param "sort" params);
        from = from;
        size = size;
        aggs_only = false;
        aggs = Aggs.nil;
      })
