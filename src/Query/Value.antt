-- ===== src/Query/Value.antt =====
-- internal/domain/query/value.go, filter.go, sort.go: values, filters and sort fields; the field
-- maps (`map[string]any`) against which they are evaluated; and the errors of the evaluator.
use dalikamata.Prelude.{String, Bool, Option, List}
use dalikamata.Prelude.Int.{ℤ}
use dalikamata.Prelude.Dict.{Dict}
use dalikamata.Platform.{Platform}

-- A kind or operator is a text in Go; `unknown` stands for every other text.
pub data ValueKind : Type 0 where
  kind_string kind_int kind_float kind_bool kind_time : ValueKind
  unknown : String → ValueKind

pub data FilterOp : Type 0 where
  op_bool op_term op_terms op_range op_exists : FilterOp
  unknown : String → FilterOp

pub data SortOrder : Type 0 where
  sort_asc sort_desc : SortOrder
  unknown : String → SortOrder

pub record SortField : Type 0 where
  pub field : String
  pub order : SortOrder

-- fmt.Errorf of evaluator.go and aggregator.go, one constructor for each message.
pub data Error : Type 0 where
  unknown_filter_op : String → Error
  value_is_nil : String → Error
  range_is_nil : String → Error
  range_on_list : String → Error
  not_a_string not_an_integer not_numeric not_a_bool not_a_time : Error
  unknown_value_kind : String → Error
  unknown_aggregation_op : String → Error
  not_a_date : String → Error
  no_bucket_boundaries : String → Error
  sub_aggregations_unsupported : Error
  want_numeric : String → Error
  in_aggregation : String → Error → Error

module _ ⦃go : Platform⦄ where
  open go use {Float, Time}

  pub record Value : Type 0 where
    pub kind : ValueKind
    pub string : String
    pub int : ℤ
    pub float : Float
    pub bool : Bool
    pub time : Time

  -- The dynamic types that a field map holds. A float32 is held as the float64 that it converts to.
  pub data Any : Type 0 where
    nil : Any
    string : String → Any
    int : ℤ → Any
    int64 : ℤ → Any
    float64 : Float → Any
    float32 : Float → Any
    bool : Bool → Any
    time : Time → Any
    strings : List String → Any

  abbrev pub Fields : Type 0
  Fields = Dict Any

  pub record Range : Type 0 where
    pub gt : Option Value
    pub gte : Option Value
    pub lt : Option Value
    pub lte : Option Value

  -- The struct's fields in order: op; must, must_not, should; field, value, values, range.
  mutual
    pub data Filter : Type 0 where
      filter :
          FilterOp
          → Filters
          → Filters
          → Filters
          → String
          → Option Value
          → List Value
          → Option Range
          → Filter

    pub data Filters : Type 0 where
      nil : Filters
      cons : Filter → Filters → Filters
