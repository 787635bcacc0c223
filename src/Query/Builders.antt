-- ===== src/Query/Builders.antt =====
-- internal/domain/query/builders.go and the constructors of value.go.
use dalikamata.Prelude.{String, Bool, false, none, some, List, [], ◌∷◌}
use dalikamata.Prelude.Int.{ℤ, pos}
use dalikamata.Platform.{Platform}
use dalikamata.Query.Value.{
  kind_string, kind_int, kind_float, kind_bool, kind_time, op_bool, op_term, op_terms, op_range,
  op_exists, Value, Range, Filter, Filters, filter,
}

module _ ⦃go : Platform⦄ where
  open go use {Float, Time, float_of_int, time_zero}

  -- Go's zero values fill the fields that a constructor leaves out.
  abbrev zero_value : Value
  zero_value = record {
    kind = kind_string;
    string = "";
    int = pos 0;
    float = float_of_int (pos 0);
    bool = false;
    time = time_zero;
  }

  abbrev pub string_value : String → Value
  string_value s = record zero_value { string = s }

  abbrev pub int_value : ℤ → Value
  int_value i = record zero_value { kind = kind_int; int = i }

  abbrev pub float_value : Float → Value
  float_value f = record zero_value { kind = kind_float; float = f }

  abbrev pub bool_value : Bool → Value
  bool_value b = record zero_value { kind = kind_bool; bool = b }

  abbrev pub time_value : Time → Value
  time_value t = record zero_value { kind = kind_time; time = t }

  abbrev pub filters : List Filter → Filters
  filters [] = Filters.nil
  filters (f ∷ fs) = Filters.cons f (filters fs)

  unfoldable pub term_filter : String → Value → Filter
  term_filter field value =
      filter op_term Filters.nil Filters.nil Filters.nil field (some value) [] none

  unfoldable pub terms_filter : String → List Value → Filter
  terms_filter field values =
      filter op_terms Filters.nil Filters.nil Filters.nil field none values none

  unfoldable pub range_filter : String → Range → Filter
  range_filter field r = filter op_range Filters.nil Filters.nil Filters.nil field none [] (some r)

  unfoldable pub exists_filter : String → Filter
  exists_filter field = filter op_exists Filters.nil Filters.nil Filters.nil field none [] none

  unfoldable pub and_filter : List Filter → Filter
  and_filter fs = filter op_bool (filters fs) Filters.nil Filters.nil "" none [] none

  unfoldable pub or_filter : List Filter → Filter
  or_filter fs = filter op_bool Filters.nil Filters.nil (filters fs) "" none [] none

  unfoldable pub not_filter : List Filter → Filter
  not_filter fs = filter op_bool Filters.nil (filters fs) Filters.nil "" none [] none
