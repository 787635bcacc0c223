-- ===== src/Query/Grouping.antt =====
-- internal/domain/query/aggregator.go: how applyTerms and applyDateHistogram put items into groups
-- and turn the groups into buckets. The source's `order` lists the keys as the map `groups` gets
-- them, so the entries of the dictionary, in their order, stand for both.
pub mod Laws
pub mod Dates
pub mod Sorted
use dalikamata.Prelude.{
  String, Bool, true, false, Option, none, some, List, [], ◌∷◌, ◌++◌, ◌==◌, length, if◌then◌else◌,
  Result, ok, err, ◌>>=◌, sort_stable,
}
use dalikamata.Prelude.Dict.{Dict, contains, lookup, insert}
use dalikamata.Prelude.Texts.{str_lt, sprint_int}
use dalikamata.Platform.{Platform}
use dalikamata.Query.Value.{Error, not_a_date, Any, Fields}
use dalikamata.Query.Aggregation.{Buckets, Results}
use dalikamata.Query.Sort.{column}

module _ ⦃go : Platform⦄ where
  open go use {
    Float, Time, sprint_float, sprint_float32, sprint_time, time_date_hour, time_date_day,
    time_date_month, time_format,
  }

  pub record Group : Type 0 where
    pub key : Any
    pub items : List Fields

  -- fmt.Sprint of a key. (A list is never a key.)
  unfoldable pub sprint : Any → String
  sprint Any.nil = "<nil>"
  sprint (Any.string s) = s
  sprint (Any.int n) = sprint_int n
  sprint (Any.int64 n) = sprint_int n
  sprint (Any.float64 f) = sprint_float f
  sprint (Any.float32 f) = sprint_float32 f
  sprint (Any.bool true) = "true"
  sprint (Any.bool false) = "false"
  sprint (Any.time t) = sprint_time t
  sprint (Any.strings es) = ""

  abbrev pub extend : Any → Option Group → Fields → Group
  extend key none item = record { key = key; items = item ∷ [] }
  extend key (some g) item = record g { items = g.items ++ item ∷ [] }

  -- groups[k].items = append(groups[k].items, item), with a new group for a new key
  unfoldable pub add_to_bucket : String → Any → Fields → Dict Group → Dict Group
  add_to_bucket k key item groups = insert k (extend key (lookup k groups) item) groups

  -- The loop over the elements of a list field, each element once.
  unfoldable pub add_elements : List String → List String → Fields → Dict Group → Dict Group
  add_elements [] seen item groups = groups
  add_elements (e ∷ es) seen item groups =
      add_elements es (if contains seen e then seen else e ∷ seen) item
        (if contains seen e then groups else add_to_bucket e (Any.string e) item groups)

  abbrev pub add_item : Any → Fields → Dict Group → Dict Group
  add_item (Any.strings es) item groups = add_elements es [] item groups
  add_item val item groups = add_to_bucket (sprint val) val item groups

  unfoldable pub group_terms : String → List Fields → Dict Group → Dict Group
  group_terms field [] groups = groups
  group_terms field (item ∷ items) groups =
      group_terms field items (add_item (column field item) item groups)

  unfoldable pub truncate_time : Time → String → Time
  truncate_time t interval =
      if interval == "hour"
      then time_date_hour t
      else if interval == "day"
      then time_date_day t
      else time_date_month t

  -- The bucket key of a time.
  abbrev pub date_key : String → String → Time → String
  date_key interval layout t = time_format (truncate_time t interval) layout

  -- One item of applyDateHistogram: a missing field is skipped, another type is an error.
  abbrev pub date_item :
      String → String → String → Option Any → Fields → Dict Group → Result Error (Dict Group)
  date_item field interval layout none item groups = ok groups
  date_item field interval layout (some (Any.time t)) item groups =
      let k = date_key interval layout t in ok (add_to_bucket k (Any.string k) item groups)
  date_item field interval layout (some _) item groups = err (not_a_date field)

  unfoldable pub group_dates :
      String → String → String → List Fields → Dict Group → Result Error (Dict Group)
  group_dates field interval layout [] groups = ok groups
  group_dates field interval layout (item ∷ items) groups = do
    next ← date_item field interval layout (lookup field item) item groups
    group_dates field interval layout items next

  -- sort.Strings(order)
  abbrev pub sort_groups : Dict Group → Dict Group
  sort_groups = sort_stable (λ a b. str_lt a.0 b.0)

  -- The loop over `order`: one bucket for each group, with the results of its items.
  unfoldable pub make_buckets :
      (List Fields → Result Error Results) → Dict Group → Result Error Buckets
  make_buckets sub [] = ok Buckets.nil
  make_buckets sub ((k, g) ∷ groups) = do
    aggs ← sub g.items
    rest ← make_buckets sub groups
    ok (Buckets.cons g.key (length g.items) aggs rest)
