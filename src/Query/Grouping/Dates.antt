-- ===== src/Query/Grouping/Dates.antt =====
-- internal/domain/query/aggregator.go: the groups of a date histogram.
use mathlib.Core.List.{append-nil}
use dalikamata.Prelude.{
  String, ◌≡◌, refl, ap, ◌∙◌, subst, Bool, false, Option, none, some, List, [], ◌∷◌, ◌++◌, ◌==◌,
  arith, filter, ok, >>=-eq-ok,
}
use dalikamata.Prelude.Dict.{Dict, lookup}
use dalikamata.Platform.{Platform}
use dalikamata.Query.Value.{Any, Fields}
use dalikamata.Query.Grouping.{Group, sprint, date_key, date_item, group_dates}
use dalikamata.Query.Grouping.Laws.{
  items_at, one_if, items-add, append-one_if, IsGrouping, add-IsGrouping,
}

module _ ⦃go : Platform⦄ where
  -- The time of the field lies in the period with the key.
  abbrev pub value_in : String → String → String → Option Any → Bool
  value_in interval layout k (some (Any.time t)) = date_key interval layout t == k
  value_in interval layout k _ = false

  abbrev pub item_in : String → String → String → String → Fields → Bool
  item_in field interval layout k item = value_in interval layout k (lookup field item)

  module _ (field interval layout : String) where
    items-date :
        (j : String) (o : Option Any) (item : Fields) (groups : Dict Group) {next : Dict Group}
        → date_item field interval layout o item groups ≡ ok next
        → items_at j next ≡ items_at j groups ++ one_if (value_in interval layout j o) item
    items-date j none item groups h = ground (arith, append-nil (items_at j groups))
    items-date j (some (Any.time t)) item groups h =
        let k = date_key interval layout t in
        ground (arith, items-add j k (Any.string k) item groups)
    items-date j (some a) item groups h = ground arith

    date-IsGrouping :
        (o : Option Any) (item : Fields) (groups : Dict Group) {next : Dict Group}
        → date_item field interval layout o item groups ≡ ok next
        → IsGrouping groups
        → IsGrouping next
    date-IsGrouping none item groups h g = subst IsGrouping (ground arith) g
    date-IsGrouping (some (Any.time t)) item groups h g =
        let k = date_key interval layout t in
        subst IsGrouping (ground arith)
          (add-IsGrouping k (Any.string k) item groups (unfold sprint in refl) g)
    date-IsGrouping (some a) item groups h g = absurd (ground arith)

    -- The group of a key is exactly the items whose time lies in its period, in their order.
    pub items-dates :
        (j : String) (items : List Fields) (groups : Dict Group) {final : Dict Group}
        → group_dates field interval layout items groups ≡ ok final
        → items_at j final ≡ items_at j groups ++ filter (item_in field interval layout j) items
    unfolding group_dates
    items-dates j [] groups h = ground (arith, append-nil (items_at j groups))
    items-dates j (item ∷ items) groups {final} h =
        let (next, stepped, rest) =
          >>=-eq-ok (date_item field interval layout (lookup field item) item groups)
            (group_dates field interval layout items) h in
        items-dates j items next rest
        ∙ ap (λ l. l ++ filter (item_in field interval layout j) items)
            (items-date j (lookup field item) item groups stepped)
        ∙ append-one_if (items_at j groups) (filter (item_in field interval layout j) items)
            (item_in field interval layout j item) item

    pub dates-IsGrouping :
        (items : List Fields) (groups : Dict Group) {final : Dict Group}
        → group_dates field interval layout items groups ≡ ok final
        → IsGrouping groups
        → IsGrouping final
    unfolding group_dates
    dates-IsGrouping [] groups h g = subst IsGrouping (ground arith) g
    dates-IsGrouping (item ∷ items) groups h g =
        let (next, stepped, rest) =
          >>=-eq-ok (date_item field interval layout (lookup field item) item groups)
            (group_dates field interval layout items) h in
        dates-IsGrouping items next rest (date-IsGrouping (lookup field item) item groups stepped g)
