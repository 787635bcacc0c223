-- ===== src/Query/Grouping/Laws.antt =====
-- internal/domain/query/aggregator.go: the groups of a terms aggregation.
use dalikamata.Prelude.{
  String, ◌≡◌, refl, ap, ◌∙◌, Bool, true, false, not, ◌&&◌, Option, none, some, List, [], ◌∷◌, ◌++◌,
  ◌==◌, eq_iff, arith, All, filter, if◌then◌else◌, is_empty, Bool-cases, inl, inr,
}
use dalikamata.Prelude.Dict.{
  Dict, Distinct, contains, keys, lookup, lookup-insert, insert-Distinct, All-insert, All-lookup,
}
use dalikamata.Platform.{Platform}
use dalikamata.Query.Value.{Any, Fields}
use dalikamata.Query.Sort.{column}
use dalikamata.Query.Grouping.{
  Group, sprint, extend, add_to_bucket, add_elements, add_item, group_terms,
}
use mathlib.Core.List.{append_assoc, append-nil}

module _ ⦃go : Platform⦄ where
  abbrev pub items_of : Option Group → List Fields
  items_of none = []
  items_of (some g) = g.items

  -- The items of the group with a key.
  abbrev pub items_at : String → Dict Group → List Fields
  items_at k groups = items_of (lookup k groups)

  -- The keys of an item: the elements of a list field, or the text of its one value.
  abbrev pub value_has : Any → String → Bool
  value_has (Any.strings es) k = contains es k
  value_has val k = sprint val == k

  abbrev pub item_has : String → String → Fields → Bool
  item_has field k item = value_has (column field item) k

  abbrev pub one_if : Bool → Fields → List Fields
  one_if b item = if b then item ∷ [] else []

  pub items-add :
      (j k : String) (key : Any) (item : Fields) (groups : Dict Group)
      → items_at j (add_to_bucket k key item groups) ≡ items_at j groups ++ one_if (k == j) item
  unfolding add_to_bucket
  items-add j k key item groups = ground (
    arith,
    lookup-insert k j (extend key (lookup k groups) item) groups,
    eq_iff k j,
    append-nil (items_at j groups),
  )

  items-elements :
      (j : String) (es seen : List String) (item : Fields) (groups : Dict Group)
      → items_at j (add_elements es seen item groups)
        ≡ items_at j groups ++ one_if (contains es j && not (contains seen j)) item
  unfolding add_elements
  items-elements j [] seen item groups = rw (append-nil (items_at j groups))
  items-elements j (e ∷ es) seen item groups = elim (Bool-cases (contains seen e)) [
    | inl old ↦ rw old (ground (arith, items-elements j es seen item groups, eq_iff e j))
    | inr new ↦ rw new (
        ground (
          arith,
          items-elements j es (e ∷ seen) item (add_to_bucket e (Any.string e) item groups),
          items-add j e (Any.string e) item groups,
          eq_iff e j,
          append-nil (items_at j groups),
          append-nil (items_at j groups ++ item ∷ []),
        ))
  ]

  -- What every group satisfies: its key prints as its name, and it has an item.
  abbrev pub IsGroup : String × Group → Type 0
  IsGroup e = (sprint e.1.key ≡ e.0) × (is_empty e.1.items ≡ false)

  abbrev pub IsGrouping : Dict Group → Type 0
  IsGrouping groups = Distinct (keys groups) × All IsGroup groups

  append_not_empty : (xs : List Fields) (x : Fields) → is_empty (xs ++ x ∷ []) ≡ false
  append_not_empty [] x = refl
  append_not_empty (y ∷ ys) x = refl

  extend-IsGroup :
      (k : String) (key : Any) (item : Fields) (o : Option Group) (groups : Dict Group)
      → sprint key ≡ k
      → lookup k groups ≡ o
      → All IsGroup groups
      → IsGroup (k, extend key o item)
  extend-IsGroup k key item none groups p e h = (p, refl)
  extend-IsGroup k key item (some g) groups p e h =
      ((All-lookup IsGroup k g groups e h).0, append_not_empty g.items item)

  pub add-IsGrouping :
      (k : String) (key : Any) (item : Fields) (groups : Dict Group)
      → sprint key ≡ k
      → IsGrouping groups
      → IsGrouping (add_to_bucket k key item groups)
  unfolding add_to_bucket
  add-IsGrouping k key item groups p h = (
    insert-Distinct k (extend key (lookup k groups) item) groups h.0,
    All-insert IsGroup k (extend key (lookup k groups) item) groups
        (extend-IsGroup k key item (lookup k groups) groups p refl h.1) h.1,
  )

  elements-IsGrouping :
      (es seen : List String) (item : Fields) (groups : Dict Group)
      → IsGrouping groups
      → IsGrouping (add_elements es seen item groups)
  unfolding add_elements
  elements-IsGrouping [] seen item groups h = h
  elements-IsGrouping (e ∷ es) seen item groups h = elim (Bool-cases (contains seen e)) [
    | inl old ↦ rw old (elements-IsGrouping es seen item groups h)
    | inr new ↦ rw new (
        elements-IsGrouping es (e ∷ seen) item (add_to_bucket e (Any.string e) item groups)
          (add-IsGrouping e (Any.string e) item groups (unfold sprint in refl) h))
  ]

  item-IsGrouping :
      (val : Any) (item : Fields) (groups : Dict Group)
      → IsGrouping groups
      → IsGrouping (add_item val item groups)
  item-IsGrouping (Any.strings es) item groups h = elements-IsGrouping es [] item groups h
  item-IsGrouping val item groups h = add-IsGrouping (sprint val) val item groups refl h

  items-item :
      (j : String) (val : Any) (item : Fields) (groups : Dict Group)
      → items_at j (add_item val item groups) ≡ items_at j groups ++ one_if (value_has val j) item
  items-item j (Any.strings es) item groups = ground (arith, items-elements j es [] item groups)
  items-item j val item groups = items-add j (sprint val) val item groups

  pub terms-IsGrouping :
      (field : String) (items : List Fields) (groups : Dict Group)
      → IsGrouping groups
      → IsGrouping (group_terms field items groups)
  unfolding group_terms
  terms-IsGrouping field [] groups h = h
  terms-IsGrouping field (item ∷ items) groups h =
      terms-IsGrouping field items (add_item (column field item) item groups)
        (item-IsGrouping (column field item) item groups h)

  pub append-one_if :
      (xs ys : List Fields) (b : Bool) (x : Fields)
      → (xs ++ one_if b x) ++ ys ≡ xs ++ (if b then x ∷ ys else ys)
  append-one_if xs ys true x = append_assoc xs (x ∷ []) ys
  append-one_if xs ys false x = ap (λ l. l ++ ys) (append-nil xs)

  -- The group of a key is exactly the items that have the key, in their order.
  pub items-terms :
      (j field : String) (items : List Fields) (groups : Dict Group)
      → items_at j (group_terms field items groups)
        ≡ items_at j groups ++ filter (item_has field j) items
  unfolding group_terms
  items-terms j field [] groups = rw (append-nil (items_at j groups))
  items-terms j field (item ∷ items) groups =
      items-terms j field items (add_item (column field item) item groups)
      ∙ ap (λ l. l ++ filter (item_has field j) items)
          (items-item j (column field item) item groups)
      ∙ append-one_if (items_at j groups) (filter (item_has field j) items) (item_has field j item)
          item
