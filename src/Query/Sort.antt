-- ===== src/Query/Sort.antt =====
-- internal/domain/query/evaluator.go: `Less`, `SortBy` and `Paginate`.
pub mod Order
pub mod Pages
use Prim.Native.Nat.{Ordering}
use dalikamata.Prelude.{
  ℕ, ◌≤◌, String, Bool, true, false, Option, none, some, List, [], ◌∷◌, length, take, drop, leb,
  ltb, ◌&&◌, if◌then◌else◌, sort_stable,
}
use dalikamata.Prelude.Int.{ℤ, pos, negsuc, ltb_ℤ, leb_ℤ}
use dalikamata.Prelude.Dict.{lookup}
use dalikamata.Platform.{Platform}
use dalikamata.Query.Value.{SortField, SortOrder, sort_asc, sort_desc, Any, Fields}
use dalikamata.Query.Compare.{compare_any}
use dalikamata.Query.Match.{is_negative, is_positive}

module _ ⦃go : Platform⦄ where
  -- `fields[name]`, which is nil where the field is missing.
  abbrev or_nil : Option Any → Any
  or_nil none = Any.nil
  or_nil (some a) = a

  abbrev pub column : String → Fields → Any
  column name fields = or_nil (lookup name fields)

  -- Every order but "desc" sorts upwards.
  abbrev pub before : SortOrder → Ordering → Bool
  before sort_desc c = is_positive c
  before sort_asc c = is_negative c
  before (SortOrder.unknown _) c = is_negative c

  unfoldable pub less : List SortField → Fields → Fields → Bool
  less [] a b = false
  less (s ∷ ss) a b =
      let rest = less ss a b in
      elim (compare_any (column s.field a) (column s.field b)) [
        | Ordering.eq ↦ rest
        | c ↦ before s.order c
      ]

  unfoldable pub sort_by : {A : Type 0} → List A → List SortField → (A → Fields) → List A
  sort_by items fields project = sort_stable (λ a b. less fields (project a) (project b)) items

-- The slice expressions of Go, with `none` for their panic. The upper bound of `items[:to]` is the
-- capacity, which is at least the length; here it is the length.
module _ {A : Type 0} where
  -- items[from:]
  abbrev pub slice_from : List A → ℤ → Option (List A)
  slice_from items (pos from) = if leb from (length items) then some (drop from items) else none
  slice_from items (negsuc _) = none

  -- items[:to]
  abbrev pub slice_to : List A → ℤ → Option (List A)
  slice_to items (pos to) = if leb to (length items) then some (take to items) else none
  slice_to items (negsuc _) = none

  abbrev pub page_of : ℤ → Option (List A) → Option (List A)
  page_of size none = none
  page_of size (some items) =
      if ltb_ℤ (pos 0) size && ltb_ℤ size (pos (length items))
      then slice_to items size
      else some items

  unfoldable pub paginate : List A → ℤ → ℤ → Option (List A)
  paginate items from size =
      if leb_ℤ (pos (length items)) from
      then slice_to items (pos 0)
      else page_of size (slice_from items from)
