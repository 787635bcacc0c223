-- ===== src/Query/Sort/Order.antt =====
-- internal/domain/query/evaluator.go: the order of `Less` and `SortBy`, for rows whose columns have
-- one type each.
use dalikamata.Prelude.{String, ◌≡◌, Bool, true, false, not, ◌&&◌, List, All}
use dalikamata.Prelude.SortLaws
use dalikamata.Platform.{Platform}
use dalikamata.Query.Value.{SortField, Any, Fields}
use dalikamata.Query.Sort.{column, less}

-- The dynamic types that `compareAny` tells apart.
pub data ColumnType : Type 0 where
  string int int64 float bool time other : ColumnType

module _ ⦃go : Platform⦄ where
  open go use {is_nan}

  abbrev pub has_type : ColumnType → Any → Bool
  has_type ColumnType.string (Any.string s) = true
  has_type ColumnType.int (Any.int n) = true
  has_type ColumnType.int64 (Any.int64 n) = true
  has_type ColumnType.float (Any.float64 f) = not (is_nan f)
  has_type ColumnType.bool (Any.bool b) = true
  has_type ColumnType.time (Any.time t) = true
  has_type ColumnType.other Any.nil = true
  has_type ColumnType.other (Any.strings es) = true
  has_type _ _ = false

  -- The rows whose sort columns have the types of a schema.
  abbrev pub Conforms : (String → ColumnType) → List SortField → Fields → Type 0
  Conforms schema fields row =
      All (λ s. has_type (schema s.field) (column s.field row) ≡ true) fields

  -- Neither item sorts before the other.
  abbrev pub same_rank : {A : Type 0} → List SortField → (A → Fields) → A → A → Bool
  same_rank fields project z x =
      not (less fields (project z) (project x)) && not (less fields (project x) (project z))
