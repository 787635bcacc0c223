-- ===== src/Tests/Sorted.antt =====
-- Two rows sorted, and pages of a list.
use dalikamata.Prelude.{
  ◌≡◌, ◌≤◌, ◌↔◌, true, none, some, List, [], ◌∷◌, arith, length, ℕ, String, if◌then◌else◌, ◌==◌,
}
use dalikamata.Prelude.Int.{pos, negsuc, ltb_ℤ}
use dalikamata.Query.Value.{SortField, sort_asc, sort_desc}
use dalikamata.Query.Sort.{paginate}
use dalikamata.Query.Sort.Order.{ColumnType}
use dalikamata.Query.Sort.Pages.{first_pages, paginate_pages, paginate-none_iff}
use dalikamata.Tests.World.{numbers}

abbrev newest_first : List SortField
newest_first =
    record { field = "number"; order = sort_desc }
    ∷ record { field = "name"; order = sort_asc }
    ∷ []

abbrev schema : String → ColumnType
schema name = if name == "number" then ColumnType.int else ColumnType.string

abbrev three : List ℕ
three = 7 ∷ 8 ∷ 9 ∷ []

paginate_pages_example :
    (first_pages three 2 2 ≡ some three)
    × ((from : ℕ)
        → (page : List ℕ) × (paginate three (pos from) (pos 2) ≡ some page) × (length page ≤ 2))
paginate_pages_example = paginate_pages three 2 2 (omega arith) (omega arith)

paginate-none_iff_example :
    (paginate three (negsuc 0) (pos 2) ≡ none) ↔ (ltb_ℤ (negsuc 0) (pos 0) ≡ true)
paginate-none_iff_example = paginate-none_iff three (negsuc 0) (pos 2)
