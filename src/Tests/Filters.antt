-- ===== src/Tests/Filters.antt =====
-- A filter on a row.
use dalikamata.Prelude.{◌≡◌, refl, true, none, some, [], ◌∷◌, ok, Option}
use dalikamata.Prelude.Int.{pos}
use dalikamata.Prelude.Dict.{lookup}
use dalikamata.Query.Value.{Filter}
use dalikamata.Query.Builders.{
  string_value, int_value, term_filter, range_filter, and_filter, not_filter,
}
use dalikamata.Query.Compare.{compare_field_value, cmp_ordered}
use dalikamata.Query.Match.{
  match_values, match_any_element, found_field, match_term, bound_holds, match_range, match_filter,
  match,
}
use dalikamata.Query.Semantics.{meaning}
use dalikamata.Query.Semantics.Sound.{match-denote}
use dalikamata.Query.Semantics.Typed.{well_typed, match-eq-meaning}
use dalikamata.Tests.World.{numbers, first_row, second_row}

abbrev wanted : Option Filter
wanted = some (
    and_filter (
      term_filter "teams" (string_value "blue")
      ∷ range_filter "number"
          (record { gt = none; gte = some (int_value (pos 3)); lt = none; lte = none })
      ∷ not_filter (term_filter "name" (string_value "web") ∷ [])
      ∷ []))

match-denote_example : meaning wanted first_row ≡ true
unfolding match match_filter match_term match_range match_values match_any_element found_field
    bound_holds compare_field_value cmp_ordered lookup term_filter range_filter and_filter
    not_filter
match-denote_example = match-denote wanted first_row true refl

match-eq-meaning_example : match wanted second_row ≡ ok (meaning wanted second_row)
unfolding well_typed lookup term_filter range_filter and_filter not_filter
match-eq-meaning_example = match-eq-meaning wanted second_row refl
