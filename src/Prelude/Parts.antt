-- ===== src/Prelude/Parts.antt =====
-- The parts of a text that is split, as a list.
use Prim.Native.String.{String, ◌++◌}
use mathlib.Core.List.{List, [], ◌∷◌}

abbrev pub single : String → List String
single part = part ∷ []

abbrev pub next_part : List String → List String
next_part parts = "" ∷ parts

abbrev pub prepend : String → List String → List String
prepend c [] = c ∷ []
prepend c (part ∷ parts) = (c ++ part) ∷ parts

-- strings.Join, with its arguments swapped
unfoldable pub join_with : String → List String → String
join_with sep [] = ""
join_with sep (part ∷ []) = part
join_with sep (part ∷ (next ∷ parts)) = part ++ (sep ++ join_with sep (next ∷ parts))
