-- ===== src/Prelude/Cuts.antt =====
-- Go's `strings` functions that look into a text, character by character.
use Prim.Native.Nat.{ℕ}
use Prim.Native.Char.{code}
use Prim.Native.String.{String, [], ◌∷◌, ◌++◌}
use mathlib.Core.Bool.{Bool, true, false, not, ◌||◌, ◌&&◌}
use mathlib.Core.Option.{Option, none, some}
use mathlib.Core.List.{List}
use text.Mathlib.Text.{◌==◌}
use dalikamata.Prelude.Tests.{eqb, if◌then◌else◌}
use dalikamata.Prelude.Parts.{single, next_part, prepend}

abbrev is_some_text : Option String → Bool
is_some_text none = false
is_some_text (some s) = true

-- strings.CutPrefix, with its arguments swapped; `none` if it does not start so
unfoldable pub cut_prefix : String → String → Option String
cut_prefix [] s = some s
cut_prefix (p ∷ ps) [] = none
cut_prefix (p ∷ ps) (c ∷ s) =
    let rest = cut_prefix ps s in if eqb (code p) (code c) then rest else none

-- strings.Contains
unfoldable pub contains_text : String → String → Bool
contains_text part [] = part == ""
contains_text part (c ∷ s) = is_some_text (cut_prefix part (c ∷ s)) || contains_text part s

-- strings.TrimSuffix
unfoldable pub trim_suffix : String → String → String
trim_suffix suffix [] = ""
trim_suffix suffix (c ∷ s) =
    let rest = trim_suffix suffix s in if (c ∷ s) == suffix then "" else c ∷ rest

-- strings.Split at a character, which is given by its code
unfoldable pub split_at : ℕ → String → List String
split_at n [] = single ""
split_at n (c ∷ s) =
    let rest = split_at n s in if eqb (code c) n then next_part rest else prepend (c ∷ []) rest

-- strings.Replace of the first character with that code
unfoldable pub replace_first : ℕ → String → String → String
replace_first n by [] = ""
replace_first n by (c ∷ s) =
    let rest = replace_first n by s in if eqb (code c) n then by ++ s else c ∷ rest

-- strings.Trim of one character, on the left and on the right
unfoldable pub trim_left : ℕ → String → String
trim_left n [] = ""
trim_left n (c ∷ s) = let rest = trim_left n s in if eqb (code c) n then rest else c ∷ s

unfoldable pub trim_right : ℕ → String → String
trim_right n [] = ""
trim_right n (c ∷ s) =
    let rest = trim_right n s in if rest == "" && eqb (code c) n then "" else c ∷ rest

-- The code of '/'.
abbrev pub slash : ℕ
slash = 47

abbrev pub is_rooted : String → Bool
is_rooted [] = false
is_rooted (c ∷ s) = eqb (code c) slash

-- What stands up to the last slash, and after it.
unfoldable pub split_path : String → String × String
split_path [] = ("", "")
split_path (c ∷ s) =
    let rest = split_path s in
    if rest.0 == "" && not (eqb (code c) slash) then ("", (c ∷ rest.1)) else ((c ∷ rest.0), rest.1)

abbrev cut_before : Option (String × String) → Bool → String → String → Option (String × String)
cut_before (some (before, after)) found c s = some ((c ++ before), after)
cut_before none found c s = if found then some ("", s) else none

-- A text cut at the last character with that code, as by strings.LastIndex; `none` without one
unfoldable pub cut_last : ℕ → String → Option (String × String)
cut_last n [] = none
cut_last n (c ∷ s) = cut_before (cut_last n s) (eqb (code c) n) (c ∷ "") s
