-- ===== src/Prelude/Texts.antt =====
-- The functions of Go's `strings`, `strconv` and `fmt` packages that the program uses.
use Prim.Native.Nat.{ℕ, zero, suc, ◌/◌, ◌%◌}
use Prim.Native.Char.{code}
use Prim.Native.String.{String, [], ◌∷◌, ◌++◌, compare}
use mathlib.Core.Bool.{Bool, true, ◌||◌, ◌&&◌}
use text.Mathlib.Text.{is_lt}
use dalikamata.Prelude.Tests.{eqb, ltb, leb, if◌then◌else◌}
use dalikamata.Prelude.Int.{ℤ, pos, negsuc}

-- `a < b` on strings: bytewise, which is the order of the code points.
abbrev pub str_lt : String → String → Bool
str_lt a b = is_lt (compare a b)

abbrev pub concat : String → String → String
concat s t = s ++ t

digit : ℕ → String
digit n =
    if eqb n 0
    then "0"
    else if eqb n 1
    then "1"
    else if eqb n 2
    then "2"
    else if eqb n 3
    then "3"
    else if eqb n 4
    then "4"
    else if eqb n 5
    then "5"
    else if eqb n 6
    then "6"
    else if eqb n 7
    then "7"
    else if eqb n 8
    then "8"
    else "9"

-- The fuel is the number itself, which has more digits than none.
unfoldable pub decimal_from : ℕ → ℕ → String
unfolding digit
decimal_from zero n = digit (n % 10)
decimal_from (suc fuel) n =
    let rest = decimal_from fuel (n / 10) in if ltb n 10 then digit n else rest ++ digit (n % 10)

-- strconv.Itoa, and `%d` and fmt.Sprint of an integer
unfoldable pub sprint_int : ℤ → String
unfolding decimal_from
sprint_int (pos n) = decimal_from n n
sprint_int (negsuc n) = "-" ++ decimal_from (suc n) (suc n)

-- unicode.IsSpace
abbrev is_space : ℕ → Bool
is_space n =
    leb 9 n && leb n 13
    || eqb n 32
    || eqb n 133
    || eqb n 160
    || eqb n 5760
    || leb 8192 n && leb n 8202
    || eqb n 8232
    || eqb n 8233
    || eqb n 8239
    || eqb n 8287
    || eqb n 12288

-- `strings.TrimSpace(s) == ""`
unfoldable pub is_blank : String → Bool
is_blank [] = true
is_blank (c ∷ s) = is_space (code c) && is_blank s

-- strings.TrimSpace
unfoldable pub trim_space : String → String
trim_space [] = ""
trim_space (c ∷ s) = let rest = trim_space s in if is_space (code c) then rest else c ∷ trim_end s
  where
    trim_end : String → String
    trim_end [] = ""
    trim_end (d ∷ t) = let rest = trim_end t in if is_blank (d ∷ t) then "" else d ∷ rest
