-- ===== src/Tests/World.antt =====
-- A platform whose floats and times are natural numbers, whose maps keep their order, and some
-- entities.
use mathlib.Core.List.Perm
use dalikamata.Prelude.{ℕ, ◌+◌, ◌-◌, ◌*◌, ◌/◌, false, eqb, ltb, leb, List, [], ◌∷◌, arith}
use dalikamata.Prelude.Int.{pos, pos_part}
use dalikamata.Prelude.Texts.{sprint_int}
use dalikamata.Query.Value.{Any, Fields}
use dalikamata.Platform.{Platform, IsLawful}

instance abbrev pub numbers : Platform
numbers = record {
  Float = ℕ;
  float_lt = ltb;
  is_nan = λ _. false;
  float_le = leb;
  float_add = λ a b. a + b;
  float_div = λ a b. a / b;
  float_of_int = pos_part;
  float_to_int = pos;
  sprint_float = λ n. sprint_int (pos n);
  sprint_float32 = λ n. sprint_int (pos n);
  Time = ℕ;
  time_zero = 0;
  time_equal = eqb;
  time_before = ltb;
  time_sub_seconds = λ a b. a - b;
  time_date_hour = λ t. t / 3600 * 3600;
  time_date_day = λ t. t / 86400 * 86400;
  time_date_month = λ t. t / 2592000 * 2592000;
  time_format = λ t layout. sprint_int (pos t);
  sprint_time = λ t. sprint_int (pos t);
  unix_milli = λ n. pos_part n / 1000;
  range_order = λ xs. xs;
  range_order-Perm = λ xs. Perm.refl xs;
}

pub numbers-IsLawful : IsLawful ⦃go = numbers⦄
numbers-IsLawful = record {
  float_asym = λ a b h. ground arith;
  float_trans = λ a b c n h k. ground arith;
  float_le_iff = λ a b. ground arith;
  time_asym = λ a b h. ground arith;
  time_trans = λ a b c h k. ground arith;
  time_equal_iff = λ a b. ground arith;
}

-- Two rows of a query.
abbrev pub first_row : Fields
first_row =
    ("name", Any.string "api")
    ∷ ("number", Any.int (pos 3))
    ∷ ("started_at", Any.time 7200)
    ∷ ("duration", Any.float64 40)
    ∷ ("teams", Any.strings ("red" ∷ "blue" ∷ []))
    ∷ []

abbrev pub second_row : Fields
second_row =
    ("name", Any.string "web")
    ∷ ("number", Any.int (pos 2))
    ∷ ("started_at", Any.time 7300)
    ∷ ("duration", Any.float64 90)
    ∷ ("teams", Any.strings ("red" ∷ []))
    ∷ []

abbrev pub rows : List Fields
rows = first_row ∷ second_row ∷ []

abbrev pub same : Fields → Fields
same row = row
