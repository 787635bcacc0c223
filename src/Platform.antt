-- ===== src/Platform.antt =====
-- What the program takes from Go's runtime and does not implement: `float64`, `time.Time`, and the
-- order in which a `range` over a map visits it. The fields are the operations that the source
-- calls; the laws that a theorem needs stand among its hypotheses.
use Prim.Native.String.{String}
use mathlib.Core.Bool.{Bool, true, false, not, ◌&&◌}
use mathlib.Core.Path.{◌≡◌}
use mathlib.Core.List.{List, Perm}
use dalikamata.Prelude.Int.{ℤ}

pub record Platform : Type 1 where
  -- float64: `<`, `+`, `/`, the conversion of an integer, and `fmt.Sprint`
  pub Float : Type 0
  pub float_lt : Float → Float → Bool
  pub is_nan : Float → Bool
  pub float_le : Float → Float → Bool
  pub float_add : Float → Float → Float
  pub float_div : Float → Float → Float
  pub float_of_int : ℤ → Float
  pub float_to_int : Float → ℤ
  pub sprint_float : Float → String
  -- `fmt.Sprint` of the float32 that converts to a float64
  pub sprint_float32 : Float → String
  -- time.Time: the zero value, Equal, Before, Sub(...).Seconds(), the three truncations by time.Date, Format,
  -- String and UnixMilli
  pub Time : Type 0
  pub time_zero : Time
  pub time_equal : Time → Time → Bool
  pub time_before : Time → Time → Bool
  pub time_sub_seconds : Time → Time → Float
  pub time_date_hour : Time → Time
  pub time_date_day : Time → Time
  pub time_date_month : Time → Time
  pub time_format : Time → String → String
  pub sprint_time : Time → String
  pub unix_milli : ℤ → Time
  -- `range` over a map: every entry once, in an order that is left open
  pub range_order : {A : Type 0} → List A → List A
  pub range_order-Perm : {A : Type 0} (xs : List A) → Perm (range_order xs) xs

-- The laws that IEEE 754 and the package time document: `<` on the values that are no NaN, `<=`
-- as its converse there (false of a NaN), and a time as a point on a line.
module _ ⦃go : Platform⦄ where
  open go use {Float, Time, float_lt, float_le, is_nan, time_equal, time_before}

  pub record IsLawful : Type 0 where
    pub float_asym : (a b : Float) → float_lt a b ≡ true → float_lt b a ≡ false
    pub float_trans :
        (a b c : Float)
        → is_nan b ≡ false
        → float_lt b a ≡ false
        → float_lt c b ≡ false
        → float_lt c a ≡ false
    pub float_le_iff :
        (a b : Float) → float_le a b ≡ (not (is_nan a) && not (is_nan b) && not (float_lt b a))
    pub time_asym : (a b : Time) → time_before a b ≡ true → time_before b a ≡ false
    pub time_trans :
        (a b c : Time) → time_before b a ≡ false → time_before c b ≡ false → time_before c a ≡ false
    pub time_equal_iff :
        (a b : Time) → time_equal a b ≡ (not (time_before a b) && not (time_before b a))
