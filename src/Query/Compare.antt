-- ===== src/Query/Compare.antt =====
-- internal/domain/query/evaluator.go: the comparisons. Go's -1, 0 and 1 are `lt`, `eq` and `gt`.
use Prim.Native.Nat.{Ordering}
use dalikamata.Prelude.{String, Bool, true, false, if◌then◌else◌, Result, ok, err, ◌>>=◌}
use dalikamata.Prelude.Int.{ℤ, ltb_ℤ}
use dalikamata.Prelude.Texts.{str_lt}
use dalikamata.Platform.{Platform}
use dalikamata.Query.Value.{
  ValueKind, kind_string, kind_int, kind_float, kind_bool, kind_time, Error, not_a_string,
  not_an_integer, not_numeric, not_a_bool, not_a_time, unknown_value_kind, Value, Any,
}

unfoldable pub cmp_ordered {ℓ} : {A : Type ℓ} → (A → A → Bool) → A → A → Ordering
cmp_ordered less a b =
    if less a b then Ordering.lt else if less b a then Ordering.gt else Ordering.eq

-- false < true
unfoldable pub cmp_bool : Bool → Bool → Ordering
cmp_bool true true = Ordering.eq
cmp_bool false false = Ordering.eq
cmp_bool false true = Ordering.lt
cmp_bool true false = Ordering.gt

module _ ⦃go : Platform⦄ where
  open go use {Float, Time, float_lt, float_of_int, time_equal, time_before}

  unfoldable pub cmp_time : Time → Time → Ordering
  cmp_time a b =
      if time_equal a b then Ordering.eq else if time_before a b then Ordering.lt else Ordering.gt

  -- The type switches of compareFieldValue.
  abbrev pub as_string : Any → Result Error String
  as_string (Any.string s) = ok s
  as_string _ = err not_a_string

  abbrev pub as_int : Any → Result Error ℤ
  as_int (Any.int n) = ok n
  as_int (Any.int64 n) = ok n
  as_int _ = err not_an_integer

  abbrev pub as_float : Any → Result Error Float
  as_float (Any.float64 f) = ok f
  as_float (Any.float32 f) = ok f
  as_float (Any.int n) = ok (float_of_int n)
  as_float (Any.int64 n) = ok (float_of_int n)
  as_float _ = err not_numeric

  abbrev pub as_bool : Any → Result Error Bool
  as_bool (Any.bool b) = ok b
  as_bool _ = err not_a_bool

  abbrev pub as_time : Any → Result Error Time
  as_time (Any.time t) = ok t
  as_time _ = err not_a_time

  abbrev pub compare_as : ValueKind → Any → Value → Result Error Ordering
  compare_as kind_string a v = do s ← as_string a; ok (cmp_ordered str_lt s v.string)
  compare_as kind_int a v = do n ← as_int a; ok (cmp_ordered ltb_ℤ n v.int)
  compare_as kind_float a v = do f ← as_float a; ok (cmp_ordered float_lt f v.float)
  compare_as kind_bool a v = do b ← as_bool a; ok (cmp_bool b v.bool)
  compare_as kind_time a v = do t ← as_time a; ok (cmp_time t v.time)
  compare_as (ValueKind.unknown k) a v = err (unknown_value_kind k)

  unfoldable pub compare_field_value : Any → Value → Result Error Ordering
  compare_field_value a v = compare_as v.kind a v

  -- Values of different types, nil and lists count as equal.
  unfoldable pub compare_any : Any → Any → Ordering
  compare_any (Any.string a) (Any.string b) = cmp_ordered str_lt a b
  compare_any (Any.int a) (Any.int b) = cmp_ordered ltb_ℤ a b
  compare_any (Any.int64 a) (Any.int64 b) = cmp_ordered ltb_ℤ a b
  compare_any (Any.float64 a) (Any.float64 b) = cmp_ordered float_lt a b
  compare_any (Any.bool a) (Any.bool b) = cmp_bool a b
  compare_any (Any.time a) (Any.time b) = cmp_time a b
  compare_any _ _ = Ordering.eq
