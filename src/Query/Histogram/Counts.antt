-- ===== src/Query/Histogram/Counts.antt =====
-- internal/domain/query/aggregator.go: the counts of a histogram.
use dalikamata.Prelude.{
  ℕ, ◌+◌, ◌%◌, ◌^◌, ◌<◌, ◌≡◌, refl, true, List, [], ◌∷◌, arith, count, if◌then◌else◌, Bool-cases,
  inl, inr,
}
use dalikamata.Platform.{Platform, IsLawful}
use dalikamata.Query.Aggregation.{incr64}
use dalikamata.Query.Histogram.{same_key, Counts, count_at, set_count, bump_counts}

module _ ⦃go : Platform⦄ where
  open go use {Float, float_le}

  -- How often a key stands among the bounds, and how many values lie at or below it.
  abbrev pub multiplicity : Float → List Float → ℕ
  multiplicity b bounds = count (λ c. same_key c b) bounds

  abbrev pub at_most : Float → List Float → ℕ
  at_most b fs = count (λ f. float_le f b) fs

module _ ⦃go : Platform⦄ (laws : IsLawful) where
  open go use {Float, is_nan, float_lt, float_le, float_add, float_of_int}

  same_key-sym : (a b : Float) → same_key a b ≡ same_key b a
  unfolding same_key
  same_key-sym a b = ground arith

  same_key_trans : (a b c : Float) → same_key a b ≡ true → same_key b c ≡ true → same_key a c ≡ true
  unfolding same_key
  same_key_trans a b c h k = ground (arith, laws.float_trans a b c, laws.float_trans c b a)

  le-same_key : (f a b : Float) → same_key a b ≡ true → float_le f a ≡ float_le f b
  unfolding same_key
  le-same_key f a b h = ground (
    arith,
    laws.float_le_iff f a,
    laws.float_le_iff f b,
    laws.float_trans f a b,
    laws.float_trans f b a,
  )

  pub count_at-set :
      (b c : Float) (n : ℕ) (m : Counts)
      → count_at b (set_count c n m) ≡ (if same_key c b then n else count_at b m)
  unfolding count_at set_count
  count_at-set b c n [] = refl
  count_at-set b c n ((j, k) ∷ m) = elim (Bool-cases (same_key j c)) [
    | inl same ↦
        rw same (ground (arith, same_key-sym j c, same_key_trans c j b, same_key_trans j c b))
    | inr other ↦ rw other (
        ground
          (arith, count_at-set b c n m, same_key-sym c b, same_key-sym j b, same_key_trans j b c))
  ]

  count_at-same_key : (a b : Float) (m : Counts) → same_key a b ≡ true → count_at a m ≡ count_at b m
  unfolding count_at
  count_at-same_key a b [] h = refl
  count_at-same_key a b ((j, k) ∷ m) h = ground (
    arith,
    count_at-same_key a b m h,
    same_key_trans j a b,
    same_key_trans j b a,
    same_key-sym a b,
  )

  pub count_at-bump :
      (f b : Float) (bounds : List Float) (m : Counts)
      → count_at b m < 2 ^ 64
      → count_at b (bump_counts f bounds m)
        ≡ (count_at b m + (if float_le f b then multiplicity b bounds else 0)) % 2 ^ 64
  unfolding bump_counts
  count_at-bump f b [] m h = ground arith
  count_at-bump f b (c ∷ cs) m h =
      let next : Counts = if float_le f c then set_count c (incr64 (count_at c m)) m else m in
      elim (Bool-cases (float_le f c)) [
        | inl below ↦ rw below (
            ground (
              arith,
              count_at-bump f b cs (set_count c (incr64 (count_at c m)) m),
              count_at-set b c (incr64 (count_at c m)) m,
              count_at-same_key c b m,
              le-same_key f c b,
            ))
        | inr above ↦ rw above (ground (arith, count_at-bump f b cs m h, le-same_key f c b))
      ]
