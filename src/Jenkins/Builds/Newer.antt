-- ===== src/Jenkins/Builds/Newer.antt =====
-- internal/ingest/jenkins/crawler.go: the cursor that follows a job's published builds.
use dalikamata.Prelude.{
  ◌≡◌, ◌≢◌, refl, true, ◌||◌, List, [], ◌∷◌, arith, filter, any, all, Bool-cases, inl, inr,
  if◌then◌else◌,
}
use dalikamata.Prelude.Int.{ℤ, pos, ltb_ℤ, leb_ℤ, eqb_ℤ}
use dalikamata.Jenkins.Api.{ApiBuild}
use dalikamata.Jenkins.Builds.{is_new, new_builds, max_from, max_published}

max_from-start : (m : ℤ) (bs : List ApiBuild) → leb_ℤ m (max_from m bs) ≡ true
max_from-start m [] = ground arith
max_from-start m (b ∷ bs) = ground (arith, max_from-start m bs, max_from-start b.number bs)

max_from-all : (m : ℤ) (bs : List ApiBuild) → all (λ b. leb_ℤ b.number (max_from m bs)) bs ≡ true
max_from-all m [] = refl
max_from-all m (b ∷ bs) =
    let start = if ltb_ℤ m b.number then b.number else m in
    let above : leb_ℤ b.number start ≡ true = ground arith in
    ground (arith, above, max_from-start start bs, max_from-all start bs)

max_from-any :
    (m : ℤ) (bs : List ApiBuild)
    → (eqb_ℤ m (max_from m bs) || any (λ b. eqb_ℤ b.number (max_from m bs)) bs) ≡ true
max_from-any m [] = ground arith
max_from-any m (b ∷ bs) =
    let start = if ltb_ℤ m b.number then b.number else m in
    let either : (eqb_ℤ m start || eqb_ℤ b.number start) ≡ true = ground arith in
    ground (arith, either, max_from-any start bs)

-- What was published is not new above its highest number, and nothing below the old cursor is.
nothing_above :
    (cursor m : ℤ) (bs : List ApiBuild)
    → all (λ b. leb_ℤ b.number m) (filter (is_new cursor) bs) ≡ true
    → ltb_ℤ cursor m ≡ true
    → filter (is_new m) bs ≡ []
nothing_above cursor m [] h lower = refl
nothing_above cursor m (b ∷ bs) h lower = elim (Bool-cases (is_new cursor b)) [
  | inl new ↦ ground (arith, nothing_above cursor m bs)
  | inr old ↦ ground (arith, nothing_above cursor m bs)
]

above_cursor :
    (cursor m : ℤ) (bs : List ApiBuild)
    → all (λ b. leb_ℤ b.number m) (filter (is_new cursor) bs) ≡ true
    → filter (is_new cursor) bs ≢ []
    → ltb_ℤ cursor m ≡ true
above_cursor cursor m [] h some_new = absurd (some_new refl)
above_cursor cursor m (b ∷ bs) h some_new = elim (Bool-cases (is_new cursor b)) [
  | inl new ↦ ground arith
  | inr old ↦ above_cursor cursor m bs (ground arith) (λ none_new. some_new (ground arith))
]

-- A job whose cursor is at least 0 and that has new builds gets a cursor above the old one: the
-- number of a new build, which no new build exceeds. With it the same builds have nothing new.
pub new_builds-max_published :
    (cursor : ℤ) (bs : List ApiBuild)
    → leb_ℤ (pos 0) cursor ≡ true
    → new_builds cursor bs ≢ []
    → let published = new_builds cursor bs in
      let top = max_published published in
      (ltb_ℤ cursor top ≡ true)
      × ((any (λ b. eqb_ℤ b.number top) published ≡ true)
          × ((all (λ b. leb_ℤ b.number top) published ≡ true) × (new_builds top bs ≡ [])))
unfolding new_builds max_published
new_builds-max_published cursor bs start some_new =
    let published = filter (is_new cursor) bs in
    let top = max_from (pos 0) published in
    let highest : all (λ b. leb_ℤ b.number top) published ≡ true = max_from-all (pos 0) published in
    let above : ltb_ℤ cursor top ≡ true = above_cursor cursor top bs highest some_new in
    (
      above,
      (
        ground (arith, max_from-any (pos 0) published),
        (highest, nothing_above cursor top bs highest above),
      ),
    )
