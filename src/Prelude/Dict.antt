-- ===== src/Prelude/Dict.antt =====
-- Go's `map[string]V` as an association list. An assignment replaces the entry or appends one;
-- Go leaves the order of a `range` open, so the code that ranges over a map takes its order from
-- the platform.
use Prim.Native.String.{String}
use mathlib.Core.Path.{◌≡◌, refl, subst₂}
use mathlib.Core.Logic.{inl, inr}
use mathlib.Core.Bool.{Bool, false}
use mathlib.Core.Option.{Option, none, some}
use mathlib.Core.List.{List, [], ◌∷◌, map}
use native.Mathlib.Omega.{arith}
use text.Mathlib.Text.{◌==◌}
use text.Mathlib.TextEquality.{eq_iff}
use dalikamata.Prelude.Tests.{if◌then◌else◌, Bool-cases}
use dalikamata.Prelude.Lists.{any, All}

abbrev pub Dict {ℓ} : Type ℓ → Type ℓ
Dict V = List (String × V)

-- `slices.Contains`, and a `map[string]bool` of the texts that were seen.
abbrev pub contains : List String → String → Bool
contains xs s = any (λ x. x == s) xs

-- No text stands twice.
abbrev pub Distinct : List String → Type 0
Distinct [] = Unit
Distinct (x ∷ xs) = (contains xs x ≡ false) × Distinct xs

module _ {ℓ} {V : Type ℓ} where
  abbrev pub keys : Dict V → List String
  keys = map (λ e. e.0)

  abbrev pub values : Dict V → List V
  values = map (λ e. e.1)

  -- m[k], as `v, ok`
  unfoldable pub lookup : String → Dict V → Option V
  lookup key ((name, value) ∷ rest) = if name == key then some value else lookup key rest
  lookup key [] = none

  -- m[k] = v
  unfoldable pub insert : String → V → Dict V → Dict V
  insert key value ((name, old) ∷ rest) =
      if name == key then (key, value) ∷ rest else (name, old) ∷ insert key value rest
  insert key value [] = (key, value) ∷ []

  -- delete(m, k)
  unfoldable pub delete : String → Dict V → Dict V
  delete k [] = []
  delete k ((j, w) ∷ m) = let rest = delete k m in if j == k then rest else (j, w) ∷ rest

  pub lookup-insert :
      (stored asked : String) (value : V) (entries : Dict V)
      → lookup asked (insert stored value entries)
        ≡ (if stored == asked then some value else lookup asked entries)
  unfolding lookup insert
  lookup-insert stored asked value ((name, old) ∷ rest) = ground (
    arith,
    lookup-insert stored asked value rest,
    eq_iff name stored,
    eq_iff name asked,
    eq_iff stored asked,
  )
  lookup-insert stored asked value [] = refl

  pub lookup-delete :
      (k j : String) (m : Dict V) → lookup j (delete k m) ≡ (if k == j then none else lookup j m)
  unfolding lookup delete
  lookup-delete k j [] = ground arith
  lookup-delete k j ((i, w) ∷ m) =
      ground (arith, eq_iff k j, eq_iff i k, eq_iff i j, lookup-delete k j m)

  contains-keys-insert :
      (k j : String) (v : V) (m : Dict V)
      → contains (keys m) j ≡ false
      → (k == j) ≡ false
      → contains (keys (insert k v m)) j ≡ false
  unfolding insert
  contains-keys-insert k j v [] h n = ground arith
  contains-keys-insert k j v ((i, w) ∷ m) h n =
      ground (arith, eq_iff i k, contains-keys-insert k j v m)

  -- An assignment keeps the keys distinct.
  pub insert-Distinct :
      (k : String) (v : V) (m : Dict V) → Distinct (keys m) → Distinct (keys (insert k v m))
  unfolding insert
  insert-Distinct k v [] h = (refl, tt)
  insert-Distinct k v ((i, w) ∷ m) h =
      ground
        (arith, eq_iff i k, eq_iff k i, contains-keys-insert k i v m, insert-Distinct k v m h.1)

  -- Assigning the same value twice is assigning it once.
  pub insert-insert_self :
      (k : String) (v : V) (m : Dict V) → insert k v (insert k v m) ≡ insert k v m
  unfolding insert
  insert-insert_self k v [] = ground (arith, eq_iff k k)
  insert-insert_self k v ((i, w) ∷ m) =
      ground (arith, eq_iff k k, eq_iff i k, insert-insert_self k v m)

  -- Assigning what is stored changes nothing.
  pub insert-lookup_self :
      (k : String) (v : V) (m : Dict V) → lookup k m ≡ some v → insert k v m ≡ m
  unfolding insert lookup
  insert-lookup_self k v [] h = cc
  insert-lookup_self k v ((i, w) ∷ m) h = ground (arith, eq_iff i k, insert-lookup_self k v m)

module _ {ℓ κ} {V : Type ℓ} (Q : String × V → Type κ) where
  -- A property of every entry, after an assignment and at a lookup.
  pub All-insert : (k : String) (v : V) (m : Dict V) → Q (k, v) → All Q m → All Q (insert k v m)
  unfolding insert
  All-insert k v [] q h = (q, tt)
  All-insert k v ((j, w) ∷ m) q h = elim (Bool-cases (j == k)) [
    | inl same ↦ rw same (q, h.1)
    | inr other ↦ rw other (h.0, All-insert k v m q h.1)
  ]

  pub All-lookup : (k : String) (v : V) (m : Dict V) → lookup k m ≡ some v → All Q m → Q (k, v)
  unfolding lookup
  All-lookup k v [] e h = cc
  All-lookup k v ((j, w) ∷ m) e h = elim (Bool-cases (j == k)) [
    | inl same ↦
        let named : j ≡ k = (eq_iff j k).0 same in
        let stored : w ≡ v = ground arith in subst₂ (λ x y. Q (x, y)) named stored h.0
    | inr other ↦ All-lookup k v m (ground arith) h.1
  ]

pub ruleset dict_laws = (lookup-insert, lookup-delete)
