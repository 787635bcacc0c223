-- ===== src/Query/OwnerKey.antt =====
-- internal/domain/query/owner.go: the key of an owner, and how it is split.
use Prim.Native.Char.{code}
use Prim.Native.String.append
use Prim.Native.String.{[], ◌∷◌, ◌++◌}
use dalikamata.Prelude.{
  String, ◌≡◌, refl, Bool, false, ◌||◌, Option, none, some, arith, eqb, if◌then◌else◌, Result, ok,
  err, is_ok,
}
use dalikamata.Prelude.Texts.{concat}

abbrev pub owner_key_sep : String
owner_key_sep = "|"

unfoldable pub owner_key : String → String → String
owner_key team component = concat team (concat owner_key_sep component)

-- What is before and after the first separator; 124 is its code.
abbrev with_first : String → Option (String × String) → Option (String × String)
with_first c none = none
with_first c (some (before, after)) = some (c ++ before, after)

unfoldable pub cut_sep : String → Option (String × String)
cut_sep [] = none
cut_sep (c ∷ s) =
    let rest = cut_sep s in if eqb (code c) 124 then some ("", s) else with_first (c ∷ []) rest

abbrev or_missing : String → Option (String × String) → Result String (String × String)
or_missing key none = err key
or_missing key (some parts) = ok parts

-- The error keeps the key that has no separator.
unfoldable pub split_owner_key : String → Result String (String × String)
split_owner_key key = or_missing key (cut_sep key)

abbrev pub has_sep : String → Bool
has_sep [] = false
has_sep (c ∷ s) = eqb (code c) 124 || has_sep s

cut_sep-sep : (component : String) → cut_sep (owner_key_sep ++ component) ≡ some ("", component)
unfolding cut_sep
cut_sep-sep component = rw (append.cons "|" "" component, append.nil component) refl

cut_sep-key :
    (team component : String)
    → has_sep team ≡ false
    → cut_sep (team ++ (owner_key_sep ++ component)) ≡ some (team, component)
unfolding cut_sep
cut_sep-key [] component h = rw (append.nil (owner_key_sep ++ component)) (cut_sep-sep component)
cut_sep-key (c ∷ s) component h =
    let other : eqb (code c) 124 ≡ false = ground arith in
    rw (append.cons c s (owner_key_sep ++ component), other, cut_sep-key s component (ground arith))
      (rw (append.cons c "" s, append.nil s) refl)

-- Splitting the key of a team without a separator gives the team and the component back.
pub split_owner_key-owner_key :
    (team component : String)
    → has_sep team ≡ false
    → split_owner_key (owner_key team component) ≡ ok (team, component)
unfolding split_owner_key owner_key
split_owner_key-owner_key team component h = rw (cut_sep-key team component h) refl

is_ok-or_missing : (key s : String) → is_ok (or_missing key (cut_sep s)) ≡ has_sep s
unfolding cut_sep
is_ok-or_missing key [] = refl
is_ok-or_missing key (c ∷ s) = ground (arith, is_ok-or_missing key s)

-- A key can be split exactly if it has a separator.
pub split_owner_key-ok : (key : String) → is_ok (split_owner_key key) ≡ has_sep key
unfolding split_owner_key
split_owner_key-ok key = is_ok-or_missing key key
