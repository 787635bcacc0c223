-- ===== src/Prelude/Paths.antt =====
-- Go's package `path`: Clean, Dir, Base and Join on slash-separated paths.
use Prim.Native.String.{String, ◌++◌}
use mathlib.Core.Bool.{Bool, ◌||◌}
use mathlib.Core.Option.{none, some}
use mathlib.Core.List.{List, [], ◌∷◌, reverse, filter_map}
use text.Mathlib.Text.{◌==◌}
use dalikamata.Prelude.Tests.{if◌then◌else◌}
use dalikamata.Prelude.Parts.{join_with}
use dalikamata.Prelude.Cuts.{slash, is_rooted, split_at, split_path, trim_right}

-- One segment after those that are kept, which stand in reverse.
abbrev clean_up : Bool → List String → List String
clean_up rooted [] = if rooted then [] else ".." ∷ []
clean_up rooted (last ∷ kept) = if last == ".." then ".." ∷ (last ∷ kept) else kept

clean_segments : Bool → List String → List String → List String
clean_segments rooted kept [] = reverse kept
clean_segments rooted kept (segment ∷ segments) =
    if segment == "" || segment == "."
    then clean_segments rooted kept segments
    else if segment == ".."
    then clean_segments rooted (clean_up rooted kept) segments
    else clean_segments rooted (segment ∷ kept) segments

abbrev or_dot : String → String
or_dot s = if s == "" then "." else s

-- path.Clean
unfoldable pub clean : String → String
unfolding clean_segments
clean p =
    let rooted = is_rooted p in
    let joined = join_with "/" (clean_segments rooted [] (split_at slash p)) in
    or_dot (if rooted then "/" ++ joined else joined)

-- path.Dir
unfoldable pub path_dir : String → String
path_dir p = clean (split_path p).0

-- path.Base
unfoldable pub path_base : String → String
path_base p =
    let last = (split_path (trim_right slash p)).1 in
    if p == "" then "." else if last == "" then "/" else last

abbrev non_empty : List String → List String
non_empty = filter_map λ s. if s == "" then none else some s

-- path.Join
unfoldable pub path_join : List String → String
path_join parts =
    let joined = join_with "/" (non_empty parts) in if joined == "" then "" else clean joined
