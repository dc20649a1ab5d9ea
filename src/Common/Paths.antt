-- ===== src/Common/Paths.antt =====
-- `std::path::Path` of a Unix path, as the list of its parts between slashes.
use Prim.Native.Nat.{ℕ}
use Prim.Native.String.{String}
use mathlib.Core.Bool.{Bool, true, false, ◌&&◌, ◌||◌}
use mathlib.Core.List.{List, [], ◌∷◌}
use cede_grid.Common.Tests.{nat_eq, if◌then◌else◌}
use cede_grid.Common.Lists.{all, any}
use cede_grid.Common.Text.{codes}

-- `split('/')` over code points, the part read so far in reverse order
split_from : List ℕ → List ℕ → List (List ℕ)
split_from part [] = part ∷ []
split_from part (c ∷ cs) =
    let next = split_from [] cs in
    let more = split_from (c ∷ part) cs in if nat_eq c b'/' then part ∷ next else more

pub parts : String → List (List ℕ)
unfolding split_from
parts s = split_from [] (codes s)

abbrev begins_with_slash : List ℕ → Bool
begins_with_slash [] = false
begins_with_slash (c ∷ cs) = nat_eq c b'/'

-- `Path::is_absolute`
unfoldable pub is_absolute : String → Bool
is_absolute s = begins_with_slash (codes s)

abbrev is_dot : List ℕ → Bool
is_dot (c ∷ []) = nat_eq c b'.'
is_dot _ = false

abbrev is_dot_dot : List ℕ → Bool
is_dot_dot (c ∷ d ∷ []) = nat_eq c b'.' && nat_eq d b'.'
is_dot_dot _ = false

abbrev is_nothing : List ℕ → Bool
is_nothing [] = true
is_nothing _ = false

-- an absolute path that equals `/`: its parts are empty or `.`
unfoldable pub is_root : String → Bool
unfolding parts
is_root s = is_absolute s && all (λ p. is_nothing p || is_dot p) (parts s)

-- some component is `..`
unfoldable pub has_parent_dir : String → Bool
unfolding parts
has_parent_dir s = any is_dot_dot (parts s)

-- some part of the text is `.` or `..`
unfoldable pub has_dot_part : String → Bool
unfolding parts
has_dot_part s = any (λ p. is_dot p || is_dot_dot p) (parts s)
