-- ===== src/Common/Text.antt =====
-- The tests that the source makes on texts.
use Prim.Native.Nat.{ℕ}
use Prim.Native.Char.{code}
use Prim.Native.String.{String}
use mathlib.Core.Bool.{Bool, true, false, ◌&&◌, ◌||◌}
use mathlib.Core.List.{List, [], ◌∷◌}
use cede_grid.Common.Tests.{leb, nat_eq}
use cede_grid.Common.Lists.{all, any}

-- The code points of a text.
abbrev pub codes : String → List ℕ
codes String.[] = []
codes (String.◌∷◌ c s) = code c ∷ codes s

-- `str::is_empty`
abbrev pub is_empty_text : String → Bool
is_empty_text String.[] = true
is_empty_text (String.◌∷◌ c s) = false

abbrev between : ℕ → ℕ → ℕ → Bool
between lo hi c = leb lo c && leb c hi

-- `char::is_whitespace`, the code points with the property White_Space
pub is_whitespace : ℕ → Bool
is_whitespace c =
    between 0x9 0xd c
    || nat_eq c 0x20
    || nat_eq c 0x85
    || nat_eq c 0xa0
    || nat_eq c 0x1680
    || between 0x2000 0x200a c
    || nat_eq c 0x2028
    || nat_eq c 0x2029
    || nat_eq c 0x202f
    || nat_eq c 0x205f
    || nat_eq c 0x3000

-- `s.trim().is_empty()`
unfoldable pub is_blank : String → Bool
unfolding is_whitespace
is_blank s = all is_whitespace (codes s)

-- `char::is_control`, the code points of the category Cc
pub is_control : ℕ → Bool
is_control c = leb c 0x1f || between 0x7f 0x9f c

-- `s.chars().any(char::is_control)`
unfoldable pub has_control : String → Bool
unfolding is_control
has_control s = any is_control (codes s)

-- `u8::is_ascii_alphanumeric`
abbrev pub is_ascii_alphanumeric : ℕ → Bool
is_ascii_alphanumeric c = between b'0' b'9' c || between b'A' b'Z' c || between b'a' b'z' c
