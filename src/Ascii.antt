-- ===== src/Ascii.antt =====
-- core/lbu/ascii.h: character classes, and decimal text of integers.
pub mod Decimal
pub mod Scan
pub mod Parse
pub mod RoundTrip
pub mod Fits
pub mod Sign
pub mod Classes
use lbu.Common.{
  ℕ, zero, suc, ◌+◌, ◌-◌, ◌%◌, ◌/◌, List, [], ◌∷◌, Bool, true, false, not, ◌&&◌, ◌||◌, ltb, leb,
  ◌==◌, if◌then◌else◌,
}

-- A `char` is given by its byte. It is signed where this library is built (x86-64), so the bytes
-- from 0x80 on are negative and below all others.
char_le : ℕ → ℕ → Bool
char_le a b = leb ((a + 128) % 256) ((b + 128) % 256)

in_range : ℕ → ℕ → ℕ → Bool
in_range lo hi c = char_le lo c && char_le c hi

unfoldable pub is_ascii : ℕ → Bool
unfolding in_range char_le
is_ascii c = in_range 0x00 0x7f c

unfoldable pub is_cntrl : ℕ → Bool
unfolding char_le
is_cntrl c = char_le c 0x1f || c == 0x7f

unfoldable pub is_print : ℕ → Bool
unfolding in_range char_le
is_print c = in_range 0x20 0x7e c

unfoldable pub is_space : ℕ → Bool
unfolding in_range char_le
is_space c = c == 0x20 || in_range 0x09 0x0d c

unfoldable pub is_blank : ℕ → Bool
is_blank c = c == 0x20 || c == 0x09

unfoldable pub is_graph : ℕ → Bool
unfolding in_range char_le
is_graph c = in_range 0x21 0x7e c

unfoldable pub is_upper : ℕ → Bool
unfolding in_range char_le
is_upper c = in_range 0x41 0x5a c

unfoldable pub is_lower : ℕ → Bool
unfolding in_range char_le
is_lower c = in_range 0x61 0x7a c

unfoldable pub is_alpha : ℕ → Bool
unfolding is_upper is_lower
is_alpha c = is_upper c || is_lower c

unfoldable pub is_digit : ℕ → Bool
unfolding in_range char_le
is_digit c = in_range 0x30 0x39 c

unfoldable pub is_alnum : ℕ → Bool
unfolding is_alpha is_digit
is_alnum c = is_alpha c || is_digit c

unfoldable pub is_punct : ℕ → Bool
unfolding is_graph is_alnum
is_punct c = is_graph c && not (is_alnum c)

unfoldable pub is_hexdigit : ℕ → Bool
unfolding is_digit in_range char_le
is_hexdigit c = is_digit c || in_range 0x41 0x46 c || in_range 0x61 0x66 c

-- The last case is behind `assert(false)`.
unfoldable pub hexdigit_value : ℕ → ℕ
unfolding in_range char_le
hexdigit_value c =
    if in_range 0x30 0x39 c
    then c - 0x30
    else if in_range 0x41 0x46 c
    then c - 0x41 + 0x0a
    else if in_range 0x61 0x66 c
    then c - 0x61 + 0x0a
    else 0xff

unfoldable pub to_lower : ℕ → ℕ
unfolding in_range char_le
to_lower c = if in_range 0x41 0x5a c then c + 0x20 else c

unfoldable pub to_upper : ℕ → ℕ
unfolding in_range char_le
to_upper c = if in_range 0x61 0x7a c then c - 0x20 else c
