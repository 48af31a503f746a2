-- ===== src/Ascii/Classes.antt =====
-- core/lbu/ascii.h: how the character classes and conversions relate, over all bytes.
use lbu.Common.{
  ℕ, ◌+◌, ◌-◌, ◌<◌, ◌≡◌, true, false, not, ◌&&◌, ◌||◌, ltb, ◌==◌, if◌then◌else◌, arith,
}
use lbu.Ascii.{
  char_le, in_range, is_ascii, is_cntrl, is_print, is_space, is_blank, is_graph, is_upper, is_lower,
  is_alpha, is_digit, is_alnum, is_punct, is_hexdigit, hexdigit_value, to_lower, to_upper,
}

-- How the classes of one character relate.
pub record Classes (c : ℕ) : Type 0 where
  pub control : is_cntrl c ≡ not (is_print c)
  pub printable : is_print c ≡ (c == 0x20 || is_alpha c || is_digit c || is_punct c)
  pub not_space : c == 0x20 && is_graph c ≡ false
  pub letter_not_digit : is_alpha c && is_digit c ≡ false
  pub punctuation : is_punct c && is_alnum c ≡ false
  pub one_case : is_upper c && is_lower c ≡ false
  pub hexadecimal : is_hexdigit c && not (is_alnum c) ≡ false
  pub blank : is_blank c && not (is_space c) ≡ false
  pub above : is_ascii c || is_cntrl c ≡ true

control_lem : (c : ℕ) → c < 256 → is_cntrl c ≡ not (is_print c)
unfolding is_cntrl is_print is_alpha is_digit is_punct is_graph is_alnum is_upper is_lower
    is_hexdigit is_blank is_space is_ascii in_range char_le
control_lem c h = ground arith

printable_lem :
    (c : ℕ) → c < 256 → is_print c ≡ (c == 0x20 || is_alpha c || is_digit c || is_punct c)
unfolding is_cntrl is_print is_alpha is_digit is_punct is_graph is_alnum is_upper is_lower
    is_hexdigit is_blank is_space is_ascii in_range char_le
printable_lem c h = ground arith

not_space_lem : (c : ℕ) → c < 256 → c == 0x20 && is_graph c ≡ false
unfolding is_cntrl is_print is_alpha is_digit is_punct is_graph is_alnum is_upper is_lower
    is_hexdigit is_blank is_space is_ascii in_range char_le
not_space_lem c h = ground arith

letter_not_digit_lem : (c : ℕ) → c < 256 → is_alpha c && is_digit c ≡ false
unfolding is_cntrl is_print is_alpha is_digit is_punct is_graph is_alnum is_upper is_lower
    is_hexdigit is_blank is_space is_ascii in_range char_le
letter_not_digit_lem c h = ground arith

punctuation_lem : (c : ℕ) → c < 256 → is_punct c && is_alnum c ≡ false
unfolding is_cntrl is_print is_alpha is_digit is_punct is_graph is_alnum is_upper is_lower
    is_hexdigit is_blank is_space is_ascii in_range char_le
punctuation_lem c h = ground arith

one_case_lem : (c : ℕ) → c < 256 → is_upper c && is_lower c ≡ false
unfolding is_cntrl is_print is_alpha is_digit is_punct is_graph is_alnum is_upper is_lower
    is_hexdigit is_blank is_space is_ascii in_range char_le
one_case_lem c h = ground arith

hexadecimal_lem : (c : ℕ) → c < 256 → is_hexdigit c && not (is_alnum c) ≡ false
unfolding is_cntrl is_print is_alpha is_digit is_punct is_graph is_alnum is_upper is_lower
    is_hexdigit is_blank is_space is_ascii in_range char_le
hexadecimal_lem c h = ground arith

blank_lem : (c : ℕ) → c < 256 → is_blank c && not (is_space c) ≡ false
unfolding is_cntrl is_print is_alpha is_digit is_punct is_graph is_alnum is_upper is_lower
    is_hexdigit is_blank is_space is_ascii in_range char_le
blank_lem c h = ground arith

above_lem : (c : ℕ) → c < 256 → is_ascii c || is_cntrl c ≡ true
unfolding is_cntrl is_print is_alpha is_digit is_punct is_graph is_alnum is_upper is_lower
    is_hexdigit is_blank is_space is_ascii in_range char_le
above_lem c h = ground arith

-- Over all bytes: a character is either a control character or printable; a printable one is the
-- space, a letter, a digit or punctuation, and no two of these; a letter is a capital or small, and
-- not both; a hexadecimal digit is alphanumeric; blanks are spaces; and a byte that is not ASCII is
-- a control character.
pub classes : (c : ℕ) → c < 256 → Classes c
classes c h = record {
  control = control_lem c h;
  printable = printable_lem c h;
  not_space = not_space_lem c h;
  letter_not_digit = letter_not_digit_lem c h;
  punctuation = punctuation_lem c h;
  one_case = one_case_lem c h;
  hexadecimal = hexadecimal_lem c h;
  blank = blank_lem c h;
  above = above_lem c h;
}

-- Over all bytes: the small letter of a character is small exactly if the character is a letter, and
-- the capital likewise; either conversion forgets the other and itself, so that it leaves what is
-- no letter as it is.
pub case_conversions :
    (c : ℕ)
    → c < 256
    → (is_lower (to_lower c) ≡ is_alpha c)
      × (is_upper (to_upper c) ≡ is_alpha c)
      × (to_lower (to_upper c) ≡ to_lower c)
      × (to_upper (to_lower c) ≡ to_upper c)
      × (to_lower (to_lower c) ≡ to_lower c)
      × (to_upper c ≡ (if is_alpha c then to_upper (to_lower c) else c))
unfolding is_alpha is_upper is_lower to_upper to_lower in_range char_le
case_conversions c h =
    (ground arith, ground arith, ground arith, ground arith, ground arith, ground arith)

-- The digit for a value below 16, in lower case.
abbrev pub hexdigit : ℕ → ℕ
hexdigit v = if ltb v 10 then 0x30 + v else 0x61 + (v - 10)

-- Over all bytes: the hexadecimal digits are the characters with a value below 16; such a digit is
-- up to case the digit for its value, and every other character has the value 255.
pub hexdigit_values :
    (c : ℕ)
    → c < 256
    → (is_hexdigit c ≡ ltb (hexdigit_value c) 16)
      × ((if is_hexdigit c then hexdigit (hexdigit_value c) else to_lower c) ≡ to_lower c)
      × ((if is_hexdigit c then 0xff else hexdigit_value c) ≡ 0xff)
unfolding is_hexdigit is_digit hexdigit_value to_lower in_range char_le
hexdigit_values c h = (ground arith, ground arith, ground arith)
