-- ===== src/Ascii/Sign.antt =====
-- core/lbu/ascii.h: `integer::from_decimal` of an unsigned type, for a text with a minus sign.
use lbu.Common.{
  ℕ, ◌+◌, ◌-◌, ◌≤◌, ◌<◌, ◌≡◌, [], ◌∷◌, some, true, false, ltb, ◌==◌, arith, refl, ap, ◌∙◌,
}
use lbu.Common.Words.{add_word, sub_word, mul_word, mul_word_exact, add_word_exact}
use lbu.Math.{abs}
use lbu.Ascii.{is_digit}
use lbu.Ascii.Decimal.{Policy, stored, negated, scan, after_sign, from_decimal}
use lbu.Ascii.Scan.{is_digit_eq, scan-cons}
use native.Mathlib.Nat.{mod-eq_of_lt}

wraps : (m d : ℕ) → 0 < d → d < m → sub_word m 0 d ≡ m - d
unfolding sub_word
wraps m d pos l = mod-eq_of_lt {n = 0 + m - d} {m = m} (omega arith) ∙ omega arith

scan-end : (m top n : ℕ) → scan m top [] n ≡ some n
unfolding scan
scan-end m top n = refl

-- The limit is 0, and the subtraction of the digit from it wraps.
scan_digit : (m d : ℕ) → 20 ≤ m → 1 ≤ d → d ≤ 9 → scan m 0 ((0x30 + d) ∷ []) 0 ≡ some d
scan_digit m d h lo hi =
    let v : 0x30 + d - 0x30 ≡ d = omega arith in
    let digit : is_digit (0x30 + d) ≡ true = is_digit_eq (0x30 + d) (omega arith) ∙ ground arith in
    let shifted : mul_word m 0 10 ≡ 0 = mul_word_exact m 0 10 (omega arith) in
    let wrapped : ltb (m - d) 0 ≡ false = ground arith in
    let sum : add_word m 0 d ≡ d = add_word_exact m 0 d (omega arith) ∙ omega arith in
    scan-cons m 0 (0x30 + d) [] 0
    ∙ rw (digit, v, shifted, wraps m d (omega arith) (omega arith), wrapped, sum) (scan-end m 0 d)

after_minus :
    (m : ℕ) (lz nz : Policy) (d : ℕ)
    → 20 ≤ m
    → 1 ≤ d
    → d ≤ 9
    → after_sign m false lz nz true ((0x30 + d) ∷ []) ≡ stored (m - d)
unfolding after_sign negated abs
after_minus m lz nz d h lo hi =
    let digit : (0x30 + d == 0x30) ≡ false = ground arith in
    let positive : (d == 0) ≡ false = ground arith in
    rw (digit, scan_digit m d h lo hi, positive) (ap stored (wraps m d (omega arith) (omega arith)))

-- For an unsigned type with a modulus of at least 20, a text of a minus sign and one digit from 1
-- to 9 is not refused: the modulus less the digit is stored.
pub from_decimal_unsigned-minus :
    (m : ℕ) (lz nz : Policy) (d : ℕ)
    → 20 ≤ m
    → 1 ≤ d
    → d ≤ 9
    → from_decimal m false lz nz (some (0x2d ∷ (0x30 + d) ∷ [])) ≡ stored (m - d)
unfolding from_decimal
from_decimal_unsigned-minus m lz nz d h lo hi = after_minus m lz nz d h lo hi
