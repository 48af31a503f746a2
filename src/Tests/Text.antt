-- ===== src/Tests/Text.antt =====
-- core/lbu/ascii.h at concrete texts and characters.
use lbu.Common.{
  ℕ, ◌+◌, ◌≤◌, ◌≡◌, ◌-◌, ◌^◌, List, [], ◌∷◌, arith, refl, some, true, length, if◌then◌else◌,
}
use lbu.Ascii.{is_digit}
use lbu.Common.Words.{add_word, sub_word, mul_word}
use lbu.Math.{abs}
use lbu.Ascii.Decimal.{
  overflow, stored, negated, after_sign, scan, accept, reject, from_decimal, decimal, max_data_size,
}
use lbu.Ascii.Parse.{is_minimum, outcome, read_decimal, from_decimal-read_decimal}
use lbu.Ascii.RoundTrip.{from_decimal-decimal}
use lbu.Ascii.Fits.{decimal_fits}

abbrev m : ℕ
m = 2 ^ 32

-- "-42"
abbrev minus_42 : List ℕ
minus_42 = 0x2d ∷ 0x34 ∷ 0x32 ∷ []

from_decimal-read_decimal_example :
    from_decimal m true reject reject (some minus_42)
    ≡ outcome m true (read_decimal m true reject reject (some minus_42))
from_decimal-read_decimal_example =
    from_decimal-read_decimal m true reject reject (some minus_42) (omega arith) refl
      (omega arith, (omega arith, (omega arith, tt))) (λ _. refl)

from_decimal-decimal_example :
    from_decimal m true accept reject (some (decimal m true (m - 42)))
    ≡ (if is_minimum m true (m - 42) then overflow else stored (m - 42))
from_decimal-decimal_example =
    from_decimal-decimal m true accept reject (m - 42) (omega arith) refl (omega arith)

decimal_fits_example :
    (size : ℕ) × (max_data_size m true ≡ some size) × (length (decimal m true (m - 42)) + 1 ≤ size)
decimal_fits_example = decimal_fits m true (m - 42) (omega arith) (omega arith)

-- What the reader stores for "-42".
minus_42_read : from_decimal m true reject reject (some minus_42) ≡ stored (m - 42)
unfolding from_decimal after_sign negated scan is_digit abs add_word sub_word mul_word
minus_42_read = refl
