-- ===== src/Math.antt =====
-- core/lbu/math.h: integer logarithms, rounding division, powers of two.
pub mod Log
pub mod Pow2
pub mod Power
use Prim.Native.Nat.{bit_and}
use lbu.Common.Words.{add_word, mul_word}
use lbu.Common.{
  ℕ, zero, suc, ◌+◌, ◌-◌, ◌*◌, ◌/◌, ◌%◌, ◌^◌, Option, none, some, Bool, true, false, ltb, leb, max,
  ◌&&◌, ◌==◌, if◌then◌else◌,
}

-- `while( val > 0 ) { ++result; val /= base; }`; `none` means that the fuel ran out, as it does for
-- the bases 0 and 1, which the assertion rules out.
unfoldable pub ilog_loop : ℕ → ℕ → ℕ → ℕ → Option ℕ
ilog_loop zero base val result = none
ilog_loop (suc fuel) base val result =
    let rest = ilog_loop fuel base (val / base) (result + 1) in
    if ltb 0 val then rest else some result

-- `val` rounds are enough, since each divides by two at least.
unfoldable pub ilog_floor : ℕ → ℕ → Option ℕ
unfolding ilog_loop
ilog_floor base val = ilog_loop val base (val / base) 0

unfoldable pub ilog_ceil : ℕ → ℕ → Option ℕ
unfolding ilog_floor
ilog_ceil base val =
    if val == 1
    then some 0
    else elim (ilog_floor base (val - 1)) [ none ↦ none | some r ↦ some (r + 1) ]

unfoldable pub ilog2_floor : ℕ → Option ℕ
unfolding ilog_floor
ilog2_floor val = ilog_floor 2 val

unfoldable pub ilog2_ceil : ℕ → Option ℕ
unfolding ilog2_floor
ilog2_ceil val =
    if val == 1
    then some 0
    else elim (ilog2_floor (val - 1)) [ none ↦ none | some r ↦ some (r + 1) ]

-- The instances for an unsigned type, whose quotients and remainders are not negative.
unfoldable pub idiv_ceil : ℕ → ℕ → ℕ
idiv_ceil num den = num / den + (if ltb 0 (num % den) then 1 else 0)

unfoldable pub idiv_floor : ℕ → ℕ → ℕ
idiv_floor num den = num / den - (if ltb (num % den) 0 then 1 else 0)

unfoldable pub is_pow2 : ℕ → Bool
is_pow2 val = if val == 0 then false else bit_and val (val - 1) == 0

-- `val ? (2 << ilog2_floor(val)) : 1`
unfoldable pub next_greater_pow2 : ℕ → Option ℕ
unfolding ilog2_floor
next_greater_pow2 val =
    if val == 0 then some 1 else elim (ilog2_floor val) [ none ↦ none | some r ↦ some (2 * 2 ^ r) ]

-- A value of an integer type is its bit pattern, below the modulus `m`; of a signed type the upper
-- half of the patterns are the negative values.
abbrev pub is_negative : ℕ → Bool → ℕ → Bool
is_negative m signed val = signed && leb (m / 2) val

-- `val < 0 ? U(-(val + 1)) + 1 : U(val)`; the pattern of `-(val + 1)` is `m - 1 - val`.
unfoldable pub abs : ℕ → Bool → ℕ → ℕ
abs m signed val = if is_negative m signed val then add_word m (m - 1 - val) 1 else val

-- `std::numeric_limits<T>::max()` and `min()`
abbrev pub limit_max : ℕ → Bool → ℕ
limit_max m signed = if signed then m / 2 - 1 else m - 1

abbrev pub limit_min : ℕ → Bool → ℕ
limit_min m signed = if signed then m / 2 else 0

unfoldable pub abs_maximum : ℕ → Bool → ℕ
unfolding abs
abs_maximum m signed =
    if signed then max (limit_max m signed) (abs m signed (limit_min m signed)) else m - 1

-- The loop of `ipow`, for an unsigned type of at least the width of `int`, whose products are not
-- promoted to `int` and wrap; `none` means that the fuel ran out.
unfoldable pub ipow_loop : ℕ → ℕ → ℕ → ℕ → ℕ → Option ℕ
ipow_loop m zero exp_tmp abs_base result = if exp_tmp == 0 then some result else none
ipow_loop m (suc fuel) exp_tmp abs_base result =
    let result' = if exp_tmp % 2 == 1 then mul_word m result abs_base else result in
    let rest = ipow_loop m fuel (exp_tmp / 2) (mul_word m abs_base abs_base) result' in
    if exp_tmp == 0 then some result else rest

-- The instance for such a type: the base is its absolute value and is not negative. `exp` rounds are
-- enough, since each divides by two.
unfoldable pub ipow : ℕ → ℕ → ℕ → Option ℕ
unfolding ipow_loop abs
ipow m base exp = ipow_loop m exp exp (abs m false base) 1
