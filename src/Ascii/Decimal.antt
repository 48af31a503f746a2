-- ===== src/Ascii/Decimal.antt =====
-- core/lbu/ascii.h: `integer::from_decimal` and `integer::decimal`, for types of at least the
-- width of `int`, whose arithmetic is not promoted. A C string is the list of its characters
-- before the terminator.
use lbu.Common.{
  ℕ, zero, suc, ◌+◌, ◌-◌, ◌%◌, ◌/◌, List, [], ◌∷◌, Option, none, some, Bool, true, false, not, ◌&&◌,
  ltb, ◌==◌, if◌then◌else◌,
}
use lbu.Common.Words.{add_word, sub_word, mul_word}
use lbu.Math.{abs, is_negative, limit_max, limit_min, abs_maximum, ilog_floor}
use lbu.Ascii.{is_digit}

-- `LeadingZeros` and `NegativeZero`
pub data Policy : Type 0 where
  accept reject : Policy

abbrev pub rejects : Policy → Bool
rejects accept = false
rejects reject = true

-- What `from_decimal` does where `result` is not null: it returns false, or it stores a pattern and
-- returns true, or its negation overflows, which is undefined.
pub data Outcome : Type 0 where
  refused overflow : Outcome
  stored : ℕ → Outcome

abbrev pub is_end : List ℕ → Bool
is_end [] = true
is_end (c ∷ s) = false

-- `while( *c == 0x30 ) ++c;`
abbrev pub skip_zeros : List ℕ → List ℕ
skip_zeros [] = []
skip_zeros (c ∷ s) = if c == 0x30 then skip_zeros s else c ∷ s

module _ (m : ℕ) where
  -- `while( *c ) { … }` with its early returns
  unfoldable pub scan : ℕ → List ℕ → ℕ → Option ℕ
  scan abs_val_max [] abs_val = some abs_val
  scan abs_val_max (c ∷ s) abs_val =
      let v = c - 0x30 in
      let shifted = mul_word m abs_val 10 in
      let rest = scan abs_val_max s (add_word m shifted v) in
      if not (is_digit c)
      then none
      else if ltb (abs_val_max / 10) abs_val
      then none
      else if ltb (sub_word m abs_val_max v) shifted
      then none
      else rest

  -- `-T(abs_val)`. The absolute value of the minimum of a signed type is not in the type: it is
  -- converted to the minimum itself, whose negation overflows.
  unfoldable pub negated : Bool → ℕ → Outcome
  negated signed abs_val =
      if signed && abs_val == m / 2 then overflow else stored (sub_word m 0 abs_val)

  -- From the sign on: the digits, the limit, and the value with its sign.
  unfoldable pub after_sign : Bool → Policy → Policy → Bool → List ℕ → Outcome
  unfolding negated
  after_sign signed lz nz neg [] = refused
  after_sign signed lz nz neg (c ∷ s) =
      let abs_val_max = if neg then abs m signed (limit_min m signed) else limit_max m signed in
      let digits = if c == 0x30 then skip_zeros s else c ∷ s in
      let result : Outcome = elim (scan abs_val_max digits 0) [
        | none ↦ refused
        | some abs_val ↦
            if abs_val == 0 && neg && rejects nz
            then refused
            else if neg
            then negated signed abs_val
            else stored abs_val
      ] in
      if c == 0x30 && rejects lz && not (is_end s) then refused else result

  -- The pointer may be null.
  unfoldable pub from_decimal : Bool → Policy → Policy → Option (List ℕ) → Outcome
  from_decimal signed lz nz none = refused
  from_decimal signed lz nz (some []) = refused
  from_decimal signed lz nz (some (c ∷ s)) =
      if c == 0x2d then after_sign signed lz nz true s else after_sign signed lz nz false (c ∷ s)

-- `while( u > 0 ) { --p; *p = (u % 10) + 0x30; u /= 10; }`; `u` rounds are enough, since each
-- divides by ten.
unfoldable pub emit : ℕ → ℕ → List ℕ → List ℕ
emit zero u out = out
emit (suc fuel) u out =
    let rest = emit fuel (u / 10) ((u % 10 + 0x30) ∷ out) in if ltb 0 u then rest else out

-- The characters of `decimal<T>(value)`, without the terminator.
unfoldable pub decimal : ℕ → Bool → ℕ → List ℕ
unfolding emit abs
decimal m signed value =
    let u = abs m signed value in
    let digits = emit u u (if value == 0 then 0x30 ∷ [] else []) in
    if is_negative m signed value then 0x2d ∷ digits else digits

-- `MaxDataSize`
unfoldable pub max_data_size : ℕ → Bool → Option ℕ
max_data_size m signed = elim (ilog_floor 10 (abs_maximum m signed)) [
  | none ↦ none
  | some r ↦ some (1 + 1 + 1 + r)
]
