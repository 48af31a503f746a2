-- ===== src/Math/Pow2.antt =====
-- core/lbu/math.h: `is_pow2`.
use Prim.Native.Nat.{bit_and}
use lbu.Common.{ℕ, ◌-◌, ◌^◌, ◌≡◌, ◌↔◌, ◌==◌, ==_iff, true, false, arith, ap, ◌∙◌, zero, suc}
use lbu.Common.Bits.{pow2_of_bit_and, bit_and_pow2, pow_pos}
use lbu.Math.{is_pow2}

-- `is_pow2` is true exactly for the powers of two: of such a number it gives the exponent.
pub is_pow2_iff : (val : ℕ) → (is_pow2 val ≡ true) ↔ ((k : ℕ) × (val ≡ 2 ^ k))
unfolding is_pow2
is_pow2_iff zero = (λ e. cc, λ (k, e). absurd (omega (arith, e, pow_pos k)))
is_pow2_iff (suc v) =
    let s : (suc v == 0) ≡ false = ground arith in
    rw s (
      λ e. pow2_of_bit_and (suc v) (suc v) (omega arith) (omega arith) ((==_iff _ _).0 e),
      λ (k, e). (==_iff _ _).1 (ap (λ a. bit_and a (a - 1)) e ∙ bit_and_pow2 k),
    )
