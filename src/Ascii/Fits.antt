-- ===== src/Ascii/Fits.antt =====
-- core/lbu/ascii.h: the size of the text of `integer::decimal`.
use lbu.Common.{
  ℕ, zero, suc, ◌+◌, ◌-◌, ◌/◌, ◌%◌, ◌^◌, ◌≤◌, ◌<◌, ◌≡◌, List, [], ◌∷◌, some, Bool, true, false, leb,
  Bool-cases, length, arith, inl, inr, refl, ◌∙◌,
}
use lbu.Common.Words.{add_word, add_word_exact}
use native.Mathlib.Nat.{pow-zero, pow-suc}
use lbu.Math.{abs, abs_maximum}
use lbu.Math.Log.{IsLog, ilog_floor_lem}
use lbu.Ascii.Decimal.{emit, decimal, max_data_size}
use lbu.Ascii.RoundTrip.{emit-zero, emit-positive, decimal-negative, decimal-positive, decimal-zero}

length-emit :
    (f u k : ℕ) (out : List ℕ) → u ≤ f → u < 10 ^ k → length (emit f u out) ≤ k + length out
length-emit f zero k out h l = rw (emit-zero f out) (omega arith)
length-emit zero (suc u) k out h l = absurd (omega arith)
length-emit (suc f) (suc u) zero out h l = absurd (omega (arith, pow-zero 10))
length-emit (suc f) (suc u) (suc k) out h l =
    let d : suc u / 10 < 10 ^ k = omega (arith, pow-suc 10 k) in
    rw (emit-positive f (suc u) out (omega arith))
      (omega (arith, length-emit f (suc u / 10) k ((suc u % 10 + 0x30) ∷ out) (omega arith) d))

digits_fit : (u top r : ℕ) → u ≤ top → IsLog 10 top r → length (emit u u []) ≤ r + 1
digits_fit u top r l log =
    omega (arith, length-emit u u (r + 1) [] (omega arith) (omega (arith, log.above)))

abs_maximum-unsigned : (m : ℕ) → abs_maximum m false ≡ m - 1
unfolding abs_maximum
abs_maximum-unsigned m = refl

abs_maximum-signed : (m : ℕ) → 20 ≤ m → abs_maximum m true ≡ m - m / 2
unfolding abs_maximum abs
abs_maximum-signed m h =
    let e : leb (m / 2) (m / 2) ≡ true = ground arith in
    let f : add_word m (m - 1 - m / 2) 1 ≡ m - m / 2 =
      add_word_exact m (m - 1 - m / 2) 1 (ground arith) ∙ omega arith in
    rw (e, f) (omega arith)

abs_maximum_pos : (m : ℕ) (signed : Bool) → 20 ≤ m → 0 < abs_maximum m signed
abs_maximum_pos m true h = omega (arith, abs_maximum-signed m h)
abs_maximum_pos m false h = omega (arith, abs_maximum-unsigned m)

text_fits :
    (m : ℕ) (signed : Bool) (v top r : ℕ)
    → 20 ≤ m
    → v < m
    → top ≡ abs_maximum m signed
    → IsLog 10 top r
    → length (decimal m signed v) ≤ r + 2
text_fits m signed zero top r h l t log = rw (decimal-zero m signed h) (omega arith)
text_fits m false (suc w) top r h l t log =
    rw (decimal-positive m false (suc w) (omega arith) refl)
      (omega (arith, digits_fit (suc w) top r (omega (arith, t, abs_maximum-unsigned m)) log))
text_fits m true (suc w) top r h l t log = elim (Bool-cases (leb (m / 2) (suc w))) [
  | inl negative ↦
      let k : m - suc w ≤ top = ground (arith, t, abs_maximum-signed m h) in
      rw (decimal-negative m (suc w) h (ground arith) l)
        (omega (arith, digits_fit (m - suc w) top r k log))
  | inr positive ↦
      let k : suc w ≤ top = ground (arith, t, abs_maximum-signed m h) in
      rw (decimal-positive m true (suc w) (omega arith) positive)
        (omega (arith, digits_fit (suc w) top r k log))
]

-- For a modulus of at least 20, the buffer of `decimal` has room for its terminator and the text of
-- every value of the type.
pub decimal_fits :
    (m : ℕ) (signed : Bool) (v : ℕ)
    → 20 ≤ m
    → v < m
    → (size : ℕ) × (max_data_size m signed ≡ some size) × (length (decimal m signed v) + 1 ≤ size)
unfolding max_data_size
decimal_fits m signed v h l =
    let (r, e, log) =
      ilog_floor_lem 10 (abs_maximum m signed) (omega arith) (abs_maximum_pos m signed h) in
    (
      1 + 1 + 1 + r,
      rw (max_data_size, e) refl,
      omega (arith, text_fits m signed v (abs_maximum m signed) r h l refl log),
    )
