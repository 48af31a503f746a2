-- ===== src/Math/Log.antt =====
-- core/lbu/math.h: the integer logarithms.
use native.Mathlib.Nat.{pow-suc, pow-zero, div-lt_self}
use native.Mathlib.Numerals.{add-one}
use lbu.Common.{
  ℕ, zero, suc, ◌+◌, ◌-◌, ◌*◌, ◌/◌, ◌^◌, ◌≤◌, ◌<◌, ◌≡◌, ◌⊎◌, inl, inr, some, Bool-cases, ltb,
  ltb→lt, ◌==◌, ==_iff, max, false, arith, refl, ap, ◌∙◌,
}
use lbu.Math.{
  ilog_loop, ilog_floor, ilog_ceil, ilog2_floor, next_greater_pow2, idiv_ceil, idiv_floor,
}

-- `r` is the logarithm of `val`, rounded down.
pub record IsLog (base val r : ℕ) : Type 0 where
  pub at_most : base ^ r ≤ val
  pub above : val < base ^ (r + 1)

pow-add-one : (base r : ℕ) → base ^ (r + 1) ≡ base ^ r * base
pow-add-one base r = rw add-one (pow-suc base r)

-- `q` has `r` digits.
record Digits (base q r : ℕ) : Type 0 where
  few : base ^ r ≤ max 1 (q * base)
  enough : q < base ^ r

mul_mono : (a b c : ℕ) → a ≤ b → a * c ≤ b * c
mul_mono a b c h = grind arith

one_le : (base k : ℕ) → base ^ 0 ≤ max 1 k
one_le base k = omega (arith, pow-zero base)

quotient_bounds : (base v : ℕ) → 1 < base → (v / base * base ≤ v) × (v < v / base * base + base)
quotient_bounds base v h = grind arith

Digits-IsLog : (base v r : ℕ) → 1 < base → 0 < v → Digits base (v / base) r → IsLog base v r
Digits-IsLog base v r h pos d = record {
  at_most = omega (arith, quotient_bounds base v h, d);
  above =
      let mono : (v / base + 1) * base ≤ base ^ r * base =
        mul_mono (v / base + 1) (base ^ r) base (omega (arith, d)) in
      omega (arith, quotient_bounds base v h, pow-add-one base r, mono);
}

log-Digits : (base v r : ℕ) → 1 < base → IsLog base v r → Digits base v (r + 1)
log-Digits base v r h l = record {
  few =
      let mono : base ^ r * base ≤ v * base = mul_mono (base ^ r) v base l.at_most in
      omega (arith, pow-add-one base r, mono);
  enough = l.above;
}

loop-Digits :
    (fuel base q result : ℕ)
    → 1 < base
    → q < fuel
    → (r : ℕ) × (ilog_loop fuel base q result ≡ some (result + r)) × Digits base q r
unfolding ilog_loop
loop-Digits zero base q result h k = absurd (omega arith)
loop-Digits (suc fuel) base q result h k = elim (Bool-cases (ltb 0 q)) [
  | inl more ↦
      let pos = ltb→lt 0 q more in
      let (r, e, d) =
        loop-Digits fuel base (q / base) (result + 1) h
          (omega (arith, div-lt_self {n = q} {k = base} pos h)) in
      (
        r + 1,
        rw more (e ∙ ap some (omega arith)),
        log-Digits base q r h (Digits-IsLog base q r h pos d),
      )
  | inr done ↦ (
    0,
    rw done (ap some (omega arith)),
    record { few = one_le base (q * base); enough = ground (arith, pow-zero base) },
  )
]

-- For a base above 1 and a positive value the loop ends within its fuel, and returns the logarithm
-- rounded down.
pub ilog_floor_lem :
    (base val : ℕ)
    → 1 < base
    → 0 < val
    → (r : ℕ) × (ilog_floor base val ≡ some r) × IsLog base val r
unfolding ilog_floor
ilog_floor_lem base val h pos =
    let (r, e, d) =
      loop-Digits val base (val / base) 0 h (div-lt_self {n = val} {k = base} pos h) in
    (r, e ∙ ap some (omega arith), Digits-IsLog base val r h pos d)

-- For a base above 1 and a positive value the rounded up logarithm is returned: the least power of
-- the base that reaches the value.
pub ilog_ceil_lem :
    (base val : ℕ)
    → 1 < base
    → 0 < val
    → (r : ℕ) × (ilog_ceil base val ≡ some r)
      × (val ≤ base ^ r)
      × ((r ≡ 0) ⊎ (base ^ (r - 1) < val))
unfolding ilog_ceil
ilog_ceil_lem base val h pos = elim (Bool-cases (val == 1)) [
  | inl one ↦ (0, rw one refl, omega (arith, pow-zero base, (==_iff val 1).0 one), inl refl)
  | inr more ↦
      let (r, e, l) = ilog_floor_lem base (val - 1) h (ground arith) in
      (
        r + 1,
        rw (more, e) refl,
        omega (arith, l),
        inr (let f : r + 1 - 1 ≡ r = omega arith in rw f (omega (arith, l))),
      )
]

step :
    (v : ℕ) {r : ℕ} → ilog_floor 2 (suc v) ≡ some r → next_greater_pow2 (suc v) ≡ some (2 * 2 ^ r)
unfolding next_greater_pow2
step v e = let s : (suc v == 0) ≡ false = ground arith in rw e (rw s refl)

-- The next power of two above a positive value, and its least: twice the rounded down power.
pub next_greater_pow2_lem :
    (val : ℕ)
    → (r : ℕ) × (next_greater_pow2 val ≡ some (2 ^ r))
      × (val < 2 ^ r)
      × ((r ≡ 0) ⊎ (2 ^ (r - 1) ≤ val))
unfolding next_greater_pow2 ilog2_floor
next_greater_pow2_lem zero = (0, refl, omega arith, inl refl)
next_greater_pow2_lem (suc v) =
    let (r, e, l) = ilog_floor_lem 2 (suc v) (omega arith) (omega arith) in
    let f : r + 1 - 1 ≡ r = omega arith in
    let g : 2 * 2 ^ r ≡ 2 ^ (r + 1) = omega (arith, pow-add-one 2 r) in
    (r + 1, step v e ∙ ap some g, l.above, inr (rw f l.at_most))

-- `idiv_ceil` and `idiv_floor` round an unsigned quotient up and down.
pub idiv_ceil_lem :
    (num den : ℕ)
    → 0 < den
    → (num ≤ idiv_ceil num den * den)
      × (idiv_ceil num den * den < num + den)
      × (idiv_floor num den * den ≤ num)
      × (num < idiv_floor num den * den + den)
unfolding idiv_ceil idiv_floor
idiv_ceil_lem num den h = ground arith
