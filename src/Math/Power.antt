-- ===== src/Math/Power.antt =====
-- core/lbu/math.h: `ipow`.
use lbu.Common.{
  ℕ, zero, suc, ◌+◌, ◌*◌, ◌/◌, ◌%◌, ◌^◌, ◌≤◌, ◌<◌, ◌≡◌, ◌==◌, some, arith, sym, ap, ◌∙◌,
  either_when,
}
use native.Mathlib.Nat.{
  pow-zero, pow-suc, add-mul-mod_self_left, div-add-mod, mod-eq_of_lt, mod-mod, mod-lt, mul_comm,
  mul_assoc, add-mul, mul-one, one-mul,
}
use lbu.Common.Words.{mul_word}
use lbu.Math.{ipow_loop, ipow, abs}

mul-mod : (a b m : ℕ) → a % m * b % m ≡ a * b % m
mul-mod a b m =
    let q = a / m in
    let r = a % m in
    let e : a * b ≡ r * b + m * (q * b) =
      ap (λ x. x * b) (sym (div-add-mod a m))
      ∙ add-mul (m * q) r b
      ∙ omega (arith, mul_assoc m q b) in
    sym (ap (λ x. x % m) e ∙ add-mul-mod_self_left (r * b) m (q * b))

-- Equal remainders stay equal under a product.
mul-cong : (a b c m : ℕ) → a % m ≡ b % m → a * c % m ≡ b * c % m
mul-cong a b c m e = sym (mul-mod a c m) ∙ ap (λ x. x * c % m) e ∙ mul-mod b c m

mul-cong_left : (a b c m : ℕ) → a % m ≡ b % m → c * a % m ≡ c * b % m
mul-cong_left a b c m e =
    ap (λ x. x % m) (mul_comm c a) ∙ mul-cong a b c m e ∙ ap (λ x. x % m) (mul_comm b c)

pow-mod : (a k m : ℕ) → (a % m) ^ k % m ≡ a ^ k % m
pow-mod a zero m = ap (λ x. x % m) (pow-zero (a % m) ∙ sym (pow-zero a))
pow-mod a (suc k) m =
    ap (λ x. x % m) (pow-suc (a % m) k)
    ∙ mul-cong ((a % m) ^ k) (a ^ k) (a % m) m (pow-mod a k m)
    ∙ mul-cong_left (a % m) a (a ^ k) m (mod-mod a m)
    ∙ ap (λ x. x % m) (sym (pow-suc a k))

pow-square : (b k : ℕ) → (b * b) ^ k ≡ b ^ (2 * k)
pow-square b zero = pow-zero (b * b) ∙ sym (pow-zero b)
pow-square b (suc k) =
    let e : 2 * suc k ≡ suc (suc (2 * k)) = omega arith in
    pow-suc (b * b) k
    ∙ ap (λ x. x * (b * b)) (pow-square b k)
    ∙ sym (mul_assoc (b ^ (2 * k)) b b)
    ∙ ap (λ x. x * b) (sym (pow-suc b (2 * k)))
    ∙ sym (pow-suc b (suc (2 * k)))
    ∙ ap (λ x. b ^ x) (sym e)

-- One round of the loop leaves the remainder of the power still to be had.
even_round : (m r b e : ℕ) → e % 2 ≡ 0 → r * mul_word m b b ^ (e / 2) % m ≡ r * b ^ e % m
unfolding mul_word
even_round m r b e h =
    let f : 2 * (e / 2) ≡ e = omega arith in
    mul-cong_left ((b * b % m) ^ (e / 2)) ((b * b) ^ (e / 2)) r m (pow-mod (b * b) (e / 2) m)
    ∙ ap (λ x. r * x % m) (pow-square b (e / 2) ∙ ap (λ x. b ^ x) f)

odd_round :
    (m r b e : ℕ) → e % 2 ≡ 1 → mul_word m r b * mul_word m b b ^ (e / 2) % m ≡ r * b ^ e % m
unfolding mul_word
odd_round m r b e h =
    let f : suc (2 * (e / 2)) ≡ e = omega arith in
    let p = b ^ (2 * (e / 2)) in
    mul-mod (r * b) ((b * b % m) ^ (e / 2)) m
    ∙ mul-cong_left ((b * b % m) ^ (e / 2)) ((b * b) ^ (e / 2)) (r * b) m
        (pow-mod (b * b) (e / 2) m)
    ∙ ap (λ x. r * b * x % m) (pow-square b (e / 2))
    ∙ ap (λ x. x % m)
        (mul_assoc r b p ∙ ap (λ x. r * x) (mul_comm b p ∙ sym (pow-suc b (2 * (e / 2)))))
    ∙ ap (λ x. r * b ^ x % m) f

ended : (m e b r : ℕ) → e ≡ 0 → r < m → r ≡ r * b ^ e % m
ended m e b r z l =
    let one : r * b ^ e ≡ r = ap (λ x. r * x) (ap (λ k. b ^ k) z ∙ pow-zero b) ∙ mul-one r in
    sym (mod-eq_of_lt l) ∙ ap (λ x. x % m) (sym one)

ipow_loop_lem :
    (m fuel e b r : ℕ) → e ≤ fuel → r < m → ipow_loop m fuel e b r ≡ some (r * b ^ e % m)
unfolding ipow_loop mul_word
ipow_loop_lem m zero e b r h l =
    either_when (λ x. x ≡ some (r * b ^ e % m)) (e == 0) _ _
      (λ z. ap some (ended m e b r (ground arith) l)) (λ z. absurd (ground arith))
ipow_loop_lem m (suc fuel) e b r h l =
    either_when (λ x. x ≡ some (r * b ^ e % m)) (e == 0) _ _
      (λ z. ap some (ended m e b r (ground arith) l))
      (λ z.
        either_when (λ r'. ipow_loop m fuel (e / 2) (b * b % m) r' ≡ some (r * b ^ e % m))
          (e % 2 == 1) _ _
          (λ o.
            ipow_loop_lem m fuel (e / 2) (b * b % m) (r * b % m) (ground arith)
              (mod-lt (r * b) (omega arith))
            ∙ ap some (odd_round m r b e (ground arith)))
          (λ o.
            ipow_loop_lem m fuel (e / 2) (b * b % m) r (ground arith) l
            ∙ ap some (even_round m r b e (ground arith))))

-- For an unsigned type of at least the width of `int`, of 32 bits or more: the loop of `ipow` ends
-- within its fuel, and the result is the power, wrapped.
pub ipow_lem : (m base exp : ℕ) → 2 ^ 32 ≤ m → ipow m base exp ≡ some (base ^ exp % m)
unfolding ipow abs
ipow_lem m base exp h =
    ipow_loop_lem m exp exp base 1 (omega arith) (omega (arith, h))
    ∙ ap (λ x. some (x % m)) (one-mul (base ^ exp))
