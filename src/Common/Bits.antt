-- ===== src/Common/Bits.antt =====
-- Laws of `bit_and` on numbers that are not given: its lowest digit, masks, and powers of two.
use Prim.Native.Nat.{
  ℕ, zero, suc, ◌+◌, ◌-◌, ◌*◌, ◌/◌, ◌%◌, ◌^◌, ◌≤◌, ◌<◌, min, bit_and, digits, bit_and-bitwise,
}
use mathlib.Core.Path.{◌≡◌, refl, sym, ap, ◌∙◌}
use native.Mathlib.Nat.{pow-suc, div-add-mod, mod-lt, mul-add-mod_self_left, mod_self, mod-eq_of_lt}
use native.Mathlib.Decide.{ℕ_discrete}
use native.Mathlib.Omega.{arith}

-- Any count of rounds that reaches the first number gives the same result.
rounds : (n k a b : ℕ) → a ≤ n → a ≤ k → digits (λ _. zero) min n a b ≡ digits (λ _. zero) min k a b
rounds zero zero a b h h' = refl
rounds zero (suc k) zero b h h' = refl
rounds zero (suc k) (suc a) b h h' = absurd (omega arith)
rounds (suc n) zero zero b h h' = refl
rounds (suc n) zero (suc a) b h h' = absurd (omega arith)
rounds (suc n) (suc k) zero b h h' = refl
rounds (suc n) (suc k) (suc a) b h h' =
    omega (arith, rounds n k (suc a / 2) (b / 2) (omega arith) (omega arith))

pub bit_and-lowest : (a b : ℕ) → bit_and a b ≡ bit_and (a / 2) (b / 2) * 2 + min (a % 2) (b % 2)
bit_and-lowest zero b = omega (arith, bit_and-bitwise 0 b, bit_and-bitwise 0 (b / 2))
bit_and-lowest (suc a) b = omega (
  arith,
  bit_and-bitwise (suc a) b,
  bit_and-bitwise (suc a / 2) (b / 2),
  rounds a (suc a / 2) (suc a / 2) (b / 2) (omega arith) (omega arith),
)

below_self : (n a : ℕ) → a ≤ n → bit_and a a ≡ a
below_self zero zero h = refl
below_self zero (suc a) h = absurd (omega arith)
below_self (suc n) zero h = refl
below_self (suc n) (suc a) h =
    omega (arith, bit_and-lowest (suc a) (suc a), below_self n (suc a / 2) (omega arith))

pub bit_and_self : (a : ℕ) → bit_and a a ≡ a
bit_and_self a = below_self a a (omega arith)

none_zero : (n a : ℕ) → a ≤ n → bit_and a 0 ≡ 0
none_zero zero zero h = refl
none_zero zero (suc a) h = absurd (omega arith)
none_zero (suc n) zero h = refl
none_zero (suc n) (suc a) h =
    omega (arith, bit_and-lowest (suc a) 0, none_zero n (suc a / 2) (omega arith))

pub bit_and-zero : (a : ℕ) → bit_and a 0 ≡ 0
bit_and-zero a = none_zero a a (omega arith)

pub pow_pos : (k : ℕ) → 0 < 2 ^ k
pow_pos zero = omega arith
pow_pos (suc k) = omega (arith, pow-suc 2 k, pow_pos k)

mod_double : (a p : ℕ) → 0 < p → a % (2 * p) ≡ a / 2 % p * 2 + a % 2
mod_double a p h =
    let q = a / 2 / p in
    let r = a / 2 % p * 2 + a % 2 in
    let e : a ≡ 2 * p * q + r = omega (arith, div-add-mod (a / 2) p) in
    ap (λ t. t % (2 * p)) e
    ∙ mul-add-mod_self_left (2 * p) q r
    ∙ mod-eq_of_lt {n = r} {m = 2 * p} (omega (arith, mod-lt (a / 2) h))

-- A mask of `k` ones takes the remainder.
pub bit_and_mask : (k a : ℕ) → bit_and a (2 ^ k - 1) ≡ a % 2 ^ k
bit_and_mask zero a = omega (arith, bit_and-zero a)
bit_and_mask (suc k) a =
    let p = pow_pos k in
    let e : 2 ^ suc k ≡ 2 * 2 ^ k = omega (arith, pow-suc 2 k) in
    let half : (2 ^ suc k - 1) / 2 ≡ 2 ^ k - 1 = omega (arith, e, p) in
    let low : (2 ^ suc k - 1) % 2 ≡ 1 = omega (arith, e, p) in
    let rest : bit_and (a / 2) ((2 ^ suc k - 1) / 2) ≡ a / 2 % 2 ^ k =
      ap (bit_and (a / 2)) half ∙ bit_and_mask k (a / 2) in
    let rem : a % 2 ^ suc k ≡ a / 2 % 2 ^ k * 2 + a % 2 =
      ap (λ t. a % t) e ∙ mod_double a (2 ^ k) p in
    omega (arith, bit_and-lowest a (2 ^ suc k - 1), rest, low, rem)

-- A positive number shares no digit with its predecessor exactly if it is a power of two.
pub pow2_of_bit_and : (n a : ℕ) → a ≤ n → 0 < a → bit_and a (a - 1) ≡ 0 → (k : ℕ) × (a ≡ 2 ^ k)
pow2_of_bit_and zero a h pos e = absurd (omega arith)
pow2_of_bit_and (suc n) a h pos e = elim (ℕ_discrete (a % 2) 0) [
  | yes even ↦
      let half : (a - 1) / 2 ≡ a / 2 - 1 = omega arith in
      let (k, f) =
        pow2_of_bit_and n (a / 2) (omega arith) (omega arith)
          (ap (bit_and (a / 2)) (sym half) ∙ omega (arith, bit_and-lowest a (a - 1))) in
      (suc k, omega (arith, f, pow-suc 2 k))
  | no odd ↦
      let half : (a - 1) / 2 ≡ a / 2 = omega arith in
      (0, omega (arith, bit_and-lowest a (a - 1), ap (bit_and (a / 2)) half, bit_and_self (a / 2)))
]

pub bit_and_pow2 : (k : ℕ) → bit_and (2 ^ k) (2 ^ k - 1) ≡ 0
bit_and_pow2 k = bit_and_mask k (2 ^ k) ∙ mod_self (2 ^ k)

-- The complement of such a mask, in a word of `w` digits, takes the remainder off.
pub bit_and_complement : (k w a : ℕ) → k ≤ w → a < 2 ^ w → bit_and a (2 ^ w - 2 ^ k) ≡ a - a % 2 ^ k
bit_and_complement zero w a h lt = omega (arith, bit_and_mask w a, mod-eq_of_lt lt)
bit_and_complement (suc k) zero a h lt = absurd (omega arith)
bit_and_complement (suc k) (suc w) a h lt =
    let p = pow_pos k in
    let e : 2 ^ suc k ≡ 2 * 2 ^ k = omega (arith, pow-suc 2 k) in
    let f : 2 ^ suc w ≡ 2 * 2 ^ w = omega (arith, pow-suc 2 w) in
    let half : (2 ^ suc w - 2 ^ suc k) / 2 ≡ 2 ^ w - 2 ^ k = omega (arith, e, f) in
    let low : (2 ^ suc w - 2 ^ suc k) % 2 ≡ 0 = omega (arith, e, f) in
    let rest : bit_and (a / 2) ((2 ^ suc w - 2 ^ suc k) / 2) ≡ a / 2 - a / 2 % 2 ^ k =
      ap (bit_and (a / 2)) half ∙ bit_and_complement k w (a / 2) (omega arith) (omega (arith, f)) in
    let rem : a % 2 ^ suc k ≡ a / 2 % 2 ^ k * 2 + a % 2 =
      ap (λ t. a % t) e ∙ mod_double a (2 ^ k) p in
    omega (arith, bit_and-lowest a (2 ^ suc w - 2 ^ suc k), rest, low, rem)
