-- ===== src/Common/Words.antt =====
-- Unsigned machine arithmetic modulo `m`, which is 2 ^ w for a type of w bits. C and C++ wrap;
-- `◌-◌` on ℕ stops at 0, so the modulus is added first.
use Prim.Native.Nat.{ℕ, ◌+◌, ◌-◌, ◌*◌, ◌%◌, ◌≤◌, ◌<◌}
use mathlib.Core.Path.{◌≡◌}
use native.Mathlib.Nat.{mod-eq_of_lt, mod-eq-sub-mod}
use native.Mathlib.Omega.{arith}

module _ (m : ℕ) where
  unfoldable pub add_word : ℕ → ℕ → ℕ
  add_word a b = (a + b) % m

  unfoldable pub sub_word : ℕ → ℕ → ℕ
  sub_word a b = (a + m - b) % m

  unfoldable pub mul_word : ℕ → ℕ → ℕ
  mul_word a b = (a * b) % m

  pub add_word_exact : (a b : ℕ) → a + b < m → add_word a b ≡ a + b
  unfolding add_word
  add_word_exact a b h = mod-eq_of_lt h

  pub sub_word_exact : (a b : ℕ) → b ≤ a → a < m → sub_word a b ≡ a - b
  unfolding sub_word
  sub_word_exact a b h k = omega (
    arith,
    mod-eq-sub-mod {n = a + m - b} {m = m} (omega arith),
    mod-eq_of_lt {n = a + m - b - m} {m = m} (omega arith),
  )

  pub mul_word_exact : (a b : ℕ) → a * b < m → mul_word a b ≡ a * b
  unfolding mul_word
  mul_word_exact a b h = mod-eq_of_lt h
