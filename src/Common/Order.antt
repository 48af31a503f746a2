-- ===== src/Common/Order.antt =====
-- `<` on the native numbers is well founded, and remainders of sums.
use Prim.Native.Nat.{ℕ, zero, suc, ◌+◌, ◌-◌, ◌%◌, ◌≤◌, ◌<◌}
use mathlib.Core.Path.{◌≡◌, ◌∙◌, sym, subst}
use mathlib.Core.Logic.{◌⊎◌, inl, inr}
use mathlib.Core.WellFounded.{Acc, WellFounded}
use native.Mathlib.Decide.{dec_lt}
use native.Mathlib.Nat.{mod-eq_of_lt, mod-eq-sub-mod, mod-add-mod}
use native.Mathlib.Omega.{arith}

Acc-below : (k n : ℕ) → n < k → Acc ◌<◌ n
Acc-below zero n h = elim h [ ]
Acc-below (suc k) n h = Acc.intro n (λ m hm. Acc-below k m (omega arith))

unfoldable pub lt_wf : WellFounded ◌<◌
unfolding Acc-below
lt_wf = record { apply = λ n. Acc-below (suc n) n (omega arith) }

-- In a ring of `n` places, `j` lies `k` places on from `i`, at most one round.
pub record Ahead (n i k j : ℕ) : Type 0 where
  pub from_inside : i < n
  pub to_inside : j < n
  pub distance : (j ≡ i + k) ⊎ (j + n ≡ i + k)

pub mod-Ahead : (n a k : ℕ) → 0 < n → k ≤ n → Ahead n (a % n) k ((a + k) % n)
mod-Ahead n a k pos le = record {
  from_inside = omega arith;
  to_inside = omega arith;
  distance = split;
}
  where
    split : ((a + k) % n ≡ a % n + k) ⊎ ((a + k) % n + n ≡ a % n + k)
    split = elim (dec_lt (a % n + k) n) [
      | yes p ↦ inl (sym (mod-add-mod a n k) ∙ mod-eq_of_lt p)
      | no p ↦ inr (
          omega (
            arith,
            mod-add-mod a n k,
            mod-eq-sub-mod {n = a % n + k} {m = n} (omega arith),
            mod-eq_of_lt {n = a % n + k - n} {m = n} (omega arith),
          ))
    ]

-- The same for two totals, the second no smaller.
pub totals-Ahead : (n a b : ℕ) → 0 < n → a ≤ b → b - a ≤ n → Ahead n (a % n) (b - a) (b % n)
totals-Ahead n a b pos le h =
    let e : a + (b - a) ≡ b = omega arith in
    subst (λ t. Ahead n (a % n) (b - a) (t % n)) e (mod-Ahead n a (b - a) pos h)
