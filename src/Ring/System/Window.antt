-- ===== src/Ring/System/Window.antt =====
-- core/lbu/ring_spsc.h: which slots the ranges of a handle name.
use native.Mathlib.Nat.{mod-eq_of_lt, mod-eq-sub-mod, mod-add-mod}
use lbu.Common.{ℕ, ◌+◌, ◌-◌, ◌%◌, ◌≤◌, ◌<◌, ◌≡◌, ◌≢◌, arith, ◌∙◌, ap}
use lbu.Common.Order.{totals-Ahead}
use lbu.Ring.Alg.{continuous_slots_lem}
use lbu.Ring.Handle.{ranges}
use lbu.Ring.System.{slot}

-- The two parts go round the buffer once: the `j`th slot lies `j` places on from the offset.
pub slot-ranges :
    (m begin offset available n j : ℕ)
    → offset < n
    → n < m
    → available ≤ n
    → j < available
    → slot (ranges m begin offset available n) j ≡ begin + (offset + j) % n
unfolding ranges
slot-ranges m begin offset available n j ho hm ha hj = ground (
  arith,
  continuous_slots_lem m offset available n,
  mod-eq_of_lt {n = offset + j} {m = n},
  mod-eq-sub-mod {n = offset + j} {m = n},
  mod-eq_of_lt {n = offset + j - n} {m = n},
)

pub slot-total :
    (m begin total available n j : ℕ)
    → 0 < n
    → n < m
    → available ≤ n
    → j < available
    → slot (ranges m begin (total % n) available n) j ≡ begin + (total + j) % n
slot-total m begin total available n j pos hm ha hj =
    slot-ranges m begin (total % n) available n j (omega arith) hm ha hj
    ∙ ap (λ k. begin + k) (mod-add-mod total n j)

-- Totals less than one round apart lie in different slots.
pub slots_differ : (n a b : ℕ) → 0 < n → a < b → b < a + n → a % n ≢ b % n
slots_differ n a b pos lt room =
    let w = totals-Ahead n a b pos (omega arith) (omega arith) in ground arith
