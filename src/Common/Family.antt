-- ===== src/Common/Family.antt =====
-- Families `ℕ → A`, which stand for memory and for unbounded sequences.
use Prim.Native.Nat.{ℕ, zero, suc, ◌+◌}
use mathlib.Core.Path.{◌≡◌, refl, ap}
use mathlib.Core.Logic.{◌≢◌, ite}
use mathlib.Core.List.{List, [], ◌∷◌, ◌++◌}
use native.Mathlib.Decide.{ℕ_discrete}
use native.Mathlib.Omega.{arith}
use lbu.Common.Lists.{length, length-append}

module _ {ℓ} {A : Type ℓ} where
  unfoldable pub update : (ℕ → A) → ℕ → A → ℕ → A
  update f i a j = ite (ℕ_discrete i j) a (f j)

  pub update_same : (f : ℕ → A) (i : ℕ) (a : A) → update f i a i ≡ a
  unfolding update
  update_same f i a = ground arith

  pub update_ne : (f : ℕ → A) (i j : ℕ) (a : A) → i ≢ j → update f i a j ≡ f j
  unfolding update
  update_ne f i j a ne = ground arith

  -- The first `n` values of a sequence.
  unfoldable pub prefix : (ℕ → A) → ℕ → List A
  prefix f zero = []
  prefix f (suc n) = prefix f n ++ f n ∷ []

  pub prefix-suc : (f : ℕ → A) (n : ℕ) → prefix f (n + 1) ≡ prefix f n ++ f n ∷ []
  unfolding prefix
  prefix-suc f n = let e : n + 1 ≡ suc n = omega arith in ap (prefix f) e

  pub length-prefix : (f : ℕ → A) (n : ℕ) → length (prefix f n) ≡ n
  unfolding prefix
  length-prefix f zero = refl
  length-prefix f (suc n) = omega (arith, length-append (prefix f n) (f n ∷ []), length-prefix f n)
