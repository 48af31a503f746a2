-- ===== src/Common/Cases.antt =====
-- What holds of both branches of a test holds of it.
use mathlib.Core.Path.{◌≡◌, refl}
use mathlib.Core.Bool.{Bool, true, false}
use lbu.Common.Tests.{if◌then◌else◌}

module _ {ℓ} {A : Type ℓ} where
  pub either {κ} : (P : A → Type κ) (b : Bool) (x y : A) → P x → P y → P (if b then x else y)
  either P true x y p q = p
  either P false x y p q = q

  pub either_when {κ} :
      (P : A → Type κ) (b : Bool) (x y : A)
      → (b ≡ true → P x)
      → (b ≡ false → P y)
      → P (if b then x else y)
  either_when P true x y p q = p refl
  either_when P false x y p q = q refl

  pub if_true : {b : Bool} → b ≡ true → (x y : A) → (if b then x else y) ≡ x
  if_true e x y = rw e refl

  pub if_false : {b : Bool} → b ≡ false → (x y : A) → (if b then x else y) ≡ y
  if_false e x y = rw e refl
