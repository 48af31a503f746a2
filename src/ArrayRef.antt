-- ===== src/ArrayRef.antt =====
-- core/lbu/array_ref.h: `array_ref<T, SizeType>`, a pointer and a count of elements.
pub mod Parts
use lbu.Common.{
  ℕ, zero, suc, ◌+◌, ◌-◌, Bool, true, false, ltb, ◌==◌, not, ◌&&◌, min, List, [], ◌∷◌,
  if◌then◌else◌,
}
use lbu.Common.Family.{update}
use lbu.Common.Words.{sub_word}

-- `d` counts elements of `T`, not bytes. The null pointer is the address 0.
pub record ArrayRef : Type 0 where
  pub begin : ℕ
  pub size : ℕ

abbrev pub empty : ArrayRef
empty = record { begin = 0; size = 0 }

abbrev pub end : ArrayRef → ℕ
end r = r.begin + r.size

-- `explicit operator bool`
unfoldable pub is_valid : ArrayRef → Bool
is_valid r = ltb 0 r.size && not (r.begin == 0)

-- The modulus stands for `SizeType`.
module _ (m : ℕ) where
  unfoldable pub sub : ArrayRef → ℕ → ℕ → ArrayRef
  sub r start size = record { begin = r.begin + start; size = min size (sub_word m r.size start) }

  unfoldable pub sub_first : ArrayRef → ℕ → ArrayRef
  sub_first r size = sub r 0 size

  unfoldable pub sub_last : ArrayRef → ℕ → ArrayRef
  sub_last r size = sub r (sub_word m r.size (min size r.size)) size

  -- The second part takes the default size, the largest number of the type.
  unfoldable pub split : ArrayRef → ℕ → ArrayRef × ArrayRef
  split r idx = (record { begin = r.begin; size = idx }, sub r idx (m - 1))

-- The `n` elements in memory from an address on.
abbrev pub elements_from {ℓ} : {A : Type ℓ} → (ℕ → A) → ℕ → ℕ → List A
elements_from memory begin zero = []
elements_from memory begin (suc n) = memory begin ∷ elements_from memory (begin + 1) n

abbrev pub elements {ℓ} : {A : Type ℓ} → (ℕ → A) → ArrayRef → List A
elements memory r = elements_from memory r.begin r.size

-- `array_ref_content_copy`, which writes the elements from the first on.
unfoldable pub copy_from {ℓ} : {A : Type ℓ} → (ℕ → A) → ℕ → ℕ → ℕ → ℕ → A
copy_from memory dst src zero = memory
copy_from memory dst src (suc n) = copy_from (update memory dst (memory src)) (dst + 1) (src + 1) n

unfoldable pub array_ref_content_copy {ℓ} : {A : Type ℓ} → (ℕ → A) → ArrayRef → ArrayRef → ℕ → A
unfolding copy_from
array_ref_content_copy memory dst src = copy_from memory dst.begin src.begin src.size

-- `std::equal` on two ranges of the same length.
pub equal_from {ℓ} : {A : Type ℓ} → (A → A → Bool) → (ℕ → A) → ℕ → ℕ → ℕ → Bool
equal_from eq memory a b zero = true
equal_from eq memory a b (suc n) =
    eq (memory a) (memory b) && equal_from eq memory (a + 1) (b + 1) n

unfoldable pub array_ref_content_equal {ℓ} :
    {A : Type ℓ} → (A → A → Bool) → (ℕ → A) → ArrayRef → ArrayRef → Bool
unfolding equal_from
array_ref_content_equal eq memory a b =
    if not (a.size == b.size) then false else equal_from eq memory a.begin b.begin a.size
