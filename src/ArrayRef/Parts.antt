-- ===== src/ArrayRef/Parts.antt =====
-- core/lbu/array_ref.h: the parts of a reference, its copies and its comparison.
use lbu.Common.{
  ℕ, zero, suc, ◌+◌, ◌-◌, ◌≤◌, ◌<◌, ◌≡◌, ◌≢◌, ◌↔◌, ◌⊎◌, inl, inr, Bool-cases, not, ◌==◌,
  if◌then◌else◌, Bool, true, false, min, arith, refl, ap, ap₂, ◌∙◌, ℕ_discrete, ==_iff, subst, ◌∷◌,
  length,
}
use mathlib.Core.Bool.{false≢true}
use lbu.Common.Words.{sub_word_exact}
use lbu.Common.Family.{update, update_same, update_ne}
use lbu.ArrayRef.{
  ArrayRef, end, sub, sub_last, split, elements, elements_from, copy_from, array_ref_content_copy,
  equal_from, array_ref_content_equal,
}

module _ (m : ℕ) (r : ArrayRef) (small : r.size < m) where
  -- `sub` at a start inside the reference names at most `size` elements, as many as there are
  -- behind the start, and none outside.
  pub sub_inside :
      (start size : ℕ)
      → start ≤ r.size
      → size < m
      → ((sub m r start size).begin ≡ r.begin + start)
        × ((sub m r start size).size ≡ min size (r.size - start))
        × (end (sub m r start size) ≤ end r)
  unfolding sub
  sub_inside start size h k = omega (arith, sub_word_exact m r.size start)

  -- `sub_last` names the last `size` elements, or all if there are fewer.
  pub sub_last-end :
      (size : ℕ)
      → size < m
      → ((sub_last m r size).size ≡ min size r.size) × (end (sub_last m r size) ≡ end r)
  unfolding sub_last sub
  sub_last-end size k =
      rw (sub_word_exact m r.size (min size r.size) (omega arith) small)
        (omega (arith, sub_word_exact m r.size (r.size - min size r.size)))

  -- `split` cuts the reference in two adjacent parts that make it up.
  pub split_parts :
      (idx : ℕ)
      → idx ≤ r.size
      → ((split m r idx).0.begin ≡ r.begin)
        × ((split m r idx).0.size ≡ idx)
        × ((split m r idx).1.begin ≡ end (split m r idx).0)
        × (end (split m r idx).1 ≡ end r)
  unfolding split sub
  split_parts idx h = omega (arith, sub_word_exact m r.size idx)

module _ {ℓ} {A : Type ℓ} where
  pub copy_from_outside :
      (memory : ℕ → A) (dst src n j : ℕ)
      → (j < dst) ⊎ (dst + n ≤ j)
      → copy_from memory dst src n j ≡ memory j
  unfolding copy_from
  copy_from_outside memory dst src zero j h = refl
  copy_from_outside memory dst src (suc n) j h =
      copy_from_outside (update memory dst (memory src)) (dst + 1) (src + 1) n j (omega arith)
      ∙ update_ne memory dst j (memory src) (λ e. absurd (omega (arith, h, e)))

  elements_from-update :
      (memory : ℕ → A) (j begin n : ℕ) (v : A)
      → (j < begin) ⊎ (begin + n ≤ j)
      → elements_from (update memory j v) begin n ≡ elements_from memory begin n
  elements_from-update memory j begin zero v h = refl
  elements_from-update memory j begin (suc n) v h =
      ap₂ ◌∷◌ (update_ne memory j begin v (λ e. absurd (omega (arith, e))))
        (elements_from-update memory j (begin + 1) n v (omega arith))

  length-elements_from : (memory : ℕ → A) (begin n : ℕ) → length (elements_from memory begin n) ≡ n
  length-elements_from memory begin zero = refl
  length-elements_from memory begin (suc n) = ap suc (length-elements_from memory (begin + 1) n)

  pub copied :
      (memory : ℕ → A) (dst src n : ℕ)
      → (dst ≤ src) ⊎ (src + n ≤ dst)
      → elements_from (copy_from memory dst src n) dst n ≡ elements_from memory src n
  unfolding copy_from
  copied memory dst src zero h = refl
  copied memory dst src (suc n) h =
      ap₂ ◌∷◌
        (copy_from_outside (update memory dst (memory src)) (dst + 1) (src + 1) n dst (omega arith)
          ∙ update_same memory dst (memory src))
        (copied (update memory dst (memory src)) (dst + 1) (src + 1) n (omega arith)
          ∙ elements_from-update memory dst (src + 1) n (memory src) (omega arith))

  -- `array_ref_content_copy` leaves in the destination the elements that the source had, where
  -- the destination does not start behind the start of the source and inside it.
  pub array_ref_content_copy_lem :
      (memory : ℕ → A) (dst src : ArrayRef)
      → (dst.begin ≤ src.begin) ⊎ (end src ≤ dst.begin)
      → elements (array_ref_content_copy memory dst src) (record dst { size = src.size })
        ≡ elements memory src
  unfolding array_ref_content_copy
  array_ref_content_copy_lem memory dst src h = copied memory dst.begin src.begin src.size h

  module _ (eq : A → A → Bool) (eq_iff : (x y : A) → (eq x y ≡ true) ↔ (x ≡ y))
      (memory : ℕ → A) where
    equal_from_sound :
        (a b n : ℕ)
        → equal_from eq memory a b n ≡ true
        → elements_from memory a n ≡ elements_from memory b n
    unfolding equal_from
    equal_from_sound a b zero h = refl
    equal_from_sound a b (suc n) h = elim (Bool-cases (eq (memory a) (memory b))) [
      | inl same ↦
          ap₂ ◌∷◌ ((eq_iff (memory a) (memory b)).0 same)
            (equal_from_sound (a + 1) (b + 1) n (rw same at h))
      | inr differ ↦ absurd (false≢true (rw differ at h))
    ]

    equal_from_complete :
        (a b n : ℕ)
        → elements_from memory a n ≡ elements_from memory b n
        → equal_from eq memory a b n ≡ true
    unfolding equal_from
    equal_from_complete a b zero h = refl
    equal_from_complete a b (suc n) h =
        rw ((eq_iff (memory a) (memory b)).1 (cc)) (equal_from_complete (a + 1) (b + 1) n (cc))

    same_size :
        (a b n : ℕ)
        → ((if not (n == n) then false else equal_from eq memory a b n) ≡ true)
          ↔ (elements_from memory a n ≡ elements_from memory b n)
    same_size a b n = rw ((==_iff n n).1 refl) (equal_from_sound a b n, equal_from_complete a b n)

    sizes_differ :
        (a b n k : ℕ)
        → n ≢ k
        → ((if not (n == k) then false else equal_from eq memory a b n) ≡ true)
          ↔ (elements_from memory a n ≡ elements_from memory b k)
    sizes_differ a b n k ne =
        let e : (n == k) ≡ false = ground arith in
        rw e (
          λ h. absurd (false≢true h),
          λ h. absurd (
              ne (
                omega (
                  arith,
                  ap length h,
                  length-elements_from memory a n,
                  length-elements_from memory b k,
                ))),
        )

    -- `array_ref_content_equal` says exactly whether the two references name equal lists of
    -- elements, given that `eq` decides the equality of elements.
    pub array_ref_content_equal_iff :
        (a b : ArrayRef)
        → (array_ref_content_equal eq memory a b ≡ true) ↔ (elements memory a ≡ elements memory b)
    unfolding array_ref_content_equal
    array_ref_content_equal_iff a b = elim (ℕ_discrete a.size b.size) [
      | yes e ↦
          subst
            (λ k.
              ((if not (a.size == k) then false else equal_from eq memory a.begin b.begin a.size)
                ≡ true)
              ↔ (elements memory a ≡ elements_from memory b.begin k))
            e (same_size a.begin b.begin a.size)
      | no ne ↦ sizes_differ a.begin b.begin a.size b.size ne
    ]
