-- ===== src/Memory/Alignment.antt =====
-- core/lbu/memory.h: alignment to a power of two.
use lbu.Common.{
  ℕ, ◌+◌, suc, ◌*◌, ◌/◌, ◌-◌, ◌%◌, ◌^◌, ◌≤◌, ◌<◌, ◌≡◌, ◌↔◌, ◌==◌, ==_iff, true, ◌⊎◌, inl, inr,
  ℕ_discrete, arith, ap, ◌∙◌, if◌then◌else◌,
}
use lbu.Common.Words.{sub_word, add_word, sub_word_exact, add_word_exact}
use lbu.Common.Bits.{bit_and_mask, bit_and_complement, pow_pos}
use lbu.Memory.{
  word, size_max, alignment_mask, is_aligned, align_down, align_down_diff, align_up, align_up_diff,
}
use Prim.Native.Nat.{bit_and}
use native.Mathlib.Nat.{
  div-add-mod, mul-add-mod_self_left, mod-eq_of_lt, pow-le-pow_right, pow-suc, mod-lt,
}

pow-le : (k : ℕ) → k < 64 → (2 ^ k + 2 ^ k ≤ 2 ^ 64) × (0 < 2 ^ k)
pow-le k h =
    let top : 2 ^ suc k ≤ 2 ^ 64 =
      pow-le-pow_right {n = 2} (omega arith) {i = suc k} {j = 64} (omega arith) in
    (omega (arith, top, pow-suc 2 k), pow_pos k)

mask_eq : (k : ℕ) → k < 64 → alignment_mask (2 ^ k) ≡ 2 ^ k - 1
unfolding alignment_mask
mask_eq k h = sub_word_exact word (2 ^ k) 1 (omega (arith, pow_pos k)) (omega (arith, pow-le k h))

-- An address is aligned exactly if the alignment divides it.
pub is_aligned_iff :
    (offset k : ℕ) → k < 64 → (is_aligned offset (2 ^ k) ≡ true) ↔ (offset % 2 ^ k ≡ 0)
unfolding is_aligned
is_aligned_iff offset k h = rw (mask_eq k h, bit_and_mask k offset) (==_iff (offset % 2 ^ k) 0)

pub align_down_eq :
    (offset k : ℕ) → k < 64 → offset < word → align_down offset (2 ^ k) ≡ offset - offset % 2 ^ k
unfolding align_down
align_down_eq offset k h lt =
    let e : size_max - alignment_mask (2 ^ k) ≡ 2 ^ 64 - 2 ^ k =
      omega (arith, mask_eq k h, pow-le k h) in
    ap (bit_and offset) e ∙ bit_and_complement k 64 offset (omega arith) lt

pub align_up_eq :
    (offset k : ℕ)
    → k < 64
    → offset ≤ size_max - (2 ^ k - 1)
    → align_up offset (2 ^ k) ≡ offset + (2 ^ k - 1) - (offset + (2 ^ k - 1)) % 2 ^ k
unfolding align_up
align_up_eq offset k h room =
    let p = pow-le k h in
    let e : sub_word word (2 ^ k) 1 ≡ 2 ^ k - 1 =
      sub_word_exact word (2 ^ k) 1 (omega (arith, p)) (omega (arith, p)) in
    let f : add_word word offset (2 ^ k - 1) ≡ offset + (2 ^ k - 1) =
      add_word_exact word offset (2 ^ k - 1) (omega (arith, p)) in
    ap (λ t. align_down (add_word word offset t) (2 ^ k)) e
    ∙ ap (λ t. align_down t (2 ^ k)) f
    ∙ align_down_eq (offset + (2 ^ k - 1)) k h (omega (arith, p))

sub-mod_mod : (a n : ℕ) → 0 < n → (a - a % n) % n ≡ 0
sub-mod_mod a n h =
    let e : a - a % n ≡ n * (a / n) + 0 = omega (arith, div-add-mod a n) in
    ap (λ t. t % n) e ∙ mul-add-mod_self_left n (a / n) 0 ∙ mod-eq_of_lt h

-- Aligning down to a power of two gives the last multiple of it that is not above the address.
pub align_down_lem :
    (offset k : ℕ)
    → k < 64
    → offset < word
    → (align_down offset (2 ^ k) ≤ offset)
      × (offset < align_down offset (2 ^ k) + 2 ^ k)
      × (align_down offset (2 ^ k) % 2 ^ k ≡ 0)
      × (align_down offset (2 ^ k) + align_down_diff offset (2 ^ k) ≡ offset)
unfolding align_down_diff
align_down_lem offset k h lt =
    let p = pow-le k h in
    let q : offset % 2 ^ k < 2 ^ k = mod-lt offset p.1 in
    let r : offset % 2 ^ k ≤ offset = omega arith in
    let d : bit_and offset (alignment_mask (2 ^ k)) ≡ offset % 2 ^ k =
      ap (bit_and offset) (mask_eq k h) ∙ bit_and_mask k offset in
    rw (align_down_eq offset k h lt, d)
      (omega (arith, q, r), omega (arith, q, r), sub-mod_mod offset (2 ^ k) p.1, omega (arith, r))

remainder_up :
    (n offset : ℕ)
    → 0 < n
    → ((offset % n ≡ 0) × ((offset + (n - 1)) % n ≡ n - 1))
      ⊎ ((0 < offset % n) × ((offset + (n - 1)) % n + 1 ≡ offset % n))
remainder_up n offset pos =
    let q = offset / n in
    let d = div-add-mod offset n in
    elim (ℕ_discrete (offset % n) 0) [
      | yes zero_rem ↦
          let e : offset + (n - 1) ≡ n * q + (n - 1) = omega (arith, d, zero_rem) in
          inl (
            zero_rem,
            ap (λ t. t % n) e
                ∙ mul-add-mod_self_left n q (n - 1)
                ∙ mod-eq_of_lt {n = n - 1} {m = n} (omega arith),
          )
      | no some_rem ↦
          let r : offset % n < n = mod-lt offset pos in
          let f : n * (q + 1) ≡ n * q + n = omega arith in
          let e : offset + (n - 1) ≡ n * (q + 1) + (offset % n - 1) = omega (arith, d, f, r) in
          let g : (offset + (n - 1)) % n ≡ offset % n - 1 =
            ap (λ t. t % n) e
            ∙ mul-add-mod_self_left n (q + 1) (offset % n - 1)
            ∙ mod-eq_of_lt {n = offset % n - 1} {m = n} (omega (arith, r)) in
          inr (omega arith, omega (arith, g))
    ]

diff :
    (n offset : ℕ)
    → n < word
    → 0 < n
    → offset + (let tmp = sub_word word n (offset % n) in if tmp == n then 0 else tmp)
      ≡ offset + (n - 1) - (offset + (n - 1)) % n
diff n offset small pos =
    let r : offset % n < n = mod-lt offset pos in
    let s = sub_word_exact word n (offset % n) (omega (arith, r)) small in
    elim (remainder_up n offset pos) [
      | inl (e, f) ↦ ground (arith, s)
      | inr (e, f) ↦ ground (arith, s, r)
    ]

-- Aligning up gives the first multiple that is not below, where the sum does not wrap, and
-- `align_up_diff` is the distance to it.
pub align_up_lem :
    (offset k : ℕ)
    → k < 64
    → offset ≤ size_max - (2 ^ k - 1)
    → (offset ≤ align_up offset (2 ^ k))
      × (align_up offset (2 ^ k) < offset + 2 ^ k)
      × (align_up offset (2 ^ k) % 2 ^ k ≡ 0)
      × (offset + align_up_diff offset (2 ^ k) ≡ align_up offset (2 ^ k))
unfolding align_up_diff
align_up_lem offset k h room =
    let p = pow-le k h in
    let t = offset + (2 ^ k - 1) in
    let q : t % 2 ^ k < 2 ^ k = mod-lt t p.1 in
    let r : t % 2 ^ k ≤ t = omega arith in
    let d : bit_and offset (alignment_mask (2 ^ k)) ≡ offset % 2 ^ k =
      ap (bit_and offset) (mask_eq k h) ∙ bit_and_mask k offset in
    rw (align_up_eq offset k h room) (
      omega (arith, q, r),
      omega (arith, q, r),
      sub-mod_mod t (2 ^ k) p.1,
      ap (λ r'. offset + (let tmp = sub_word word (2 ^ k) r' in if tmp == 2 ^ k then 0 else tmp)) d
          ∙ diff (2 ^ k) offset (omega (arith, p)) p.1,
    )
