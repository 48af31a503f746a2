-- ===== src/Memory.antt =====
-- core/lbu/memory.h: alignment of addresses, and the layout of dynamic structures.
pub mod Alignment
pub mod Layout
use Prim.Native.Nat.{bit_and}
use lbu.Common.{ℕ, ◌+◌, ◌-◌, ◌^◌, Bool, ltb, ◌==◌, ◌&&◌, max, if◌then◌else◌}
use lbu.Common.Words.{add_word, sub_word}
use lbu.Math.{is_pow2}

-- `uintptr_t` and `size_t` have 64 bits.
abbrev pub word : ℕ
word = 2 ^ 64

abbrev pub size_max : ℕ
size_max = 2 ^ 64 - 1

unfoldable pub alignment_mask : ℕ → ℕ
alignment_mask alignment = sub_word word alignment 1

unfoldable pub is_aligned : ℕ → ℕ → Bool
unfolding alignment_mask
is_aligned offset alignment = bit_and offset (alignment_mask alignment) == 0

-- `~mask` is `size_max - mask`.
unfoldable pub align_down : ℕ → ℕ → ℕ
unfolding alignment_mask
align_down offset alignment = bit_and offset (size_max - alignment_mask alignment)

unfoldable pub align_down_diff : ℕ → ℕ → ℕ
unfolding alignment_mask
align_down_diff offset alignment = bit_and offset (alignment_mask alignment)

unfoldable pub align_up : ℕ → ℕ → ℕ
unfolding align_down
align_up offset alignment = align_down (add_word word offset (sub_word word alignment 1)) alignment

unfoldable pub align_up_diff : ℕ → ℕ → ℕ
unfolding align_down_diff
align_up_diff offset alignment =
    let tmp = sub_word word alignment (align_down_diff offset alignment) in
    if tmp == alignment then 0 else tmp

pub record BufferSpec : Type 0 where
  pub size : ℕ
  pub align : ℕ

-- `buffer_spec()`, which a `dynamic_struct` starts from
abbrev pub empty : BufferSpec
empty = record { size = 0; align = 1 }

unfoldable pub is_valid : BufferSpec → Bool
is_valid s = ltb s.size size_max && is_pow2 s.align

-- The spec of the structure, the offset of the new member, and what is added to `align_padding`.
pub record Added : Type 0 where
  pub spec : BufferSpec
  pub offset : ℕ
  pub padding : ℕ

unfoldable pub add_member_raw : BufferSpec → BufferSpec → Added
add_member_raw spec s =
    let off =
      if ltb (size_max - (s.align - 1)) spec.size then size_max else align_up spec.size s.align in
    record {
      spec = record {
        size = if ltb (size_max - s.size) off then size_max else off + s.size;
        align = max spec.align s.align;
      };
      offset = off;
      padding = off - spec.size;
    }

unfoldable pub add_align_padding : BufferSpec → ℕ → BufferSpec
add_align_padding spec alignment = record spec {
  size =
      if ltb (size_max - (alignment - 1)) spec.size then size_max else align_up spec.size alignment;
}

unfoldable pub resolve : ℕ → ℕ → ℕ
resolve ptr offset = ptr + offset
