-- ===== src/ByteBuffer/Shorter.antt =====
-- core/lbu/byte_buffer.h: what erasing and cutting off do to the bytes that a reader sees.
use lbu.Common.{
  ℕ, ◌+◌, ◌-◌, ◌/◌, ◌%◌, ◌^◌, ◌≤◌, ◌<◌, ◌≡◌, ◌≢◌, List, ◌++◌, length, take, drop, arith, refl, sym,
  ap, ap₂, ◌∙◌, ltb, if◌then◌else◌, dec_le, min, length-take, length-drop, length-append,
}
use lbu.Common.Bytes.{write, length-write, take-write, take-take, drop-take}
use lbu.ByteBuffer.{ByteBuffer, small, ext, char_data, size, ref, erase, chop, u32_bytes}
use lbu.ByteBuffer.Valid.{IsValid, valid-Bounds, set_size_checked-State}
use lbu.ByteBuffer.Insert.{ref_of_State, ref_lem, length-ref}

rest_of_erase :
    (n : ℕ) (block : List ℕ) (i count : ℕ)
    → i ≤ n
    → take (n - (i + min (n - i) count)) (drop (i + min (n - i) count) block)
      ≡ drop (i + count) (take n block)
rest_of_erase n block i count h = elim (dec_le count (n - i)) [
  | yes le ↦
      let e : min (n - i) count ≡ count = omega arith in rw e (sym (drop-take (i + count) n block))
  | no gt ↦
      let e : n - (i + min (n - i) count) ≡ 0 = omega arith in
      let f : n - (i + count) ≡ 0 = omega arith in rw (drop-take (i + count) n block, e, f)
]

-- Erasing from a valid buffer with a block, at an index inside it, keeps it valid and leaves
-- exactly the bytes before the index and those behind the erased ones.
pub erase_ext_lem :
    (reserved n : ℕ) (block : List ℕ) (i count : ℕ)
    → IsValid (ext reserved n block)
    → i ≤ n
    → IsValid (erase (ext reserved n block) i count)
      × (ref (erase (ext reserved n block) i count)
          ≡ take i (ref (ext reserved n block)) ++ drop (i + count) (ref (ext reserved n block)))
unfolding erase ref
erase_ext_lem reserved n block i count v h =
    let k = min (n - i) count in
    let rest = take (n - (i + k)) (drop (i + k) block) in
    let r : length rest ≡ n - (i + k) =
      omega (arith, length-take (n - (i + k)) (drop (i + k) block), length-drop (i + k) block) in
    let z = length-write block i rest (omega arith) in
    (
      omega (arith, z),
      take-write ((n - k) % 2 ^ 32) block i rest (omega arith) (omega arith)
          ∙ ap₂ ◌++◌ (sym (take-take i n block h)) (rest_of_erase n block i count h),
    )

-- Erasing at least one byte of a valid small buffer does not: the size stays as it was, so the
-- bytes seen are never those that should be left.
pub erase-small-ne-rest :
    (tag : ℕ) (bytes : List ℕ) (i count : ℕ)
    → IsValid (small tag bytes)
    → i < size (small tag bytes)
    → 0 < count
    → (size (erase (small tag bytes) i count) ≡ size (small tag bytes))
      × (ref (erase (small tag bytes) i count)
          ≢ take i (ref (small tag bytes)) ++ drop (i + count) (ref (small tag bytes)))
unfolding erase size
erase-small-ne-rest tag bytes i count v h k =
    let moved =
      take (tag / 2 - (i + min (tag / 2 - i) count)) (drop (i + min (tag / 2 - i) count) bytes) in
    let r : length moved ≡ tag / 2 - (i + min (tag / 2 - i) count) = omega (
      arith,
      length-take (tag / 2 - (i + min (tag / 2 - i) count))
          (drop (i + min (tag / 2 - i) count) bytes),
      length-drop (i + min (tag / 2 - i) count) bytes,
    ) in
    let z = length-write bytes i moved (omega arith) in
    let y =
      length-write (write bytes i moved) 3 (u32_bytes (tag / 2 - min (tag / 2 - i) count))
        (omega arith) in
    let seen =
      length-ref
        (small tag (write (write bytes i moved) 3 (u32_bytes (tag / 2 - min (tag / 2 - i) count))))
        (omega (arith, y)) in
    (
      refl,
      λ e. omega (
        arith,
        seen,
        ap length e,
        length-append (take i (ref (small tag bytes))) (drop (i + count) (ref (small tag bytes))),
        length-take i (ref (small tag bytes)),
        length-drop (i + count) (ref (small tag bytes)),
        length-ref (small tag bytes) v,
      ),
    )

-- Cutting bytes off the end of a valid buffer keeps it valid and leaves the first ones; asked for
-- more than there are, it leaves none.
pub chop_lem :
    (b : ByteBuffer) (count : ℕ)
    → IsValid b
    → IsValid (chop b count) × (ref (chop b count) ≡ take (size b - count) (ref b))
unfolding chop
chop_lem b count v =
    let w = valid-Bounds b v in
    let n = (if ltb (size b) count then 0 else size b - count) in
    let e : n ≡ size b - count = ground arith in
    let q = set_size_checked-State b n v (ground arith) in
    (
      q.valid,
      ref_of_State q
          ∙ ap (λ k. take k (char_data b)) e
          ∙ sym (
              ap (take (size b - count)) (ref_lem b)
              ∙ take-take (size b - count) (size b) (char_data b) (omega arith)),
    )
