-- ===== src/ByteBuffer/Transfer.antt =====
-- core/lbu/byte_buffer.h: the bytes that construction, copies and moves carry over.
use lbu.Common.{
  ℕ, ◌≤◌, ◌<◌, ◌≡◌, ◌==◌, false, List, inl, inr, some, Bool-cases, leb, length, take, arith, refl,
  max, if◌then◌else◌,
}
use lbu.Common.Bytes.{take_whole}
use lbu.ByteBuffer.{ByteBuffer, small, ext, max_size, small_reserved, size, capacity, ref}
use lbu.ByteBuffer.Owner.{construct, copy, move_from, adopt_raw_malloc, release_raw_malloc}
use lbu.ByteBuffer.Valid.{IsValid, valid-Bounds, set_ext-State, length-fresh}
use lbu.ByteBuffer.Insert.{length-ref}
use lbu.ByteBuffer.Storage.{Shows, same_Shows, set_small-Shows, of_State}

module _ (junk : ℕ → ℕ) where
  -- A buffer made from bytes, no more than the maximal size, is valid and shows exactly these.
  pub construct_lem :
      (bytes : List ℕ)
      → length bytes ≤ max_size
      → Shows (construct junk bytes) bytes (max small_reserved (length bytes))
  unfolding construct
  construct_lem bytes h = elim (Bool-cases (leb (length bytes) small_reserved)) [
    | inl fits ↦ rw fits (
        same_Shows (set_small-Shows junk bytes (length bytes) (omega arith) (ground arith))
          (take_whole (length bytes) bytes (omega arith)) (ground arith))
    | inr large ↦ rw large (
        same_Shows
          (of_State
            (set_ext-State bytes (length bytes) (length bytes) (omega arith) (ground arith) h refl))
          (take_whole (length bytes) bytes (omega arith)) (ground arith))
  ]

  -- A copy of a valid buffer is valid, shows the same bytes, and has no more capacity than they
  -- and the small storage need.
  pub copy_lem :
      (b : ByteBuffer) → IsValid b → Shows (copy junk b) (ref b) (max small_reserved (size b))
  unfolding copy
  copy_lem b v =
      let n = length-ref b v in
      let w = valid-Bounds b v in
      same_Shows (construct_lem (ref b) (omega (arith, w))) refl (omega arith)

  -- Moving out of a valid buffer hands its whole state over, and leaves a valid buffer: an empty
  -- one if a block was moved, and the same one if the bytes were in the small storage.
  pub move_from_lem :
      (b : ByteBuffer)
      → IsValid b
      → ((move_from junk b).0 ≡ b)
        × IsValid (move_from junk b).1
        × (size (move_from junk b).1 ≡ (if capacity b == small_reserved then size b else 0))
  unfolding move_from size capacity
  move_from_lem (small tag bytes) v = (refl, v, refl)
  move_from_lem (ext reserved n block) v =
      (refl, omega (arith, length-fresh junk small_reserved), ground arith)

  -- A block taken over with the capacity that it has, no more than the maximal size, gives a valid
  -- buffer that shows its first bytes.
  pub adopt_raw_malloc_lem :
      (block : List ℕ) (n c : ℕ)
      → n ≤ c
      → length block ≡ c
      → c ≤ max_size
      → Shows (adopt_raw_malloc junk block n c) (take n block) (max small_reserved c)
  unfolding adopt_raw_malloc
  adopt_raw_malloc_lem block n c h e l = elim (Bool-cases (leb c small_reserved)) [
    | inl fits ↦
        rw fits (
          same_Shows (set_small-Shows junk block n (omega arith) (ground arith)) refl
            (ground arith))
    | inr large ↦
        rw large
          (same_Shows (of_State (set_ext-State block n c h (ground arith) l e)) refl (ground arith))
  ]

  -- A block too large for the small storage that is taken over and given away again is the same
  -- block, and an empty buffer stays behind.
  pub release-adopt :
      (block : List ℕ) (n c : ℕ)
      → small_reserved < c
      → ((release_raw_malloc junk (adopt_raw_malloc junk block n c)).0 ≡ some block)
        × (size (release_raw_malloc junk (adopt_raw_malloc junk block n c)).1 ≡ 0)
  unfolding adopt_raw_malloc release_raw_malloc size
  release-adopt block n c h =
      let e : leb c small_reserved ≡ false = ground arith in rw e (refl, refl)
