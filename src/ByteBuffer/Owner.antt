-- ===== src/ByteBuffer/Owner.antt =====
-- core/lbu/byte_buffer.h: construction, copies, moves, and blocks taken over and given away.
use lbu.Common.{ℕ, List, Option, none, some, leb, if◌then◌else◌, length}
use lbu.ByteBuffer.{
  ByteBuffer, small, ext, small_tag, small_reserved, fresh, set_small, set_ext, ref,
}

module _ (junk : ℕ → ℕ) where
  -- `byte_buffer()`
  abbrev pub empty : ByteBuffer
  empty = small 1 (fresh junk small_reserved)

  -- `byte_buffer(array_ref<const void>)`
  unfoldable pub construct : List ℕ → ByteBuffer
  unfolding set_small set_ext
  construct bytes =
      let s = length bytes in
      if leb s small_reserved then set_small junk bytes s else set_ext bytes s s

  -- `byte_buffer(const byte_buffer&)`; the assignment moves from such a copy.
  unfoldable pub copy : ByteBuffer → ByteBuffer
  unfolding construct ref
  copy other = construct (ref other)

  -- `move_from`: the new value of `*this`, and that of `other`
  unfoldable pub move_from : ByteBuffer → ByteBuffer × ByteBuffer
  unfolding fresh
  move_from (small tag bytes) = (small tag bytes, small tag bytes)
  move_from (ext reserved n block) =
      (ext reserved n block, small (small_tag 0) (fresh junk small_reserved))

  unfoldable pub adopt_raw_malloc : List ℕ → ℕ → ℕ → ByteBuffer
  unfolding set_small set_ext
  adopt_raw_malloc block n cap =
      if leb cap small_reserved then set_small junk block n else set_ext block n cap

  unfoldable pub release_raw_malloc : ByteBuffer → Option (List ℕ) × ByteBuffer
  unfolding fresh
  release_raw_malloc (small tag bytes) = (none, small tag bytes)
  release_raw_malloc (ext reserved n block) =
      (some block, small (small_tag 0) (fresh junk small_reserved))
