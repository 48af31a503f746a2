-- ===== src/ByteBuffer/Growth.antt =====
-- core/lbu/byte_buffer.h: the operations that make a buffer longer. An operation that hands out a
-- reference to uninitialised bytes returns the buffer; the caller's store is `poke`.
use lbu.Common.{ℕ, ◌+◌, ◌-◌, ◌/◌, List, leb, ltb, if◌then◌else◌, length, take, drop, replicate}
use lbu.Common.Bytes.{write}
use lbu.ByteBuffer.{
  ByteBuffer, small, ext, size, capacity, char_data, set_ext, set_size_checked, grow_capacity, poke,
  fresh, realloc,
}

module _ (junk : ℕ → ℕ) where
  -- `append_base` where the bytes do not fit
  unfoldable pub grow : ByteBuffer → ℕ → ℕ → ByteBuffer
  unfolding fresh write realloc set_ext
  grow (small tag bytes) new_size new_capacity =
      set_ext (write (fresh junk new_capacity) 0 (take (tag / 2) bytes)) new_size new_capacity
  grow (ext reserved n block) new_size new_capacity =
      set_ext (realloc junk block new_capacity) new_size new_capacity

  unfoldable pub append_base : ByteBuffer → ℕ → ByteBuffer
  unfolding size capacity grow_capacity grow set_size_checked
  append_base b count =
      let new_size = size b + count in
      if ltb (capacity b) new_size
      then grow b new_size (grow_capacity b new_size)
      else set_size_checked b new_size

  unfoldable pub append : ByteBuffer → List ℕ → ByteBuffer
  unfolding append_base poke size
  append b bytes = poke (append_base b (length bytes)) (size b) bytes

  unfoldable pub append_fill : ByteBuffer → ℕ → ℕ → ByteBuffer
  unfolding append_base poke size
  append_fill b count ch = poke (append_base b count) (size b) (replicate count ch)

  unfoldable pub resize : ByteBuffer → ℕ → ByteBuffer
  unfolding append_fill set_size_checked size
  resize b count =
      let s = size b in
      if ltb s count then append_fill b (count - s) 0 else set_size_checked b count

  unfoldable pub insert_uninitialized : ByteBuffer → ℕ → ℕ → ByteBuffer
  unfolding size capacity poke set_size_checked grow_capacity fresh write set_ext
  insert_uninitialized b index count =
      let old_size = size b in
      let new_size = old_size + count in
      let c = char_data b in
      let behind = take (old_size - index) (drop index c) in
      let new_capacity = grow_capacity b new_size in
      if leb count (capacity b - old_size)
      then set_size_checked (poke b (index + count) behind) new_size
      else set_ext (write (write (fresh junk new_capacity) 0 (take index c)) (index + count) behind)
          new_size new_capacity

  unfoldable pub insert : ByteBuffer → ℕ → List ℕ → ByteBuffer
  unfolding insert_uninitialized poke
  insert b index bytes = poke (insert_uninitialized b index (length bytes)) index bytes

  unfoldable pub insert_fill : ByteBuffer → ℕ → ℕ → ℕ → ByteBuffer
  unfolding insert_uninitialized poke
  insert_fill b index count ch =
      poke (insert_uninitialized b index count) index (replicate count ch)
