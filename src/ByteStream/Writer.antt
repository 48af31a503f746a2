-- ===== src/ByteStream/Writer.antt =====
-- core/byte_buffer_stream.cpp: `byte_buffer_output_stream`.
use lbu.Common.{
  ℕ, ◌-◌, ◌%◌, ◌^◌, List, Option, none, some, Bool, true, false, ltb, leb, ◌==◌, ◌&&◌, length,
  if◌then◌else◌,
}
use lbu.Common.Words.{add_word, sub_word}
use lbu.ByteBuffer.{ByteBuffer, max_size, size, capacity, poke, append_commit, auto_grow_reserve}
use lbu.ByteBuffer.Growth.{append}
use lbu.ByteBuffer.Owner.{empty}

-- `buffer_base_ptr` is the data of the buffer, into which the stream writes from `buffer_offset` on.
pub record ByteBufferOutputStream : Type 0 where
  pub buffer : ByteBuffer
  pub buffer_offset : ℕ
  pub buffer_available : ℕ
  pub has_error : Bool

unfoldable pub sync_state : ByteBufferOutputStream → ByteBufferOutputStream
sync_state s = record s {
  buffer_offset = size s.buffer % 2 ^ 32;
  buffer_available = (capacity s.buffer - size s.buffer) % 2 ^ 32;
}

-- `buffer.append_commit(buffer_offset - buffer.size())`
unfoldable pub commit : ByteBufferOutputStream → ByteBufferOutputStream
commit s = record s {
  buffer = append_commit s.buffer (sub_word (2 ^ 64) s.buffer_offset (size s.buffer));
}

-- The new value of the stream; `buf` has been moved from.
unfoldable pub reset : ByteBufferOutputStream → ByteBuffer → ByteBufferOutputStream
unfolding sync_state
reset s buf = record (sync_state (record s { buffer = buf })) { has_error = false }

-- `advance_buffer`
unfoldable pub advance : ByteBufferOutputStream → ℕ → ByteBufferOutputStream
advance s count = record s {
  buffer_offset = add_word (2 ^ 32) s.buffer_offset count;
  buffer_available = sub_word (2 ^ 32) s.buffer_available count;
}

module _ (junk : ℕ → ℕ) where
  -- The default constructor
  abbrev pub byte_buffer_output_stream : ByteBufferOutputStream
  byte_buffer_output_stream = record {
    buffer = empty junk;
    buffer_offset = 0;
    buffer_available = 0;
    has_error = false;
  }

  -- The return value, where `none` is -1, and the stream afterwards.
  unfoldable pub write_stream : ByteBufferOutputStream → List ℕ → Option ℕ × ByteBufferOutputStream
  unfolding commit sync_state
  write_stream s bytes =
      let c = commit s in
      let result : Option ℕ × ByteBufferOutputStream =
        if ltb (length bytes) (max_size - size c.buffer)
        then (none, record c { has_error = true })
        else (some (length bytes), sync_state (record c { buffer = append junk c.buffer bytes })) in
      if s.has_error then (none, s) else result

  -- The room offered is that from `buffer_offset` on.
  unfoldable pub get_write_buffer : ByteBufferOutputStream → ByteBufferOutputStream
  unfolding sync_state
  get_write_buffer s =
      let t = sync_state (record s { buffer = auto_grow_reserve junk s.buffer }) in
      if s.has_error
      then s
      else record t { has_error = if t.buffer_available == 0 then true else t.has_error }

  unfoldable pub write_buffer_flush : ByteBufferOutputStream → Bool × ByteBufferOutputStream
  unfolding commit
  write_buffer_flush s = if s.has_error then (false, s) else (true, commit s)

  -- `abstract_output_stream::write`, in either mode
  unfoldable pub write : ByteBufferOutputStream → List ℕ → Option ℕ × ByteBufferOutputStream
  unfolding advance
  write s bytes =
      if leb (length bytes) s.buffer_available && ltb 0 s.buffer_available
      then (
        some (length bytes),
        advance (record s { buffer = poke s.buffer s.buffer_offset bytes }) (length bytes),
      )
      else write_stream s bytes
