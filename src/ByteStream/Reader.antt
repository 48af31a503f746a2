-- ===== src/ByteStream/Reader.antt =====
-- core/byte_buffer_stream.cpp: `byte_buffer_input_stream`.
use lbu.Common.{
  ℕ, ◌-◌, ◌^◌, List, [], Option, none, some, Bool, true, false, ltb, leb, ◌&&◌, length, take, drop,
  if◌then◌else◌,
}
use lbu.Common.Words.{add_word, sub_word}

-- The bytes that `buffer_base_ptr` points to are given by themselves. The status is an error, the
-- end, or neither.
pub record ByteBufferInputStream : Type 0 where
  pub buffer_base_ptr : List ℕ
  pub buffer_offset : ℕ
  pub buffer_available : ℕ
  pub has_error : Bool
  pub at_end : Bool

unfoldable pub reset : List ℕ → ByteBufferInputStream
reset buf =
    let fits = leb (length buf) (2 ^ 32 - 1) in
    record {
      buffer_base_ptr = buf;
      buffer_offset = 0;
      buffer_available = if fits then length buf else 0;
      has_error = if fits then false else true;
      at_end = false;
    }

-- `current_buffer()`
unfoldable pub current_buffer : ByteBufferInputStream → List ℕ
current_buffer s = take s.buffer_available (drop s.buffer_offset s.buffer_base_ptr)

-- `advance`
unfoldable pub advance : ByteBufferInputStream → ℕ → ByteBufferInputStream
advance s count = record s {
  buffer_offset = add_word (2 ^ 32) s.buffer_offset count;
  buffer_available = sub_word (2 ^ 32) s.buffer_available count;
}

-- The return value, where `none` is -1, the bytes stored in the caller's buffer from its start on,
-- and the stream afterwards.
abbrev pub Read : Type 0
Read = Option ℕ × List ℕ × ByteBufferInputStream

-- The size of the vector is asserted to be greater than what is available, unless that is 0.
unfoldable pub read_stream : ByteBufferInputStream → Read
unfolding current_buffer
read_stream s = if s.has_error then (none, [], s) else (
  some s.buffer_available,
  (if ltb 0 s.buffer_available then current_buffer s else []),
  record s { buffer_available = 0; has_error = false; at_end = true },
)

-- `get_read_buffer` stores the end whatever the status was.
unfoldable pub get_read_buffer : ByteBufferInputStream → List ℕ × ByteBufferInputStream
get_read_buffer s = ([], record s { has_error = false; at_end = true })

-- `abstract_input_stream::read`, in either mode
unfoldable pub read : ByteBufferInputStream → ℕ → Read
unfolding advance read_stream
read s size =
    if leb size s.buffer_available && ltb 0 s.buffer_available
    then (some size, take size (drop s.buffer_offset s.buffer_base_ptr), advance s size)
    else read_stream s
