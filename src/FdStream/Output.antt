-- ===== src/FdStream/Output.antt =====
-- core/fd_stream.cpp: `fd_output_stream`, with the operations of core/lbu/abstract_stream.h that it
-- inherits.
use lbu.Common.{
  ℕ, zero, suc, Option, none, some, Bool, true, false, ◌&&◌, leb, ltb, ◌==◌, min, ◌+◌, ◌-◌, ◌^◌,
  List, [], ◌∷◌, length, if◌then◌else◌,
}
use lbu.Common.Words.{sub_word, add_word}
use lbu.ArrayRef.{ArrayRef, is_valid, array_ref_content_copy}
use lbu.Io.{IoVector, moved, failed, io_vector_array_size_sum, io_vector_array_advance}
use lbu.FdStream.{
  Mode, blocking, non_blocking, FdBlockingState, eagain, u32_max, update_blocking, Device, writev,
}

-- `status_flags` of an output stream over a descriptor is `StatusError` or nothing.
pub record OutputStream : Type 0 where
  pub manages_buffer : Bool
  pub buffer_base_ptr : ℕ
  pub buffer_offset : ℕ
  pub buffer_available : ℕ
  pub has_error : Bool
  pub fd_blocking : FdBlockingState
  pub filedes : Option ℕ
  pub buffer_capacity : ℕ
  pub buffer_write_offset : ℕ
  pub err : ℕ

unfoldable pub reset_buffer : OutputStream → OutputStream
reset_buffer s = record s {
  buffer_offset = 0;
  buffer_write_offset = 0;
  buffer_available = s.buffer_capacity;
}

abbrev pub has_descriptor : Option ℕ → Bool
has_descriptor none = false
has_descriptor (some f) = true

unfoldable pub set_descriptor : OutputStream → Option ℕ → FdBlockingState → OutputStream
unfolding reset_buffer
set_descriptor s f b =
    let r = reset_buffer (record s { filedes = f; fd_blocking = b; err = 0 }) in
    record r {
      buffer_available = if has_descriptor f then r.buffer_available else 0;
      has_error = false;
    }

-- The constructor
unfoldable pub fd_output_stream : ArrayRef → Option ℕ → FdBlockingState → OutputStream
unfolding set_descriptor is_valid
fd_output_stream buffer f b =
    set_descriptor
      (record {
        manages_buffer = is_valid buffer;
        buffer_base_ptr = buffer.begin;
        buffer_offset = 0;
        buffer_available = 0;
        has_error = false;
        fd_blocking = b;
        filedes = f;
        buffer_capacity = min buffer.size u32_max;
        buffer_write_offset = 0;
        err = 0;
      })
      f b

-- `err = e; set_flag_return_error(&status_flags, StatusError)`
abbrev pub fail_with : OutputStream → ℕ → OutputStream
fail_with s e = record s { has_error = true; err = e }

-- The loop `while( count < sum )` of a blocking write: the error that ended it, if any. `none`
-- means that the fuel ran out or a call has not returned.
unfoldable pub write_loop :
    (ℕ → ℕ) → ℕ → List IoVector → ℕ → ℕ → Device → Option (Option ℕ × Device)
write_loop memory zero vs count sum d = none
write_loop memory (suc fuel) vs count sum d =
    let next : Option (Option ℕ × Device) = elim (writev memory vs d) [
      | none ↦ none
      | some (failed e, d') ↦ some (some e, d')
      | some (moved r, d') ↦
          write_loop memory fuel (io_vector_array_advance vs r) (count + r) sum d'
    ] in
    if ltb count sum then next else some (none, d)

-- `internal_write_size`
abbrev pub internal_write_size : OutputStream → ℕ
internal_write_size s =
    if s.manages_buffer then sub_word (2 ^ 32) s.buffer_offset s.buffer_write_offset else 0

-- `buf_array[0]`, where the assertion holds that there is one
abbrev pub first_vector : List IoVector → List IoVector
first_vector [] = []
first_vector (v ∷ vs) = v ∷ []

-- The vectors that are written: the bytes of the internal buffer, if there are any, go before the
-- first of the caller's, the only one where the stream manages a buffer.
unfoldable pub with_internal : OutputStream → List IoVector → List IoVector
with_internal s vs =
    let n = internal_write_size s in
    let internal : IoVector = record {
      iov_base = s.buffer_base_ptr + s.buffer_write_offset;
      iov_len = n;
    } in
    if ltb 0 n then internal ∷ first_vector vs else vs

-- The result: the return value, where `none` is a negative one, with the stream and the file
-- afterwards.
abbrev pub Written : Type 0
Written = Option (Option ℕ × OutputStream × Device)

-- `sum` is converted to `ssize_t`: from 2 ^ 63 on it is negative, the loop is not entered, and what
-- is returned is negative.
unfoldable pub write_blocking : (ℕ → ℕ) → List IoVector → OutputStream → Device → Written
unfolding write_loop reset_buffer
write_blocking memory vs s d =
    let sum = io_vector_array_size_sum vs 0 in
    let flushed : OutputStream = if s.manages_buffer then reset_buffer s else s in
    let looped : Written = elim (write_loop memory (suc (length d.script)) vs 0 sum d) [
      | none ↦ none
      | some (some e, d') ↦ some (none, fail_with (record s { buffer_available = 0 }) e, d')
      | some (none, d') ↦ some (some (sum - internal_write_size s), flushed, d')
    ] in
    if leb (2 ^ 63) sum then some (none, flushed, d) else looped

unfoldable pub write_non_blocking : (ℕ → ℕ) → List IoVector → OutputStream → Device → Written
unfolding reset_buffer
write_non_blocking memory vs s d = elim (writev memory vs d) [
  | none ↦ none
  | some (moved r, d') ↦ some (
      if leb (internal_write_size s) r
      then (some (r - internal_write_size s), (if s.manages_buffer then reset_buffer s else s), d')
      else (
        some 0,
        record s { buffer_write_offset = add_word (2 ^ 32) s.buffer_write_offset r },
        d',
      ))
  | some (failed e, d') ↦ some (
      if e == eagain
      then (some 0, s, d')
      else (none, fail_with (record s { buffer_available = 0 }) e, d'))
]

-- `advance_buffer`
unfoldable pub advance : OutputStream → ℕ → OutputStream
advance s count = record s {
  buffer_offset = add_word (2 ^ 32) s.buffer_offset count;
  buffer_available = sub_word (2 ^ 32) s.buffer_available count;
}

module _ (set_nonblock : Bool → Option ℕ) (memory : ℕ → ℕ) where
  unfoldable pub write_fd : List IoVector → Mode → OutputStream → Device → Written
  unfolding update_blocking
  write_fd vs mode s d =
      let all = with_internal s vs in
      let run : Written = elim (update_blocking mode s.fd_blocking set_nonblock) [
        | some e ↦ some (none, fail_with s e, d)
        | none ↦ elim mode [
          | blocking ↦ write_blocking memory all s d
          | non_blocking ↦ write_non_blocking memory all s d
        ]
      ] in
      if s.has_error then some (none, s, d) else run

  -- `buffer_flush`, with its result in place of the return value
  unfoldable pub buffer_flush : Mode → OutputStream → Device → Option (Bool × OutputStream × Device)
  buffer_flush mode s d = elim (write_fd (record { iov_base = 0; iov_len = 0 } ∷ []) mode s d) [
    | none ↦ none
    | some (none, s', d') ↦ some (false, s', d')
    | some (some n, s', d') ↦ some (s'.buffer_offset == 0, s', d')
  ]

  -- `abstract_output_stream::write`, whose `write_stream` is `write_fd`; also the memory afterwards.
  unfoldable pub write : ArrayRef → Mode → OutputStream → Device → Written × (ℕ → ℕ)
  unfolding advance array_ref_content_copy
  write buf mode s d =
      let dst : ArrayRef = record {
        begin = s.buffer_base_ptr + s.buffer_offset;
        size = s.buffer_available;
      } in
      if leb buf.size s.buffer_available && ltb 0 s.buffer_available
      then (some (some buf.size, advance s buf.size, d), array_ref_content_copy memory dst buf)
      else (write_fd (record { iov_base = buf.begin; iov_len = buf.size } ∷ []) mode s d, memory)

  -- `abstract_output_stream::flush_buffer`
  unfoldable pub flush_buffer : Mode → OutputStream → Device → Option (Bool × OutputStream × Device)
  flush_buffer mode s d = if s.manages_buffer then buffer_flush mode s d else some (true, s, d)
