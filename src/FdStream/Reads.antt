-- ===== src/FdStream/Reads.antt =====
-- core/fd_stream.cpp: the reads of `fd_input_stream`.
use lbu.Common.{
  ℕ, zero, suc, Option, none, some, Bool, true, false, not, ◌&&◌, ◌||◌, leb, ltb, ◌==◌, ◌+◌, ◌-◌,
  ◌^◌, ◌%◌, List, [], ◌∷◌, length, if◌then◌else◌,
}
use lbu.ArrayRef.{ArrayRef, array_ref_content_copy}
use lbu.ArrayRef
use lbu.Io.{IoVector, moved, failed, io_vector_array_advance}
use lbu.FdStream.{Mode, blocking, non_blocking, einval, eagain, update_blocking}
use lbu.FdStream.Input.{
  InputStream, Source, readv, add_error, only_error, only_end, ReadResult, read_loop,
}

-- `buf_array[0].iov_len`
abbrev pub first_len : List IoVector → ℕ
first_len [] = 0
first_len (v ∷ vs) = v.iov_len

-- The available bytes are copied to the caller's buffer, which goes on behind them.
unfoldable pub take_buffered : List IoVector → InputStream → (ℕ → ℕ) → List IoVector × (ℕ → ℕ)
unfolding array_ref_content_copy
take_buffered [] s memory = ([], memory)
take_buffered (u ∷ vs) s memory =
    let n = s.buffer_available in
    if s.manages_buffer && ltb 0 n
    then (
      io_vector_array_advance (u ∷ vs) n,
      array_ref_content_copy memory (record { begin = u.iov_base; size = u.iov_len })
          (record { begin = s.buffer_base_ptr + s.buffer_offset; size = n }),
    )
    else (u ∷ vs, memory)

-- The internal buffer is filled as well if the caller's does not have more room.
unfoldable pub with_buffer : List IoVector → InputStream → List IoVector
with_buffer [] s = []
with_buffer (u ∷ vs) s =
    if s.manages_buffer && leb u.iov_len s.buffer_capacity
    then u ∷ record { iov_base = s.buffer_base_ptr; iov_len = s.buffer_capacity } ∷ []
    else u ∷ vs

abbrev pub mode_of : ℕ → Mode
mode_of required = if ltb 0 required then blocking else non_blocking

module _ (set_nonblock : Bool → Option ℕ) where
  unfoldable pub read_stream : List IoVector → ℕ → InputStream → (ℕ → ℕ) → Source → ReadResult
  unfolding update_blocking take_buffered with_buffer read_loop
  read_stream vs required s memory src =
      let mode = mode_of required in
      let buffer_read = if s.manages_buffer then s.buffer_available else 0 in
      let (vs', memory') = take_buffered vs s memory in
      let s' = record s { buffer_available = if s.manages_buffer then 0 else s.buffer_available } in
      let vs'' = with_buffer vs' s' in
      let run : ReadResult =
        if not s.manages_buffer && length vs == 0
        then some (some 0, s, memory, src)
        else read_loop mode buffer_read (first_len vs'') (required - buffer_read)
            (suc (length src.script)) vs'' 0 s' memory' src in
      let start : ReadResult = elim (update_blocking mode s.fd_blocking set_nonblock) [
        | some e ↦ some (none, add_error s e, memory, src)
        | none ↦ run
      ] in
      let ended : ReadResult = some (
        if required == 0 || s.manages_buffer
        then (some 0, s, memory, src)
        else (none, add_error s einval, memory, src)) in
      if s.has_error then some (none, s, memory, src) else if s.at_end then ended else start

  -- The reference returned, and the stream, the memory and the file afterwards.
  unfoldable pub get_read_buffer :
      Mode → InputStream → (ℕ → ℕ) → Source → Option (ArrayRef × InputStream × (ℕ → ℕ) × Source)
  unfolding update_blocking readv
  get_read_buffer mode s memory src =
      let whole : IoVector = record { iov_base = s.buffer_base_ptr; iov_len = s.buffer_capacity } in
      let run : Option (ArrayRef × InputStream × (ℕ → ℕ) × Source) =
        elim (readv memory (whole ∷ []) src) [
          | none ↦ none
          | some (failed e, memory', src') ↦ some (
              if e == eagain && elim mode [ blocking ↦ false | non_blocking ↦ true ]
              then (ArrayRef.empty, s, memory', src')
              else (ArrayRef.empty, only_error s e, memory', src'))
          | some (moved zero, memory', src') ↦ some (ArrayRef.empty, only_end s, memory', src')
          | some (moved (suc r), memory', src') ↦ some (
            record { begin = s.buffer_base_ptr + 0; size = suc r % 2 ^ 32 },
            record s { buffer_offset = 0; buffer_available = suc r % 2 ^ 32 },
            memory',
            src',
          )
        ] in
      if s.has_error || s.at_end
      then some (ArrayRef.empty, s, memory, src)
      else elim (update_blocking mode s.fd_blocking set_nonblock) [
        | some e ↦ some (ArrayRef.empty, only_error s e, memory, src)
        | none ↦ run
      ]

  -- `abstract_input_stream::read`, whose `read_stream` is the one above
  unfoldable pub read : ArrayRef → Mode → InputStream → (ℕ → ℕ) → Source → ReadResult
  unfolding array_ref_content_copy
  read buf mode s memory src =
      let n = buf.size in
      let required : ℕ = elim mode [ blocking ↦ n | non_blocking ↦ 0 ] in
      if leb n s.buffer_available && ltb 0 s.buffer_available
      then some (
        some n,
        record s {
          buffer_offset = (s.buffer_offset + n) % 2 ^ 32;
          buffer_available = s.buffer_available - n;
        },
        array_ref_content_copy memory buf
            (record { begin = s.buffer_base_ptr + s.buffer_offset; size = n }),
        src,
      )
      else read_stream (record { iov_base = buf.begin; iov_len = n } ∷ []) required s memory src
