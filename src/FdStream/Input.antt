-- ===== src/FdStream/Input.antt =====
-- core/fd_stream.cpp: `fd_input_stream`.
use lbu.Common.{
  ℕ, zero, suc, Option, none, some, Bool, true, false, not, ◌&&◌, ltb, ◌==◌, min, ◌+◌, ◌-◌, ◌^◌,
  ◌%◌, List, [], ◌∷◌, length, take, drop, if◌then◌else◌,
}
use lbu.Common.Family.{update}
use lbu.ArrayRef.{ArrayRef, is_valid}
use lbu.Io.{
  IoVector, Response, moved, failed, temp_fail_retry, io_vector_array_advance,
  io_vector_array_has_zero_size,
}
use lbu.Io.Vectors.{addresses}
use lbu.FdStream.{Mode, blocking, non_blocking, FdBlockingState, einval, eagain, u32_max}

pub record InputStream : Type 0 where
  pub manages_buffer : Bool
  pub buffer_base_ptr : ℕ
  pub buffer_offset : ℕ
  pub buffer_available : ℕ
  pub has_error : Bool
  pub at_end : Bool
  pub fd_blocking : FdBlockingState
  pub filedes : Option ℕ
  pub buffer_capacity : ℕ
  pub err : ℕ

-- The file behind the descriptor: what it does with the calls that follow, and the bytes that it
-- has to give.
pub record Source : Type 0 where
  pub script : List Response
  pub coming : List ℕ

-- The bytes stored at the addresses, one after the other.
unfoldable pub store_at : (ℕ → ℕ) → List ℕ → List ℕ → ℕ → ℕ
store_at memory [] bytes = memory
store_at memory (a ∷ addrs) [] = memory
store_at memory (a ∷ addrs) (b ∷ bytes) = store_at (update memory a b) addrs bytes

-- `io::readv`: the first bytes that come are stored where the vectors say; at the end of the file a
-- call moves nothing. `none` means that the call has not returned yet.
unfoldable pub readv : (ℕ → ℕ) → List IoVector → Source → Option (Response × (ℕ → ℕ) × Source)
unfolding store_at
readv memory vs src = elim (temp_fail_retry src.script) [
  | none ↦ none
  | some (moved k, rest) ↦
      let r = min k (min (length (addresses vs)) (length src.coming)) in
      some (
        moved r,
        store_at memory (take r (addresses vs)) (take r src.coming),
        record { script = rest; coming = drop r src.coming },
      )
  | some (failed e, rest) ↦ some (failed e, memory, record src { script = rest })
]

unfoldable pub set_descriptor : InputStream → Option ℕ → FdBlockingState → InputStream
set_descriptor s f b = record s {
  filedes = f;
  fd_blocking = b;
  err = 0;
  buffer_available = 0;
  buffer_offset = 0;
  has_error = false;
  at_end = false;
}

-- The constructor
unfoldable pub fd_input_stream : ArrayRef → Option ℕ → FdBlockingState → InputStream
unfolding set_descriptor is_valid
fd_input_stream buffer f b =
    set_descriptor
      (record {
        manages_buffer = is_valid buffer;
        buffer_base_ptr = buffer.begin;
        buffer_offset = 0;
        buffer_available = 0;
        has_error = false;
        at_end = false;
        fd_blocking = b;
        filedes = f;
        buffer_capacity = min buffer.size u32_max;
        err = 0;
      })
      f b

-- `err = e; set_flag_return_error(&status_flags, StatusError)`
abbrev pub add_error : InputStream → ℕ → InputStream
add_error s e = record s { has_error = true; err = e }

-- `status_flags = StatusError` and `status_flags = StatusEndOfStream`
abbrev pub only_error : InputStream → ℕ → InputStream
only_error s e = record s { has_error = true; at_end = false; err = e }

abbrev pub only_end : InputStream → InputStream
only_end s = record s { has_error = false; at_end = true }

-- The return value with the stream, the memory and the file afterwards. `none` is the -1 of an error;
-- a count is given by the pattern of its `ssize_t`, which is the value below 2 ^ 63, where the
-- documentation of `read` keeps the sizes.
abbrev pub ReadResult : Type 0
ReadResult = Option (Option ℕ × InputStream × (ℕ → ℕ) × Source)

-- The body of the loop `while( true )` behind `io::readv`, with `buffer_read` and
-- `first_read_request`; `more` is the next round, for a size less one, the memory and the file.
unfoldable pub read_result :
    Mode
    → ℕ
    → ℕ
    → ℕ
    → List IoVector
    → ℕ
    → InputStream
    → (ℕ → (ℕ → ℕ) → Source → ReadResult)
    → Option (Response × (ℕ → ℕ) × Source)
    → ReadResult
read_result mode buffer_read first required vs count s more none = none
read_result mode buffer_read first required vs count s more (some (failed e, memory, src)) = some (
    if e == eagain && elim mode [ blocking ↦ false | non_blocking ↦ true ]
    then (some buffer_read, s, memory, src)
    else (none, add_error s e, memory, src))
read_result blocking buffer_read first required vs count s more (some (moved zero, memory, src)) =
    some (
      if s.manages_buffer
      then (some (count + buffer_read), only_end s, memory, src)
      else (none, add_error (only_end s) einval, memory, src))
read_result non_blocking buffer_read first required vs count s more
      (some (moved zero, memory, src)) =
    some (
      some buffer_read,
      (if not (io_vector_array_has_zero_size vs) then only_end s else s),
      memory,
      src,
    )
read_result mode buffer_read first required vs count s more (some (moved (suc r), memory, src)) =
    let n = count + suc r in
    let next = more r memory src in
    let done : ReadResult = some (
      if s.manages_buffer && ltb first n
      then (
        some (first + buffer_read),
        record s { buffer_offset = 0; buffer_available = (n - first) % 2 ^ 32 },
        memory,
        src,
      )
      else (some (n + buffer_read), s, memory, src)) in
    if ltb n required then next else done

-- The loop; `none` means that the fuel ran out or a call has not returned.
unfoldable pub read_loop :
    Mode → ℕ → ℕ → ℕ → ℕ → List IoVector → ℕ → InputStream → (ℕ → ℕ) → Source → ReadResult
unfolding read_result
read_loop mode buffer_read first required zero vs count s memory src = none
read_loop mode buffer_read first required (suc fuel) vs count s memory src =
    read_result mode buffer_read first required vs count s
      (λ r.
        read_loop mode buffer_read first required fuel (io_vector_array_advance vs (suc r))
          (count + suc r) s)
      (readv memory vs src)
