-- ===== src/FdStream/Ends.antt =====
-- core/fd_stream.cpp: how a blocking read of `fd_input_stream` ends.
use lbu.Common.{
  ℕ, suc, Option, none, some, Bool, true, false, not, ◌&&◌, leb, ltb, ◌==◌, ◌+◌, ◌-◌, ◌≤◌, ◌<◌, ◌≡◌,
  inl, inr, List, [], ◌∷◌, length, length-append, either_when, Bool-cases, arith, refl, sym, ap,
  ap₂, ◌∙◌, subst,
}
use mathlib.Core.Bool.{false≢true}
use lbu.ArrayRef.{ArrayRef}
use lbu.Io.{IoVector, range}
use lbu.Io.Vectors.{length-range}
use lbu.Io.All.{Ready}
use lbu.FdStream.{blocking, update_blocking}
use lbu.FdStream.Input.{InputStream, Source, add_error, ReadResult, read_loop}
use lbu.FdStream.Reads.{first_len, with_buffer, mode_of, read_stream, read}
use lbu.FdStream.Kept.{IsValid}
use lbu.FdStream.Enter
use lbu.FdStream.Complete.{moves, Completed, loop-Completed}

module _ (buf : ArrayRef) (s : InputStream) (v : IsValid s) (memory : ℕ → ℕ) (src : Source)
    (managed : s.manages_buffer ≡ true) (some_asked : 0 < buf.size) (ready : Ready src.script)
    (enough : buf.size ≤ moves src.script) where
  abbrev entered : InputStream
  entered = Enter.entered buf s v memory

  abbrev buffer_read : ℕ
  buffer_read = Enter.buffer_read buf s v memory

  blocking_mode : (n : ℕ) → 0 < n → mode_of n ≡ blocking
  blocking_mode n h = let e : ltb 0 n ≡ true = ground arith in rw e refl

  looped-Completed :
      (vs : List IoVector)
      → s.buffer_available < buf.size
      → Enter.Vectors buf s v memory vs
          (buf.begin + s.buffer_available)
          (buf.size - s.buffer_available)
      → Completed buf.size (
          read_loop
            (mode_of buf.size)
            buffer_read
            (first_len vs)
            (buf.size - buffer_read)
            (suc (length src.script))
            vs
            0
            entered
            (Enter.taken buf s v memory s.buffer_available)
            src)
  looped-Completed vs less (c, within, bare_none, first, at) =
      let f = first_len vs in
      let fuel = suc (length src.script) in
      let start = Enter.taken buf s v memory s.buffer_available in
      let read = Enter.buffer_read_eq buf s v memory in
      let required : buf.size - buffer_read ≡ f = omega (arith, read, first) in
      let sum : f + buffer_read ≡ buf.size = omega (arith, read, first, less) in
      let n =
        length-append (range (buf.begin + s.buffer_available) f) (range s.buffer_base_ptr c) in
      subst (Completed buf.size)
        (sym (
          ap₂ (λ q r. read_loop q buffer_read f r fuel vs 0 entered start src)
            (blocking_mode buf.size some_asked) required))
        (subst (λ n. Completed n (read_loop blocking buffer_read f f fuel vs 0 entered start src))
          sum
          (loop-Completed buffer_read f entered managed fuel 0 vs start src ready
            (omega (arith, first, less)) (omega (arith, enough, first))
            (omega (arith, ap length at, n, length-range (buf.begin + s.buffer_available) f))
            (omega arith)))

  stream-Completed :
      (set_nonblock : Bool → Option ℕ)
      → s.buffer_available < buf.size
      → s.has_error ≡ false
      → s.at_end ≡ false
      → update_blocking blocking s.fd_blocking set_nonblock ≡ none
      → Completed buf.size (
          read_stream set_nonblock
            (record { iov_base = buf.begin; iov_len = buf.size } ∷ [])
            buf.size
            s
            memory
            src)
  unfolding read_stream
  stream-Completed set_nonblock less fine going allowed =
      let Holds : ReadResult → Type 0 = Completed buf.size in
      let fuel = suc (length src.script) in
      let run =
        subst
          (λ (t : List IoVector × (ℕ → ℕ)). Holds (
            read_loop (mode_of buf.size) buffer_read (first_len (with_buffer t.0 entered))
              (buf.size - buffer_read) fuel (with_buffer t.0 entered) 0 entered t.1 src))
          (sym (Enter.take_buffered_eq buf s v memory (inl less)))
          (looped-Completed _ less (
            Enter.with_buffer-Vectors buf s v memory (buf.begin + s.buffer_available)
              (buf.size - s.buffer_available) entered.buffer_available)) in
      either_when Holds s.has_error _ _ (λ t. absurd (false≢true (sym fine ∙ t)))
        (λ _.
          either_when Holds s.at_end _ _ (λ t. absurd (false≢true (sym going ∙ t)))
            (λ _.
              may_run (update_blocking (mode_of buf.size) s.fd_blocking set_nonblock) _
                (subst (λ m. update_blocking m s.fd_blocking set_nonblock ≡ none)
                  (sym (blocking_mode buf.size some_asked)) allowed)
                (either_when Holds (not s.manages_buffer && 1 == 0) _ _
                  (λ t. absurd (not_bare s.manages_buffer (1 == 0) managed t)) (λ _. run))))
    where
      may_run :
          (refused : Option ℕ) (result : ReadResult)
          → refused ≡ none
          → Completed buf.size result
          → Completed buf.size
              (elim refused [ some e ↦ some (none, add_error s e, memory, src) | none ↦ result ])
      may_run (some e) result h c = absurd (cc h)
      may_run none result h c = c

      not_bare : (b x : Bool) → b ≡ true → (not b && x) ≡ true → ⊥
      not_bare b x e t = false≢true (rw e at t)

-- A blocking read of at least one byte by a valid stream with a buffer, without an error, that has
-- not ended and whose descriptor may block: if every call of the file is interrupted or may move at
-- least one byte, and as many as there are bytes to read are not interrupted, the read returns
-- without an error; the count is that of the bytes asked for, or it is less, and then the file has
-- no more bytes and the stream is at its end.
pub read-Completed :
    (set_nonblock : Bool → Option ℕ) (buf : ArrayRef) (s : InputStream) (memory : ℕ → ℕ)
    (src : Source)
    → IsValid s
    → s.manages_buffer ≡ true
    → 0 < buf.size
    → s.has_error ≡ false
    → s.at_end ≡ false
    → update_blocking blocking s.fd_blocking set_nonblock ≡ none
    → Ready src.script
    → buf.size ≤ moves src.script
    → Completed buf.size (read set_nonblock buf blocking s memory src)
unfolding read
read-Completed set_nonblock buf s memory src v managed some_asked fine going allowed ready enough =
    either_when (Completed buf.size) (leb buf.size s.buffer_available && ltb 0 s.buffer_available) _
      _ (λ t. inl refl)
      (λ t.
        stream-Completed buf s v memory src managed some_asked ready enough set_nonblock (less t)
          fine going allowed)
  where
    less :
        (leb buf.size s.buffer_available && ltb 0 s.buffer_available) ≡ false
        → s.buffer_available < buf.size
    less t = elim (Bool-cases (leb buf.size s.buffer_available)) [
      | inl le ↦ absurd (ground (arith, some_asked, le, rw le at t))
      | inr gt ↦ ground arith
    ]
