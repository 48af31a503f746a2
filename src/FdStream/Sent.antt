-- ===== src/FdStream/Sent.antt =====
-- core/fd_stream.cpp: what a write does with the bytes of the stream's buffer and of the caller.
use lbu.Common.{
  take-append-drop, either_when, ℕ, zero, suc, ◌+◌, ◌-◌, ◌^◌, ◌≤◌, ◌<◌, ◌≡◌, List, [], ◌∷◌, ◌++◌,
  Option, none, some, Bool, true, false, leb, ◌==◌, arith, refl, sym, ap, ◌∙◌, take, drop, length,
  length-append, append-nil, map, if◌then◌else◌,
}
use lbu.Common.Words.{add_word, add_word_exact}
use lbu.Io.{IoVector, Response, moved, failed, io_vector_array_size_sum}
use lbu.Common.Bytes.{take_whole, take-append_left}
use lbu.Io.Vectors.{addresses, drop-range, size_sum_eq}
use lbu.FdStream.{Mode, blocking, non_blocking, eagain, update_blocking, Device, writev}
use lbu.FdStream.Output.{
  OutputStream, fail_with, internal_write_size, with_internal, write_loop, Written, write_blocking,
  write_non_blocking, write_fd,
}
use lbu.FdStream.Vectored.{join, Gave, writev-Gave, LoopGave, write_loop-LoopGave}
use lbu.FdStream.Valid.{
  IsValid, OneVector, pending, flushed, internal_write_size_eq, addresses-with_internal,
  length-pending, flushed-IsValid, pending-flushed,
}

-- What a write has done: the return value `n` counts the bytes accepted. What the file was given
-- and what stays in the buffer is then, in order, what was in the buffer and those bytes. After an
-- error the file was given a first part of both.
abbrev pub Accepted : (ℕ → ℕ) → List IoVector → OutputStream → Device → Written → Type 0
Accepted memory vs s d none = Unit
Accepted memory vs s d (some (none, s', d')) =
    (s'.has_error ≡ true)
    × ((k : ℕ) × (d'.sent ≡ d.sent ++ map memory (take k (pending s ++ addresses vs))))
Accepted memory vs s d (some (some n, s', d')) =
    IsValid s'
    × (n ≤ length (addresses vs))
    × (d'.sent ++ map memory (pending s')
        ≡ d.sent ++ map memory (pending s ++ take n (addresses vs)))

module _ (memory : ℕ → ℕ) (s : OutputStream) (v : IsValid s) (vs : List IoVector)
    (one : OneVector s vs) (d : Device) where
  all_flushed :
      (n : ℕ) (d' : Device)
      → n ≤ length (addresses vs)
      → d'.sent ≡ d.sent ++ map memory (pending s ++ take n (addresses vs))
      → Accepted memory vs s d (some (some n, flushed s, d'))
  all_flushed n d' h e = (
    flushed-IsValid s v,
    h,
    ap (λ l. d'.sent ++ map memory l) (pending-flushed s v) ∙ append-nil d'.sent ∙ e,
  )

  blocking_result :
      (sum : ℕ) (result : Option (Option ℕ × Device))
      → sum ≡ length (addresses (with_internal s vs))
      → LoopGave memory (with_internal s vs) d result
      → Accepted memory vs s d (elim result [
        | none ↦ none
        | some (some e, d') ↦ some (none, fail_with (record s { buffer_available = 0 }) e, d')
        | some (none, d') ↦ some (some (sum - internal_write_size s), flushed s, d')
      ])
  blocking_result sum none h g = tt
  blocking_result sum (some (some e, d')) h (k, g) = (
    refl,
    (k, g ∙ ap (λ l. d.sent ++ map memory (take k l)) (addresses-with_internal s vs v one)),
  )
  blocking_result sum (some (none, d')) h g =
      let a = addresses-with_internal s vs v one in
      let n : sum - internal_write_size s ≡ length (addresses vs) = omega (
        arith,
        h,
        ap length a,
        length-append (pending s) (addresses vs),
        length-pending s,
        internal_write_size_eq s v,
      ) in
      all_flushed (sum - internal_write_size s) d' (omega arith) (
        g
        ∙ ap (λ l. d.sent ++ map memory l) a
        ∙ ap (λ l. d.sent ++ map memory (pending s ++ l))
            (sym (take_whole (sum - internal_write_size s) (addresses vs) (omega arith))))

  write_blocking-Accepted :
      length (pending s) + length (addresses vs) < 2 ^ 63
      → Accepted memory vs s d (write_blocking memory (with_internal s vs) s d)
  unfolding write_blocking
  write_blocking-Accepted h =
      let all = with_internal s vs in
      let sum = io_vector_array_size_sum all 0 in
      let a =
        ap length (addresses-with_internal s vs v one) ∙ length-append (pending s) (addresses vs) in
      let e = size_sum_eq all (omega (arith, a, h)) in
      either_when (Accepted memory vs s d) (leb (2 ^ 63) sum) _ _
        (λ t. absurd (ground (arith, e, a, h)))
        (λ t.
          blocking_result sum (write_loop memory (suc (length d.script)) all 0 sum d) e
            (write_loop-LoopGave memory (suc (length d.script)) all 0 sum d (omega (arith, e))))

  take-append_past :
      (r : ℕ) (xs ys : List ℕ) → length xs ≤ r → take r (xs ++ ys) ≡ xs ++ take (r - length xs) ys
  take-append_past r [] ys h = let e : r - 0 ≡ r = omega arith in rw e refl
  take-append_past zero (x ∷ xs) ys h = absurd (omega arith)
  take-append_past (suc r) (x ∷ xs) ys h =
      let e : suc r - suc (length xs) ≡ r - length xs = omega arith in
      rw e (ap (λ l. x ∷ l) (take-append_past r xs ys (omega arith)))

  -- The file took no more than a part of the buffer.
  part_flushed :
      (r : ℕ) (d' : Device)
      → r < s.buffer_offset - s.buffer_write_offset
      → d'.sent ≡ d.sent ++ map memory (take r (pending s ++ addresses vs))
      → Accepted memory vs s d (
          some (
            some 0,
            record s { buffer_write_offset = add_word (2 ^ 32) s.buffer_write_offset r },
            d',
          ))
  part_flushed r d' h e =
      let w : add_word (2 ^ 32) s.buffer_write_offset r ≡ s.buffer_write_offset + r =
        add_word_exact (2 ^ 32) s.buffer_write_offset r (omega (arith, v)) in
      let n = length-pending s in
      let b : s.buffer_base_ptr + (s.buffer_write_offset + r)
          ≡ s.buffer_base_ptr + s.buffer_write_offset + r =
        omega arith in
      let c : s.buffer_offset - (s.buffer_write_offset + r)
          ≡ s.buffer_offset - s.buffer_write_offset - r =
        omega arith in
      let f : pending (record s { buffer_write_offset = add_word (2 ^ 32) s.buffer_write_offset r })
          ≡ drop r (pending s) =
        rw (w, b, c)
          (sym (
            drop-range r (s.buffer_base_ptr + s.buffer_write_offset)
              (s.buffer_offset - s.buffer_write_offset) (omega arith))) in
      let t : take r (pending s ++ addresses vs) ≡ take r (pending s) =
        take-append_left r (pending s) (addresses vs) (omega (arith, n)) in
      (
        record {
          in_order = omega (arith, v, w);
          inside = v.inside;
          small = v.small;
          unmanaged = v.unmanaged;
        },
        omega arith,
        ap (λ l. d'.sent ++ map memory l) f
            ∙ join memory d.sent (take r (pending s)) (drop r (pending s)) _ (
                ap (λ l. l ++ map memory (drop r (pending s)))
                  (e ∙ ap (λ l. d.sent ++ map memory l) t))
            ∙ ap (λ l. d.sent ++ map memory l)
                (take-append-drop r (pending s) ∙ sym (append-nil (pending s))),
      )

  either :
      (b : Bool) (x y : Option ℕ × OutputStream × Device)
      → (b ≡ true → Accepted memory vs s d (some x))
      → (b ≡ false → Accepted memory vs s d (some y))
      → Accepted memory vs s d (some (if b then x else y))
  either true x y f g = f refl
  either false x y f g = g refl

  non_blocking_result :
      (result : Option (Response × Device))
      → Gave memory (with_internal s vs) d result
      → Accepted memory vs s d (elim result [
        | none ↦ none
        | some (moved r, d') ↦ some (
            if leb (internal_write_size s) r
            then (some (r - internal_write_size s), flushed s, d')
            else (
              some 0,
              record s { buffer_write_offset = add_word (2 ^ 32) s.buffer_write_offset r },
              d',
            ))
        | some (failed e, d') ↦ some (
            if e == eagain
            then (some 0, s, d')
            else (none, fail_with (record s { buffer_available = 0 }) e, d'))
      ])
  non_blocking_result none g = tt
  non_blocking_result (some (failed e, d')) g =
      either (e == eagain) (some 0, s, d')
        (none, fail_with (record s { buffer_available = 0 }) e, d')
        (λ _. (
          v,
          omega arith,
          ap (λ l. l ++ map memory (pending s)) g
              ∙ ap (λ l. d.sent ++ map memory l) (sym (append-nil (pending s))),
        ))
        (λ _. (refl, (0, g ∙ sym (append-nil d.sent))))
  non_blocking_result (some (moved r, d')) (l, g) =
      let i = internal_write_size_eq s v in
      let n = length-pending s in
      let a = addresses-with_internal s vs v one in
      let k = ap length a ∙ length-append (pending s) (addresses vs) in
      let e : d'.sent ≡ d.sent ++ map memory (take r (pending s ++ addresses vs)) =
        g ∙ ap (λ l. d.sent ++ map memory (take r l)) a in
      either (leb (internal_write_size s) r) (some (r - internal_write_size s), flushed s, d')
        (some 0, record s { buffer_write_offset = add_word (2 ^ 32) s.buffer_write_offset r }, d')
        (λ whole. all_flushed (r - internal_write_size s) d' (omega (arith, i, n, k)) (
          e
          ∙ ap (λ l. d.sent ++ map memory l)
              (take-append_past r (pending s) (addresses vs) (ground (arith, i, n))
                ∙ ap (λ j. pending s ++ take (r - j) (addresses vs)) (n ∙ sym i))))
        (λ part. part_flushed r d' (ground (arith, i)) e)

  write_non_blocking-Accepted :
      Accepted memory vs s d (write_non_blocking memory (with_internal s vs) s d)
  unfolding write_non_blocking
  write_non_blocking-Accepted =
      non_blocking_result (writev memory (with_internal s vs) d)
        (writev-Gave memory (with_internal s vs) d)

  mode_result :
      (mode : Mode) (refused : Option ℕ)
      → length (pending s) + length (addresses vs) < 2 ^ 63
      → Accepted memory vs s d (elim refused [
        | some e ↦ some (none, fail_with s e, d)
        | none ↦ elim mode [
          | blocking ↦ write_blocking memory (with_internal s vs) s d
          | non_blocking ↦ write_non_blocking memory (with_internal s vs) s d
        ]
      ])
  mode_result mode (some e) h = (refl, (0, sym (append-nil d.sent)))
  mode_result blocking none h = write_blocking-Accepted h
  mode_result non_blocking none h = write_non_blocking-Accepted

  guarded :
      (b : Bool) (result : Written)
      → (b ≡ true → s.has_error ≡ true)
      → Accepted memory vs s d result
      → Accepted memory vs s d (if b then some (none, s, d) else result)
  guarded true result f g = (f refl, (0, sym (append-nil d.sent)))
  guarded false result f g = g

-- For a valid stream, vectors of less than 2 ^ 63 bytes together with those in the buffer, just one
-- where it manages a buffer, either mode, and whatever the file and its descriptor do: if `write_fd` returns a count, the stream stays
-- valid and what the file was given with what stays in the buffer is, in order, what was in the
-- buffer and as many bytes of the vectors as counted; if it returns a negative value the stream has an error, and
-- the file was given a first part of those bytes.
pub write_fd-Accepted :
    (set_nonblock : Bool → Option ℕ) (memory : ℕ → ℕ) (vs : List IoVector) (mode : Mode)
    (s : OutputStream) (d : Device)
    → IsValid s
    → OneVector s vs
    → length (pending s) + length (addresses vs) < 2 ^ 63
    → Accepted memory vs s d (write_fd set_nonblock memory vs mode s d)
unfolding write_fd
write_fd-Accepted set_nonblock memory vs mode s d v one h =
    guarded memory s v vs one d s.has_error _ (λ e. e)
      (mode_result memory s v vs one d mode (update_blocking mode s.fd_blocking set_nonblock) h)
