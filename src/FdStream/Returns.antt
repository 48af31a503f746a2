-- ===== src/FdStream/Returns.antt =====
-- core/fd_stream.cpp: when a blocking write returns.
use lbu.Common.{
  ℕ, suc, ◌+◌, ◌-◌, ◌≤◌, ◌<◌, ◌≡◌, List, ◌++◌, Option, none, some, Bool, false, arith, refl, ap,
  subst, ◌∙◌, length, length-append, map, if◌then◌else◌, if_false, leb, ◌^◌,
}
use lbu.Io.{IoVector, io_vector_array_size_sum}
use lbu.Io.Vectors.{addresses, size_sum_eq}
use lbu.Io.All.{Ready, room}
use lbu.FdStream.{blocking, update_blocking, Device}
use lbu.FdStream.Output.{
  OutputStream, fail_with, internal_write_size, with_internal, Written, write_blocking, write_fd,
}
use lbu.FdStream.Vectored.{LoopGave, write_loop-LoopGave, write_loop-returns}
use lbu.FdStream.Valid.{
  IsValid, OneVector, pending, flushed, internal_write_size_eq, addresses-with_internal,
  length-pending,
}

module _ (memory : ℕ → ℕ) (s : OutputStream) (v : IsValid s) (vs : List IoVector)
    (one : OneVector s vs) (d : Device) where
  write_blocking-returns :
      length (pending s) + length (addresses vs) < 2 ^ 63
      → Ready d.script
      → length (pending s) + length (addresses vs) ≤ room d.script
      → (d' : Device) × (write_blocking memory (with_internal s vs) s d
          ≡ some (some (length (addresses vs)), flushed s, d'))
        × (d'.sent ≡ d.sent ++ map memory (pending s ++ addresses vs))
  unfolding write_blocking
  write_blocking-returns h ready enough =
      let all = with_internal s vs in
      let a = addresses-with_internal s vs v one in
      let k = ap length a ∙ length-append (pending s) (addresses vs) in
      let e = size_sum_eq all (omega (arith, k)) in
      let sum = io_vector_array_size_sum all 0 in
      let (d', g) =
        write_loop-returns memory (suc (length d.script)) all 0 sum d (omega (arith, e)) ready
          (omega (arith, k)) (omega arith) in
      let not_large : leb (2 ^ 63) sum ≡ false = ground (arith, e, k, h) in
      let n : sum - internal_write_size s ≡ length (addresses vs) =
        omega (arith, e, k, length-pending s, internal_write_size_eq s v) in
      (
        d',
        if_false not_large _ _
            ∙ ap
                (λ (o : Option (Option ℕ × Device)). elim o as (λ _. Written) [
                  | none ↦ none
                  | some (some x, d1) ↦
                      some (none, fail_with (record s { buffer_available = 0 }) x, d1)
                  | some (none, d1) ↦ some (some (sum - internal_write_size s), flushed s, d1)
                ])
                g
            ∙ ap (λ j. some (some j, flushed s, d')) n,
        subst (LoopGave memory all d) g
              (write_loop-LoopGave memory (suc (length d.script)) all 0 sum d (omega (arith, e)))
            ∙ ap (λ l. d.sent ++ map memory l) a,
      )

not_failed : (b : Bool) (x y : Written) → b ≡ false → (if b then x else y) ≡ y
not_failed b x y e = rw e refl

may_run :
    (refused : Option ℕ) (x : ℕ → Written) (y : Written)
    → refused ≡ none
    → elim refused as (λ _. Written) [ none ↦ y | some e ↦ x e ] ≡ y
may_run refused x y e = rw e refl

-- A blocking write through a valid stream without an error, whose descriptor may block, of vectors
-- of less than 2 ^ 63 bytes together with those in the buffer, just one vector where the stream
-- manages a buffer: if every call of the file is
-- interrupted or takes at least one byte, and they have room for all, the write returns the size of
-- the vectors, leaves the buffer empty, and has given the file all bytes in order.
pub write_fd-returns :
    (set_nonblock : Bool → Option ℕ) (memory : ℕ → ℕ) (vs : List IoVector) (s : OutputStream)
    (d : Device)
    → IsValid s
    → OneVector s vs
    → length (pending s) + length (addresses vs) < 2 ^ 63
    → s.has_error ≡ false
    → update_blocking blocking s.fd_blocking set_nonblock ≡ none
    → Ready d.script
    → length (pending s) + length (addresses vs) ≤ room d.script
    → (d' : Device) × (write_fd set_nonblock memory vs blocking s d
        ≡ some (some (length (addresses vs)), flushed s, d'))
      × (d'.sent ≡ d.sent ++ map memory (pending s ++ addresses vs))
unfolding write_fd
write_fd-returns set_nonblock memory vs s d v one h fine allowed ready enough =
    let (d', e, g) = write_blocking-returns memory s v vs one d h ready enough in
    (d', not_failed s.has_error (some (none, s, d)) _ fine ∙ may_run _ _ _ allowed ∙ e, g)
