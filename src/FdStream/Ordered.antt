-- ===== src/FdStream/Ordered.antt =====
-- core/fd_stream.cpp: what the reads of `fd_input_stream` return.
use lbu.Common.{
  ℕ, suc, Option, none, some, Bool, true, false, not, ◌&&◌, leb, ltb, ◌+◌, ◌-◌, ◌≤◌, ◌<◌, ◌≡◌, ◌⊎◌,
  inl, inr, List, [], ◌∷◌, length, length-append, either_when, either, ◌==◌, ◌||◌, Bool-cases,
  arith, refl, sym, ap, subst,
}
use mathlib.Core.Bool.{false≢true}
use lbu.ArrayRef.{ArrayRef}
use lbu.Io.{IoVector, range}
use lbu.Io.Vectors.{addresses, length-range}
use lbu.FdStream.{Mode, blocking, non_blocking, update_blocking}
use lbu.FdStream.Input.{InputStream, Source, ReadResult, add_error, read_loop}
use lbu.FdStream.Reads.{first_len, with_buffer, mode_of, read_stream, read}
use lbu.FdStream.Stores.{Distinct, Distinct-ranges}
use lbu.FdStream.Rounds.{loop_kept}
use lbu.FdStream.Kept.{IsValid, ReadKept, Disjoint, fast_kept, slow_kept}
use lbu.FdStream.Enter

non_blocking_mode : (required : ℕ) → mode_of required ≡ non_blocking → required ≡ 0
non_blocking_mode required e = elim (Bool-cases (ltb 0 required)) [
  | inl t ↦ absurd (cc (rw t at e))
  | inr t ↦ ground arith
]

module _ (buf : ArrayRef) (s : InputStream) (v : IsValid s) (apart : Disjoint buf s)
    (memory : ℕ → ℕ) (src : Source) where
  abbrev entered : InputStream
  entered = Enter.entered buf s v memory

  abbrev buffer_read : ℕ
  buffer_read = Enter.buffer_read buf s v memory

  looped_kept :
      (required fuel : ℕ) (vs : List IoVector)
      → required ≤ buf.size
      → s.buffer_available ≤ buf.size
      → Enter.Vectors buf s v memory vs
          (buf.begin + s.buffer_available)
          (buf.size - s.buffer_available)
      → ReadKept buf s memory src (
          read_loop
            (mode_of required)
            buffer_read
            (first_len vs)
            (required - buffer_read)
            fuel
            vs
            0
            entered
            (Enter.taken buf s v memory s.buffer_available)
            src)
  looped_kept required fuel vs l k (c, within, bare_none, first, at) =
      let a = s.buffer_available in
      let f = first_len vs in
      let whole : a + f ≡ buf.size = omega (arith, first, k) in
      let apart_vectors =
        Distinct-ranges (buf.begin + a) f s.buffer_base_ptr c
          (omega (arith, v, apart, within, whole)) in
      slow_kept buf s v apart memory src f c buffer_read entered.buffer_available (addresses vs)
        whole within (Enter.buffer_read_eq buf s v memory) at _
        (loop_kept buffer_read f c (omega (arith, v, within)) entered
          (Enter.entered-available buf s v memory) bare_none (mode_of required)
          (required - buffer_read) fuel 0 vs (Enter.taken buf s v memory a) src
          (subst Distinct (sym at) apart_vectors)
          (
            omega (arith, Enter.buffer_read_eq buf s v memory, l, whole),
            λ e. omega (arith, non_blocking_mode required e),
            inl refl,
            omega (
              arith,
              ap length at,
              length-append (range (buf.begin + a) f) (range s.buffer_base_ptr c),
              length-range (buf.begin + a) f,
              length-range s.buffer_base_ptr c,
            ),
          ))

  unchanged_kept : ReadKept buf s memory src (some (some 0, s, memory, src))
  unchanged_kept = (omega arith, v, refl)

  stream_kept :
      (set_nonblock : Bool → Option ℕ) (required : ℕ)
      → required ≤ buf.size
      → (s.buffer_available < buf.size) ⊎ (s.buffer_available ≡ 0)
      → ReadKept buf s memory src (
          read_stream set_nonblock
            (record { iov_base = buf.begin; iov_len = buf.size } ∷ [])
            required
            s
            memory
            src)
  unfolding read_stream
  stream_kept set_nonblock required l h =
      let Holds : ReadResult → Type 0 = ReadKept buf s memory src in
      let fuel = suc (length src.script) in
      let run =
        subst
          (λ (t : List IoVector × (ℕ → ℕ)). Holds (
            read_loop (mode_of required) buffer_read (first_len (with_buffer t.0 entered))
              (required - buffer_read) fuel (with_buffer t.0 entered) 0 entered t.1 src))
          (sym (Enter.take_buffered_eq buf s v memory h))
          (looped_kept required fuel _ l (omega arith) (
            Enter.with_buffer-Vectors buf s v memory (buf.begin + s.buffer_available)
              (buf.size - s.buffer_available) entered.buffer_available)) in
      either_when Holds s.has_error _ _ (λ e. e)
        (λ no_error.
          either Holds s.at_end _ _
            (either (λ x. Holds (some x)) (required == 0 || s.manages_buffer) _ _ unchanged_kept
              refl)
            (may_block (update_blocking (mode_of required) s.fd_blocking set_nonblock) _
              (either Holds (not s.manages_buffer && 1 == 0) _ _ unchanged_kept run)))
    where
      may_block :
          (refused : Option ℕ) (result : ReadResult)
          → ReadKept buf s memory src result
          → ReadKept buf s memory src
              (elim refused [ some e ↦ some (none, add_error s e, memory, src) | none ↦ result ])
      may_block (some e) result kept = refl
      may_block none result kept = kept

-- For a valid input stream whose buffer and the caller's have no address in common, in either mode,
-- and whatever the file and its descriptor do: a read that returns a count returns no more than the
-- caller's buffer has room for, and leaves a valid stream. The first bytes of the caller's buffer, as
-- many as the count says, then those available in the stream and then those that the file still has
-- to give are the bytes that were available and to come before, in their order. A read that returns
-- none leaves a stream with an error.
pub read-ReadKept :
    (set_nonblock : Bool → Option ℕ) (buf : ArrayRef) (mode : Mode) (s : InputStream)
    (memory : ℕ → ℕ) (src : Source)
    → IsValid s
    → Disjoint buf s
    → ReadKept buf s memory src (read set_nonblock buf mode s memory src)
unfolding read
read-ReadKept set_nonblock buf mode s memory src v apart =
    either_when (ReadKept buf s memory src)
      (leb buf.size s.buffer_available && ltb 0 s.buffer_available) _ _
      (λ t. fast_kept buf s v apart memory src (both_true t))
      (λ t.
        stream_kept buf s v apart memory src set_nonblock _ (required_le mode buf.size)
          (not_both t))
  where
    both_true : {a b : ℕ} → (leb a b && ltb 0 b) ≡ true → a ≤ b
    both_true {a} {b} t = elim (Bool-cases (leb a b)) [
      | inl le ↦ ground arith
      | inr gt ↦ absurd (false≢true (rw gt at t))
    ]

    not_both : {a b : ℕ} → (leb a b && ltb 0 b) ≡ false → (b < a) ⊎ (b ≡ 0)
    not_both {a} {b} t = elim (Bool-cases (leb a b)) [
      | inl le ↦ inr (ground (arith, rw le at t))
      | inr gt ↦ inl (ground arith)
    ]

    required_le : (mode : Mode) (n : ℕ) → elim mode [ blocking ↦ n | non_blocking ↦ 0 ] ≤ n
    required_le blocking n = omega arith
    required_le non_blocking n = omega arith
