-- ===== src/FdStream/Enter.antt =====
-- core/fd_stream.cpp: what `fd_input_stream::read_stream` enters its loop with.
use lbu.Common.{
  ℕ, false, ◌&&◌, leb, ltb, ◌+◌, ◌-◌, ◌≤◌, ◌<◌, ◌≡◌, ◌⊎◌, inl, inr, List, [], ◌∷◌, ◌++◌, append-nil,
  either_when, if_true, if_false, if◌then◌else◌, Bool-cases, arith, refl, sym, ap, ap₂, ◌∙◌,
}
use mathlib.Core.Bool.{false≢true}
use lbu.ArrayRef.{ArrayRef, copy_from, array_ref_content_copy}
use lbu.Io.{IoVector, range, io_vector_array_advance}
use lbu.Io.Vectors.{addresses}
use lbu.FdStream.Input.{InputStream}
use lbu.FdStream.Reads.{first_len, take_buffered, with_buffer}
use lbu.FdStream.Kept.{IsValid}

module _ (buf : ArrayRef) (s : InputStream) (v : IsValid s) (memory : ℕ → ℕ) where
  abbrev pub taken : ℕ → ℕ → ℕ
  taken n = copy_from memory buf.begin (s.buffer_base_ptr + s.buffer_offset) n

  -- The vectors of the loop name the rest of the caller's buffer, and the stream's behind it where
  -- that is filled as well.
  abbrev pub Vectors : List IoVector → ℕ → ℕ → Type 0
  Vectors vs start f =
      (c : ℕ) × (c ≤ s.buffer_capacity)
      × (s.manages_buffer ≡ false → c ≡ 0)
      × (first_len vs ≡ f)
      × (addresses vs ≡ range start (first_len vs) ++ range s.buffer_base_ptr c)

  pub with_buffer-Vectors :
      (start f z : ℕ)
      → Vectors
          (with_buffer
            (record { iov_base = start; iov_len = f } ∷ [])
            (record s { buffer_available = z }))
          start
          f
  unfolding with_buffer
  with_buffer-Vectors start f z =
      either_when (λ vs. Vectors vs start f) (s.manages_buffer && leb f s.buffer_capacity) _ _
        (λ t. (
          s.buffer_capacity,
          omega arith,
          λ bare. absurd (false≢true (rw bare at t)),
          refl,
          ap (λ l. range start f ++ l) (append-nil (range s.buffer_base_ptr s.buffer_capacity)),
        ))
        (λ t. (0, omega arith, λ bare. refl, refl, refl))

  nothing_buffered : s.manages_buffer ≡ false → s.buffer_available ≡ 0
  nothing_buffered bare = elim v.unmanaged [
    | inl managed ↦ absurd (false≢true (sym bare ∙ managed))
    | inr nothing ↦ omega (arith, v, nothing)
  ]

  -- What is available is less than what is asked for, or nothing.
  pub take_buffered_eq :
      (s.buffer_available < buf.size) ⊎ (s.buffer_available ≡ 0)
      → take_buffered (record { iov_base = buf.begin; iov_len = buf.size } ∷ []) s memory ≡ (
        record {
          iov_base = buf.begin + s.buffer_available;
          iov_len = buf.size - s.buffer_available;
        }
            ∷ [],
        taken s.buffer_available,
      )
  unfolding take_buffered io_vector_array_advance array_ref_content_copy copy_from
  take_buffered_eq h = elim (Bool-cases s.manages_buffer) [
    | inr bare ↦ rw bare (unused (nothing_buffered bare))
    | inl managed ↦ elim (Bool-cases (ltb 0 s.buffer_available)) [
      | inl some_left ↦
          let part : leb buf.size s.buffer_available ≡ false = ground arith in
          rw (managed, some_left, part) refl
      | inr nothing ↦ rw (managed, nothing) (unused (ground arith))
    ]
  ]
    where
      unused :
          s.buffer_available ≡ 0
          → ◌≡◌ {A = List IoVector × (ℕ → ℕ)}
              (record { iov_base = buf.begin; iov_len = buf.size } ∷ [], memory)
              (
                record {
                  iov_base = buf.begin + s.buffer_available;
                  iov_len = buf.size - s.buffer_available;
                }
                    ∷ [],
                taken s.buffer_available,
              )
      unused nothing =
          let start : buf.begin ≡ buf.begin + s.buffer_available = omega (arith, nothing) in
          let len : buf.size ≡ buf.size - s.buffer_available = omega (arith, nothing) in
          ap₂ (λ u m. (u ∷ [], m)) (ap₂ (λ b n. record { iov_base = b; iov_len = n }) start len)
            (ap taken (sym nothing))

  -- The stream that enters the loop, and what the return values count in addition.
  abbrev pub entered : InputStream
  entered = record s { buffer_available = if s.manages_buffer then 0 else s.buffer_available }

  abbrev pub buffer_read : ℕ
  buffer_read = if s.manages_buffer then s.buffer_available else 0

  pub entered-available : entered.buffer_available ≡ 0
  entered-available = elim (Bool-cases s.manages_buffer) [
    | inl managed ↦ if_true managed 0 s.buffer_available
    | inr bare ↦ if_false bare 0 s.buffer_available ∙ nothing_buffered bare
  ]

  pub buffer_read_eq : buffer_read ≡ s.buffer_available
  buffer_read_eq = elim (Bool-cases s.manages_buffer) [
    | inl managed ↦ if_true managed s.buffer_available 0
    | inr bare ↦ if_false bare s.buffer_available 0 ∙ sym (nothing_buffered bare)
  ]
