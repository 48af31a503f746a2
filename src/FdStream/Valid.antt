-- ===== src/FdStream/Valid.antt =====
-- core/fd_stream.cpp: the invariant of an output stream, and the bytes that wait in its buffer.
use lbu.Common.{
  ℕ, ◌+◌, ◌-◌, ◌^◌, ◌≤◌, ◌≡◌, ◌⊎◌, List, [], ◌∷◌, ◌++◌, Bool, Bool-cases, true, false, inl, inr,
  ltb, arith, refl, length, if◌then◌else◌,
}
use lbu.Common.Words.{sub_word_exact}
use lbu.Io.{IoVector, range}
use lbu.Io.Vectors.{addresses, length-range}
use lbu.FdStream.{u32_max}
use lbu.FdStream.Output.{
  OutputStream, reset_buffer, internal_write_size, first_vector, with_internal,
}
use lbu.FdStream.Vectored.{none_left}

pub record IsValid (s : OutputStream) : Type 0 where
  pub in_order : s.buffer_write_offset ≤ s.buffer_offset
  pub inside : s.buffer_offset + s.buffer_available ≤ s.buffer_capacity
  pub small : s.buffer_capacity ≤ u32_max
  pub unmanaged : (s.manages_buffer ≡ true) ⊎ (s.buffer_capacity ≡ 0)

-- The addresses of the bytes in the stream's buffer that the file has not been given.
abbrev pub pending : OutputStream → List ℕ
pending s =
    range (s.buffer_base_ptr + s.buffer_write_offset) (s.buffer_offset - s.buffer_write_offset)

pub internal_write_size_eq :
    (s : OutputStream) → IsValid s → internal_write_size s ≡ s.buffer_offset - s.buffer_write_offset
internal_write_size_eq s v = elim (Bool-cases s.manages_buffer) [
  | inl managed ↦
      rw managed (
        sub_word_exact (2 ^ 32) s.buffer_offset s.buffer_write_offset v.in_order (omega (arith, v)))
  | inr bare ↦
      rw bare (elim v.unmanaged [ inl managed ↦ absurd (cc) | inr nothing ↦ omega (arith, v) ])
]

-- The assertion of a write: the caller gives one vector where the stream manages a buffer.
abbrev pub OneVector : OutputStream → List IoVector → Type 0
OneVector s vs = s.manages_buffer ≡ true → length vs ≡ 1

first_vector_eq : (vs : List IoVector) → length vs ≡ 1 → first_vector vs ≡ vs
first_vector_eq [] e = absurd (omega (arith, e))
first_vector_eq (v ∷ []) e = refl
first_vector_eq (v ∷ w ∷ vs) e = absurd (omega (arith, e))

pub addresses-with_internal :
    (s : OutputStream) (vs : List IoVector)
    → IsValid s
    → OneVector s vs
    → addresses (with_internal s vs) ≡ pending s ++ addresses vs
unfolding with_internal
addresses-with_internal s vs v one =
    let e = internal_write_size_eq s v in
    elim (Bool-cases (ltb 0 (s.buffer_offset - s.buffer_write_offset))) [
      | inl some_left ↦
          let first = first_vector_eq vs (
            one (elim v.unmanaged [
              | inl managed ↦ managed
              | inr nothing ↦ absurd (ground (arith, v, nothing))
            ])) in
          rw (e, some_left, first) refl
      | inr nothing ↦
          let f : s.buffer_offset - s.buffer_write_offset ≡ 0 = ground arith in
          rw (e, nothing, f) refl
    ]

pub length-pending :
    (s : OutputStream) → length (pending s) ≡ s.buffer_offset - s.buffer_write_offset
length-pending s = length-range _ (s.buffer_offset - s.buffer_write_offset)

reset-IsValid : (s : OutputStream) → IsValid s → IsValid (reset_buffer s)
unfolding reset_buffer
reset-IsValid s v = record {
  in_order = omega arith;
  inside = omega arith;
  small = v.small;
  unmanaged = v.unmanaged;
}

-- The stream once its buffer has been written.
abbrev pub flushed : OutputStream → OutputStream
flushed s = if s.manages_buffer then reset_buffer s else s

either-IsValid :
    (s : OutputStream) (b : Bool) → IsValid s → IsValid (if b then reset_buffer s else s)
either-IsValid s true v = reset-IsValid s v
either-IsValid s false v = v

pub flushed-IsValid : (s : OutputStream) → IsValid s → IsValid (flushed s)
flushed-IsValid s v = either-IsValid s s.manages_buffer v

pub pending-flushed : (s : OutputStream) → IsValid s → pending (flushed s) ≡ []
unfolding reset_buffer
pending-flushed s v = elim (Bool-cases s.manages_buffer) [
  | inl managed ↦ rw managed refl
  | inr bare ↦ rw bare (
      none_left (pending s)
        (omega (arith, length-pending s, internal_write_size_eq s v, none_internal s bare)))
]
  where
    none_internal : (s : OutputStream) → s.manages_buffer ≡ false → internal_write_size s ≡ 0
    none_internal s bare = rw bare refl
