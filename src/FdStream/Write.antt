-- ===== src/FdStream/Write.antt =====
-- core/lbu/abstract_stream.h: writing through the buffer of a stream over a descriptor.
use lbu.Common.{
  ℕ, zero, suc, ◌+◌, ◌-◌, ◌^◌, ◌≤◌, ◌<◌, ◌≡◌, ◌⊎◌, List, [], ◌∷◌, ◌++◌, Option, none, some, Bool,
  Bool-cases, true, inl, inr, ltb, leb, ◌&&◌, arith, refl, sym, ap, ap₂, ◌∙◌, take, length,
  append-nil, map,
}
use lbu.Common.Words.{sub_word_exact, add_word_exact}
use lbu.Common.Bytes.{take_whole}
use lbu.ArrayRef.{ArrayRef, end, elements_from, copy_from, array_ref_content_copy}
use lbu.ArrayRef.Parts.{copy_from_outside, copied}
use lbu.Io.{IoVector, range}
use lbu.Io.Vectors.{length-range, range-split}
use lbu.FdStream.{Mode, Device}
use lbu.FdStream.Output.{OutputStream, Written, advance, write_fd, write}
use lbu.FdStream.Vectored.{map-append}
use lbu.FdStream.Valid.{IsValid, pending, length-pending}
use lbu.FdStream.Sent.{Accepted, write_fd-Accepted}

pub map-range : (memory : ℕ → ℕ) (b n : ℕ) → map memory (range b n) ≡ elements_from memory b n
map-range memory b zero = refl
map-range memory b (suc n) =
    let e : suc b ≡ b + 1 = omega arith in
    ap (λ l. memory b ∷ l) (map-range memory (suc b) n ∙ ap (λ c. elements_from memory c n) e)

below_kept :
    (memory : ℕ → ℕ) (dst src n b k : ℕ)
    → b + k ≤ dst
    → map (copy_from memory dst src n) (range b k) ≡ map memory (range b k)
below_kept memory dst src n b zero h = refl
below_kept memory dst src n b (suc k) h =
    ap₂ ◌∷◌ (copy_from_outside memory dst src n b (omega arith))
      (below_kept memory dst src n (suc b) k (omega arith))

-- The one vector that `write` makes.
abbrev pub one_vector : ArrayRef → List IoVector
one_vector buf = record { iov_base = buf.begin; iov_len = buf.size } ∷ []

-- What `write` has done: the return value `n` counts the bytes accepted. What the file was given and
-- what stays in the buffer is then, in order, what was in the buffer and the first `n` bytes. After
-- an error the file was given a first part of both.
abbrev pub Wrote : (ℕ → ℕ) → ArrayRef → OutputStream → Device → Written × (ℕ → ℕ) → Type 0
Wrote memory buf s d (none, memory') = Unit
Wrote memory buf s d (some (none, s', d'), memory') =
    (s'.has_error ≡ true)
    × ((k : ℕ) × (d'.sent ≡ d.sent ++ map memory (take k (pending s ++ range buf.begin buf.size))))
Wrote memory buf s d (some (some n, s', d'), memory') =
    IsValid s'
    × (n ≤ buf.size)
    × (d'.sent ++ map memory' (pending s')
        ≡ d.sent ++ map memory (pending s ++ take n (range buf.begin buf.size)))

advance-IsValid :
    (s : OutputStream) (n : ℕ) → IsValid s → n ≤ s.buffer_available → IsValid (advance s n)
unfolding advance
advance-IsValid s n v h =
    let a = add_word_exact (2 ^ 32) s.buffer_offset n (omega (arith, v)) in
    let b = sub_word_exact (2 ^ 32) s.buffer_available n h (omega (arith, v)) in
    record {
      in_order = omega (arith, v, a);
      inside = omega (arith, v, a, b);
      small = v.small;
      unmanaged = v.unmanaged;
    }

pending-advance :
    (s : OutputStream) (n : ℕ)
    → IsValid s
    → n ≤ s.buffer_available
    → pending (advance s n) ≡ pending s ++ range (s.buffer_base_ptr + s.buffer_offset) n
unfolding advance
pending-advance s n v h =
    let a = add_word_exact (2 ^ 32) s.buffer_offset n (omega (arith, v)) in
    let b : s.buffer_offset + n - s.buffer_write_offset
        ≡ s.buffer_offset - s.buffer_write_offset + n =
      omega (arith, v) in
    let c : s.buffer_base_ptr + s.buffer_write_offset + (s.buffer_offset - s.buffer_write_offset)
        ≡ s.buffer_base_ptr + s.buffer_offset =
      omega (arith, v) in
    rw
      (
        a,
        b,
        range-split (s.buffer_base_ptr + s.buffer_write_offset)
            (s.buffer_offset - s.buffer_write_offset) n,
        c,
      )
      refl

fast :
    (memory : ℕ → ℕ) (buf : ArrayRef) (s : OutputStream) (d : Device)
    → IsValid s
    → (end buf ≤ s.buffer_base_ptr) ⊎ (s.buffer_base_ptr + s.buffer_capacity ≤ buf.begin)
    → buf.size ≤ s.buffer_available
    → Wrote memory buf s d (
      some (some buf.size, advance s buf.size, d),
      copy_from memory (s.buffer_base_ptr + s.buffer_offset) buf.begin buf.size,
    )
fast memory buf s d v apart room =
    let at = s.buffer_base_ptr + s.buffer_offset in
    let memory' = copy_from memory at buf.begin buf.size in
    let kept =
      below_kept memory at buf.begin buf.size (s.buffer_base_ptr + s.buffer_write_offset)
        (s.buffer_offset - s.buffer_write_offset) (omega (arith, v)) in
    let new : map memory' (range at buf.size) ≡ map memory (range buf.begin buf.size) =
      map-range memory' at buf.size
      ∙ copied memory at buf.begin buf.size (fast_apart s buf v apart room)
      ∙ sym (map-range memory buf.begin buf.size) in
    let whole =
      take_whole buf.size (range buf.begin buf.size)
        (omega (arith, length-range buf.begin buf.size)) in
    (
      advance-IsValid s buf.size v room,
      omega arith,
      ap (λ l. d.sent ++ l)
          (ap (map memory') (pending-advance s buf.size v room)
            ∙ map-append memory' (pending s) (range at buf.size)
            ∙ ap₂ ◌++◌ kept new
            ∙ sym (map-append memory (pending s) (range buf.begin buf.size))
            ∙ ap (λ l. map memory (pending s ++ l)) (sym whole)),
    )
  where
    fast_apart :
        (s : OutputStream) (buf : ArrayRef)
        → IsValid s
        → (end buf ≤ s.buffer_base_ptr) ⊎ (s.buffer_base_ptr + s.buffer_capacity ≤ buf.begin)
        → buf.size ≤ s.buffer_available
        → (s.buffer_base_ptr + s.buffer_offset ≤ buf.begin)
          ⊎ (buf.begin + buf.size ≤ s.buffer_base_ptr + s.buffer_offset)
    fast_apart s buf v (inl before) room = inr (omega arith)
    fast_apart s buf v (inr behind) room = inl (omega (arith, v))

slow :
    (memory : ℕ → ℕ) (buf : ArrayRef) (s : OutputStream) (d : Device) (result : Written)
    → Accepted memory (one_vector buf) s d result
    → Wrote memory buf s d (result, memory)
slow memory buf s d none a = tt
slow memory buf s d (some (none, s', d')) (e, (k, f)) = (
  e,
  (
    k,
    f
        ∙ ap (λ l. d.sent ++ map memory (take k (pending s ++ l)))
            (append-nil (range buf.begin buf.size)),
  ),
)
slow memory buf s d (some (some n, s', d')) (v, l, e) =
    let one = append-nil (range buf.begin buf.size) in
    (
      v,
      omega (arith, l, ap length one, length-range buf.begin buf.size),
      e ∙ ap (λ l. d.sent ++ map memory (pending s ++ take n l)) one,
    )

-- For a valid stream, bytes outside its buffer, less than 2 ^ 63 together with those in it, either
-- mode, and whatever the file and its descriptor do: if `write` returns a count, the stream stays
-- valid and what the file was given with what is in the buffer is, in order, what the buffer had and
-- as many of the bytes as counted; if it returns a negative value the stream has an error, and the file was given
-- a first part of those bytes.
pub write-Wrote :
    (set_nonblock : Bool → Option ℕ) (memory : ℕ → ℕ) (buf : ArrayRef) (mode : Mode)
    (s : OutputStream) (d : Device)
    → IsValid s
    → (end buf ≤ s.buffer_base_ptr) ⊎ (s.buffer_base_ptr + s.buffer_capacity ≤ buf.begin)
    → s.buffer_capacity + buf.size < 2 ^ 63
    → Wrote memory buf s d (write set_nonblock memory buf mode s d)
unfolding write array_ref_content_copy
write-Wrote set_nonblock memory buf mode s d v apart small =
    elim (Bool-cases (leb buf.size s.buffer_available && ltb 0 s.buffer_available)) [
      | inl fits ↦ rw fits (fast memory buf s d v apart (ground arith))
      | inr large ↦ rw large (
          slow memory buf s d (write_fd set_nonblock memory (one_vector buf) mode s d) (
            write_fd-Accepted set_nonblock memory (one_vector buf) mode s d v (λ _. refl)
              (omega (
                arith,
                v,
                length-pending s,
                ap length (append-nil (range buf.begin buf.size)),
                length-range buf.begin buf.size,
              ))))
    ]
