-- ===== src/ByteStream/Writing.antt =====
-- core/byte_buffer_stream.cpp: what the bytes written to the stream become.
use lbu.Common.{
  ℕ, ◌+◌, ◌-◌, ◌^◌, ◌%◌, ◌≤◌, ◌<◌, ◌≡◌, ◌≢◌, List, ◌++◌, Option, none, some, Bool, true, false, ltb,
  leb, ◌&&◌, arith, refl, sym, ap, ◌∙◌, length, take, length-take, if◌then◌else◌,
}
use lbu.Common.Words.{add_word_exact, sub_word_exact}
use lbu.Common.Bytes.{take-write}
use lbu.ByteBuffer.{
  max_size, char_data, size, capacity, ref, poke, append_commit, auto_grow_reserve,
}
use lbu.ByteBuffer.Valid.{State, valid-Bounds, poke-State, set_size_checked-State}
use lbu.ByteBuffer.Insert.{ref_of_State, ref_lem, length-ref}
use lbu.ByteBuffer.Storage.{auto_grow_reserve_lem}
use lbu.ByteBuffer.Valid
use lbu.ByteStream.Writer.{
  ByteBufferOutputStream, sync_state, commit, advance, write_stream, get_write_buffer,
  write_buffer_flush, write,
}

pub record IsValid (s : ByteBufferOutputStream) : Type 0 where
  pub buffer : Valid.IsValid s.buffer
  pub begun : size s.buffer ≤ s.buffer_offset
  pub inside : s.buffer_offset + s.buffer_available ≤ capacity s.buffer

-- The bytes written so far, committed or not.
abbrev pub contents : ByteBufferOutputStream → List ℕ
contents s = take s.buffer_offset (char_data s.buffer)

commit-State :
    (s : ByteBufferOutputStream)
    → IsValid s
    → State (commit s).buffer (char_data s.buffer) s.buffer_offset (capacity s.buffer)
unfolding commit append_commit
commit-State s v =
    let w = valid-Bounds s.buffer v.buffer in
    let e = sub_word_exact (2 ^ 64) s.buffer_offset (size s.buffer) v.begun (omega (arith, v, w)) in
    let f : size s.buffer + (s.buffer_offset - size s.buffer) ≡ s.buffer_offset =
      omega (arith, v) in
    rw (e, f) (set_size_checked-State s.buffer s.buffer_offset v.buffer (omega (arith, v)))

commit_offset : (s : ByteBufferOutputStream) → (commit s).buffer_offset ≡ s.buffer_offset
unfolding commit
commit_offset s = refl

commit_bytes :
    (s : ByteBufferOutputStream) → IsValid s → char_data (commit s).buffer ≡ char_data s.buffer
commit_bytes s v = (commit-State s v).bytes_eq

commit_available : (s : ByteBufferOutputStream) → (commit s).buffer_available ≡ s.buffer_available
unfolding commit
commit_available s = refl

commit-IsValid : (s : ByteBufferOutputStream) → IsValid s → IsValid (commit s)
commit-IsValid s v =
    let q = commit-State s v in
    record {
      buffer = q.valid;
      begun = omega (arith, q.size_eq, commit_offset s);
      inside = omega (arith, v, q.capacity_eq, commit_offset s, commit_available s);
    }

flush_eq :
    (junk : ℕ → ℕ) (s : ByteBufferOutputStream)
    → s.has_error ≡ false
    → write_buffer_flush junk s ≡ (true, commit s)
unfolding write_buffer_flush
flush_eq junk s fine = unless s.has_error (false, s) (true, commit s) fine
  where
    unless : (b : Bool) (x y : Bool × ByteBufferOutputStream) → b ≡ false → (if b then x else y) ≡ y
    unless b x y e = rw e refl

-- Flushing a valid stream without an error succeeds, and the buffer then shows what was written;
-- the stream stays valid and goes on from there.
pub write_buffer_flush_lem :
    (junk : ℕ → ℕ) (s : ByteBufferOutputStream)
    → IsValid s
    → s.has_error ≡ false
    → ((write_buffer_flush junk s).0 ≡ true)
      × IsValid (write_buffer_flush junk s).1
      × (ref (write_buffer_flush junk s).1.buffer ≡ contents s)
      × (contents (write_buffer_flush junk s).1 ≡ contents s)
write_buffer_flush_lem junk s v fine =
    let q = commit-State s v in
    let e = flush_eq junk s fine in
    rw e (
      refl,
      commit-IsValid s v,
      ref_of_State q,
      ap (λ k. take k (char_data (commit s).buffer)) (commit_offset s)
          ∙ ap (take s.buffer_offset) (commit_bytes s v),
    )

-- What a write of `ys` that fits has done.
pub record Added (s : ByteBufferOutputStream) (ys : List ℕ) (r : Option ℕ × ByteBufferOutputStream)
    : Type 0 where
  pub count : r.0 ≡ some (length ys)
  pub valid : IsValid (r.1)
  pub added : contents (r.1) ≡ contents s ++ ys
  pub same_error : (r.1).has_error ≡ s.has_error

pub write-Added :
    (junk : ℕ → ℕ) (s : ByteBufferOutputStream) (ys : List ℕ)
    → IsValid s
    → 0 < s.buffer_available
    → length ys ≤ s.buffer_available
    → Added s ys (write junk s ys)
unfolding write advance
write-Added junk s ys v pos h =
    let w = valid-Bounds s.buffer v.buffer in
    let a = add_word_exact (2 ^ 32) s.buffer_offset (length ys) (omega (arith, v, w)) in
    let b = sub_word_exact (2 ^ 32) s.buffer_available (length ys) h (omega (arith, v, w)) in
    let fits : (leb (length ys) s.buffer_available && ltb 0 s.buffer_available) ≡ true =
      ground arith in
    let p = poke-State s.buffer s.buffer_offset ys v.buffer (omega (arith, v)) in
    rw fits (record {
      count = refl;
      valid = record {
        buffer = p.valid;
        begun = omega (arith, p.size_eq, v, a);
        inside = omega (arith, p.capacity_eq, v, a, b);
      };
      added =
          ap (λ k. take k (char_data (poke s.buffer s.buffer_offset ys))) a
          ∙ ap (take (s.buffer_offset + length ys)) p.bytes_eq
          ∙ take-write (s.buffer_offset + length ys) (char_data s.buffer) s.buffer_offset ys
              (omega (arith, v, w)) (omega arith);
      same_error = refl;
    })

-- A write to a valid stream without an error that is longer than the room left in the buffer, but
-- keeps within the maximal size by at least one byte, is refused and sets the error.
pub write-refused :
    (junk : ℕ → ℕ) (s : ByteBufferOutputStream) (ys : List ℕ)
    → IsValid s
    → s.has_error ≡ false
    → s.buffer_available < length ys
    → s.buffer_offset + length ys < max_size
    → ((write junk s ys).0 ≡ none) × ((write junk s ys).1.has_error ≡ true)
unfolding write write_stream
write-refused junk s ys v fine h room =
    let q = commit-State s v in
    let large : (leb (length ys) s.buffer_available && ltb 0 s.buffer_available) ≡ false =
      ground arith in
    let there : ltb (length ys) (max_size - size (commit s).buffer) ≡ true =
      ground (arith, q.size_eq) in
    rw (large, fine, there) (refl, refl)

grown_bytes :
    (junk : ℕ → ℕ) (s : ByteBufferOutputStream)
    → IsValid s
    → (size (auto_grow_reserve junk s.buffer) ≡ size s.buffer)
      × (take (size s.buffer) (char_data (auto_grow_reserve junk s.buffer)) ≡ ref s.buffer)
grown_bytes junk s v =
    let (w, e, c) = auto_grow_reserve_lem junk s.buffer v.buffer in
    let n : size (auto_grow_reserve junk s.buffer) ≡ size s.buffer =
      omega (arith, length-ref _ w, length-ref s.buffer v.buffer, ap length e) in
    (
      n,
      ap (λ k. take k (char_data (auto_grow_reserve junk s.buffer))) (sym n)
          ∙ sym (ref_lem (auto_grow_reserve junk s.buffer))
          ∙ e,
    )

-- Asking a valid stream without an error for more room makes it go on from what its buffer shows:
-- the bytes written since the last commit are lost.
pub get_write_buffer-lost :
    (junk : ℕ → ℕ) (s : ByteBufferOutputStream)
    → IsValid s
    → s.has_error ≡ false
    → size s.buffer < s.buffer_offset
    → (contents (get_write_buffer junk s) ≡ ref s.buffer)
      × (contents (get_write_buffer junk s) ≢ contents s)
unfolding get_write_buffer sync_state
get_write_buffer-lost junk s v fine h =
    let w = valid-Bounds s.buffer v.buffer in
    let (n, e) = grown_bytes junk s v in
    let m : size (auto_grow_reserve junk s.buffer) % 2 ^ 32 ≡ size s.buffer = omega (arith, n, w) in
    let f : take (size (auto_grow_reserve junk s.buffer) % 2 ^ 32)
          (char_data (auto_grow_reserve junk s.buffer))
        ≡ ref s.buffer =
      ap (λ k. take k (char_data (auto_grow_reserve junk s.buffer))) m ∙ e in
    rw fine (
      f,
      λ g. omega (
        arith,
        ap length (sym f ∙ g),
        length-ref s.buffer v.buffer,
        length-take s.buffer_offset (char_data s.buffer),
        v,
        w,
        h,
      ),
    )
