-- ===== src/FdStream/Kept.antt =====
-- core/fd_stream.cpp: the bytes of the file, of the stream and of the caller in a read of
-- `fd_input_stream`.
use lbu.Common.{
  ℕ, zero, suc, none, some, true, min, ◌+◌, ◌-◌, ◌^◌, ◌%◌, ◌≤◌, ◌≡◌, ◌⊎◌, inl, inr, List, ◌∷◌, ◌++◌,
  take, length, length-append, append_assoc, map, arith, refl, sym, ap, ap₂, ◌∙◌, subst,
}
use lbu.ArrayRef.{ArrayRef, elements, copy_from, array_ref_content_copy}
use lbu.ArrayRef.Parts.{copy_from_outside, copied}
use lbu.Io.{range}
use lbu.Io.Vectors.{length-range, range-split}
use lbu.FdStream.{u32_max}
use lbu.FdStream.Input.{InputStream, Source, ReadResult}
use lbu.FdStream.Vectored.{map-append}
use lbu.FdStream.Write.{map-range}
use lbu.FdStream.Filled.{take-range}
use lbu.FdStream.Stores.{Apart, Apart-append, Apart-range, map_same}
use lbu.FdStream.Moves.{LoopKept}

pub record IsValid (s : InputStream) : Type 0 where
  pub inside : s.buffer_offset + s.buffer_available ≤ s.buffer_capacity
  pub small : s.buffer_capacity ≤ u32_max
  pub unmanaged : (s.manages_buffer ≡ true) ⊎ (s.buffer_capacity ≡ 0)

-- The bytes in the stream's buffer that have not been read.
abbrev pub available : (ℕ → ℕ) → InputStream → List ℕ
available memory s =
    elements memory
      (record { begin = s.buffer_base_ptr + s.buffer_offset; size = s.buffer_available })

-- The caller's bytes, those then available and those still to come are the bytes that were available
-- and to come.
abbrev pub ReadKept : ArrayRef → InputStream → (ℕ → ℕ) → Source → ReadResult → Type 0
ReadKept buf s memory src none = Unit
ReadKept buf s memory src (some (none, s', memory', src')) = s'.has_error ≡ true
ReadKept buf s memory src (some (some n, s', memory', src')) =
    (n ≤ buf.size)
    × IsValid s'
    × (elements memory' (record { begin = buf.begin; size = n })
          ++ available memory' s'
          ++ src'.coming
        ≡ available memory s ++ src.coming)

-- No address of the caller's buffer is one of the stream's.
abbrev pub Disjoint : ArrayRef → InputStream → Type 0
Disjoint buf s =
    (buf.begin + buf.size ≤ s.buffer_base_ptr) ⊎ (s.buffer_base_ptr + s.buffer_capacity ≤ buf.begin)

take-ranges :
    (k x n y m : ℕ)
    → k - n ≤ m
    → take k (range x n ++ range y m) ≡ range x (min k n) ++ range y (k - n)
take-ranges k x zero y m h =
    let e : min k 0 ≡ 0 = omega arith in
    let f : k - 0 ≡ k = omega arith in rw (e, f) (take-range k y m (omega arith))
take-ranges zero x (suc n) y m h =
    let e : min 0 (suc n) ≡ 0 = omega arith in let f : 0 - suc n ≡ 0 = omega arith in rw (e, f) refl
take-ranges (suc k) x (suc n) y m h =
    let e : min (suc k) (suc n) ≡ suc (min k n) = omega arith in
    let f : suc k - suc n ≡ k - n = omega arith in
    rw (e, f) (ap (λ l. x ∷ l) (take-ranges k (suc x) n y m (omega arith)))

-- The bytes of two buffers, the second behind the first.
map-split :
    (memory : ℕ → ℕ) (b k n : ℕ)
    → map memory (range b (k + n)) ≡ map memory (range b k) ++ map memory (range (b + k) n)
map-split memory b k n =
    ap (map memory) (range-split b k n) ∙ map-append memory (range b k) (range (b + k) n)

join :
    (xs xs' ys ys' zs cs : List ℕ)
    → xs ≡ xs'
    → ys ≡ ys'
    → xs' ++ ys' ≡ zs
    → xs ++ ys ++ cs ≡ zs ++ cs
join xs xs' ys ys' zs cs e f g = ap₂ (λ x y. x ++ y ++ cs) e f ∙ ap (λ t. t ++ cs) g

module _ (buf : ArrayRef) (s : InputStream) (v : IsValid s) (apart : Disjoint buf s)
    (memory : ℕ → ℕ) (src : Source) where
  -- Memory once the first available bytes are in the caller's buffer.
  abbrev pub taken : ℕ → ℕ → ℕ
  taken n = copy_from memory buf.begin (s.buffer_base_ptr + s.buffer_offset) n

  taken_bytes :
      (n : ℕ)
      → n ≤ buf.size
      → n ≤ s.buffer_available
      → map (taken n) (range buf.begin n)
        ≡ map memory (range (s.buffer_base_ptr + s.buffer_offset) n)
  taken_bytes n l k =
      map-range (taken n) buf.begin n
      ∙ copied memory buf.begin (s.buffer_base_ptr + s.buffer_offset) n (omega (arith, v, apart))
      ∙ sym (map-range memory (s.buffer_base_ptr + s.buffer_offset) n)

  left_available :
      (n : ℕ)
      → n ≤ buf.size
      → n ≤ s.buffer_available
      → map (taken n) (range (s.buffer_base_ptr + s.buffer_offset + n) (s.buffer_available - n))
        ≡ map memory (range (s.buffer_base_ptr + s.buffer_offset + n) (s.buffer_available - n))
  left_available n l k = map_same memory (taken n) _ (s.buffer_available - n) (λ j h h'.
      copy_from_outside memory buf.begin (s.buffer_base_ptr + s.buffer_offset) n j
        (omega (arith, v, apart)))

  -- The buffer has all that is asked for.
  pub fast_kept :
      buf.size ≤ s.buffer_available
      → ReadKept buf s memory src (
          some (
            some buf.size,
            record s {
              buffer_offset = (s.buffer_offset + buf.size) % 2 ^ 32;
              buffer_available = s.buffer_available - buf.size;
            },
            array_ref_content_copy memory buf
                (record { begin = s.buffer_base_ptr + s.buffer_offset; size = buf.size }),
            src,
          ))
  unfolding array_ref_content_copy
  fast_kept l =
      let n = buf.size in
      let at = s.buffer_base_ptr + s.buffer_offset in
      let word : (s.buffer_offset + n) % 2 ^ 32 ≡ s.buffer_offset + n = omega (arith, v, l) in
      let next : s.buffer_base_ptr + (s.buffer_offset + n) % 2 ^ 32 ≡ at + n =
        omega (arith, word) in
      let all : n + (s.buffer_available - n) ≡ s.buffer_available = omega (arith, l) in
      (
        omega arith,
        record { inside = omega (arith, word, l, v); small = v.small; unmanaged = v.unmanaged },
        join _ (map memory (range at n)) _ (map memory (range (at + n) (s.buffer_available - n))) _
            src.coming (sym (map-range (taken n) buf.begin n) ∙ taken_bytes n (omega arith) l)
            (ap (λ b. elements (taken n) (record { begin = b; size = s.buffer_available - n })) next
              ∙ sym (map-range (taken n) (at + n) (s.buffer_available - n))
              ∙ left_available n (omega arith) l)
            (sym (map-split memory at n (s.buffer_available - n))
              ∙ ap (λ j. map memory (range at j)) all
              ∙ map-range memory at s.buffer_available),
      )

  -- The available bytes are taken, and the loop stores those of the file behind them.
  module _ (f c read1 z : ℕ) (addrs : List ℕ) (whole : s.buffer_available + f ≡ buf.size)
      (within : c ≤ s.buffer_capacity) (read1_eq : read1 ≡ s.buffer_available)
      (at : addrs ≡ range (buf.begin + s.buffer_available) f ++ range s.buffer_base_ptr c) where
    abbrev front : ℕ
    front = s.buffer_available

    front_bytes :
        (memory' : ℕ → ℕ)
        → ((j : ℕ) → Apart j addrs → memory' j ≡ taken front j)
        → map memory' (range buf.begin front)
          ≡ map memory (range (s.buffer_base_ptr + s.buffer_offset) front)
    front_bytes memory' same =
        map_same (taken front) memory' buf.begin front (λ j l h. same j (
          subst (Apart j) (sym at) (
            Apart-append j _ _ (Apart-range j (buf.begin + front) f (omega (arith, h)))
              (Apart-range j s.buffer_base_ptr c (omega (arith, v, apart, within, whole, l, h))))))
        ∙ taken_bytes front (omega (arith, whole)) (omega arith)

    beyond_first : (k : ℕ) → k ≤ length addrs → k - f ≤ c
    beyond_first k l = omega (
      arith,
      l,
      ap length at,
      length-append (range (buf.begin + front) f) (range s.buffer_base_ptr c),
      length-range (buf.begin + front) f,
      length-range s.buffer_base_ptr c,
    )

    loop_bytes :
        (memory' : ℕ → ℕ) (k : ℕ)
        → k ≤ length addrs
        → map memory' (take k addrs)
          ≡ map memory' (range (buf.begin + front) (min k f))
            ++ map memory' (range s.buffer_base_ptr (k - f))
    loop_bytes memory' k l =
        ap (λ t. map memory' (take k t)) at
        ∙ ap (map memory')
            (take-ranges k (buf.begin + front) f s.buffer_base_ptr c (beyond_first k l))
        ∙ map-append memory' (range (buf.begin + front) (min k f)) (range s.buffer_base_ptr (k - f))

    buffered_bytes :
        (memory' : ℕ → ℕ) (s' : InputStream) (q o : ℕ)
        → s'.buffer_available ≡ q
        → ((s'.buffer_available ≡ 0) × (s'.buffer_offset ≡ o)) ⊎ (s'.buffer_offset ≡ 0)
        → s'.buffer_base_ptr ≡ s.buffer_base_ptr
        → available memory' s' ≡ map memory' (range s.buffer_base_ptr q)
    buffered_bytes memory' s' q o e (inl (none_left, same)) b =
        let nothing : q ≡ 0 = omega (arith, e, none_left) in rw (none_left, nothing) refl
    buffered_bytes memory' s' q o e (inr start) b =
        let g : s'.buffer_base_ptr + s'.buffer_offset ≡ s.buffer_base_ptr =
          omega (arith, b, start) in
        ap₂ (λ x n. elements memory' (record { begin = x; size = n })) g e
        ∙ sym (map-range memory' s.buffer_base_ptr q)

    pub slow_kept :
        (result : ReadResult)
        → LoopKept read1 f 0 (record s { buffer_available = z }) addrs (taken front) src result
        → ReadKept buf s memory src result
    slow_kept none kept = tt
    slow_kept (some (none, s', memory', src')) (k, st, shape) = shape
    slow_kept (some (some n, s', memory', src')) (k, (l, bytes, same), (e, a, o, b, cap, m)) =
        let q : s'.buffer_available ≡ k - f = omega (arith, a) in
        let p : n ≡ front + min k f = omega (arith, e, read1_eq) in
        (
          omega (arith, p, whole),
          record {
            inside = omega (arith, o, q, cap, v, within, beyond_first k l);
            small = omega (arith, cap, v);
            unmanaged = elim v.unmanaged [
              | inl managed ↦ inl (m ∙ managed)
              | inr nothing ↦ inr (cap ∙ nothing)
            ];
          },
          ap₂ (λ x y. x ++ y ++ src'.coming)
                (sym (map-range memory' buf.begin n)
                  ∙ ap (λ j. map memory' (range buf.begin j)) p
                  ∙ map-split memory' buf.begin front (min k f)
                  ∙ ap (λ t. t ++ map memory' (range (buf.begin + front) (min k f)))
                      (front_bytes memory' same
                        ∙ map-range memory (s.buffer_base_ptr + s.buffer_offset) front))
                (buffered_bytes memory' s' (k - f) _ q o b)
              ∙ ap (λ t. t ++ src'.coming)
                  (append_assoc (available memory s)
                    (map memory' (range (buf.begin + front) (min k f)))
                    (map memory' (range s.buffer_base_ptr (k - f))))
              ∙ append_assoc (available memory s) _ src'.coming
              ∙ ap (λ t. available memory s ++ t)
                  (ap (λ t. t ++ src'.coming) (sym (loop_bytes memory' k l)) ∙ bytes),
        )
