-- ===== src/ByteStream/Reading.antt =====
-- core/byte_buffer_stream.cpp: the bytes that reads give.
use lbu.Common.{
  ℕ, zero, suc, ◌+◌, ◌-◌, ◌^◌, ◌≤◌, ◌<◌, ◌≡◌, List, [], ◌∷◌, some, Bool, Bool-cases, true, false,
  inl, inr, ltb, leb, ◌&&◌, not, min, arith, refl, sym, ap, ◌∙◌, length, take, drop, length-take,
  length-drop, if◌then◌else◌,
}
use lbu.Common.Words.{add_word, add_word_exact, sub_word_exact}
use lbu.Common.Bytes.{take-take, drop-take, take_whole}
use lbu.ByteStream.Reader.{
  ByteBufferInputStream, reset, current_buffer, advance, Read, read_stream, read,
}

pub record IsValid (s : ByteBufferInputStream) : Type 0 where
  pub inside : s.buffer_offset + s.buffer_available ≤ length s.buffer_base_ptr
  pub small : s.buffer_offset + s.buffer_available < 2 ^ 32

pub length-current_buffer :
    (s : ByteBufferInputStream) → IsValid s → length (current_buffer s) ≡ s.buffer_available
unfolding current_buffer
length-current_buffer s v = omega (
  arith,
  v,
  length-take s.buffer_available (drop s.buffer_offset s.buffer_base_ptr),
  length-drop s.buffer_offset s.buffer_base_ptr,
)

pub reset-IsValid : (buf : List ℕ) → length buf < 2 ^ 32 → IsValid (reset buf)
unfolding reset
reset-IsValid buf h =
    let e : leb (length buf) (2 ^ 32 - 1) ≡ true = ground arith in
    record { inside = rw e (omega arith); small = rw e (omega arith) }

drop_all : (n : ℕ) (xs : List ℕ) → length xs ≤ n → drop n xs ≡ []
drop_all zero [] h = refl
drop_all zero (x ∷ xs) h = absurd (omega arith)
drop_all (suc n) [] h = refl
drop_all (suc n) (x ∷ xs) h = drop_all n xs (omega arith)

drop-drop : (n k : ℕ) (xs : List ℕ) → drop n (drop k xs) ≡ drop (k + n) xs
drop-drop n zero xs = ap (λ j. drop j xs) (omega arith)
drop-drop n (suc k) [] = drop_all n [] (omega arith) ∙ sym (drop_all (suc k + n) [] (omega arith))
drop-drop n (suc k) (x ∷ xs) =
    let e : suc k + n ≡ suc (k + n) = omega arith in rw e (drop-drop n k xs)

-- What a read of `size` bytes from a stream with the bytes `left` to read gives.
pub record HasRead (left : List ℕ) (size : ℕ) (r : Read) : Type 0 where
  pub valid : IsValid (r.2)
  pub count : r.0 ≡ some (min size (length left))
  pub bytes : r.1 ≡ take size left
  pub rest : current_buffer (r.2) ≡ drop size left
  pub no_error : (r.2).has_error ≡ false
  pub ended : ltb (length left) size && not (r.2).at_end ≡ false

fast :
    (s : ByteBufferInputStream) (size : ℕ)
    → IsValid s
    → s.has_error ≡ false
    → size ≤ s.buffer_available
    → HasRead
        (current_buffer s)
        size
        (some size, take size (drop s.buffer_offset s.buffer_base_ptr), advance s size)
unfolding advance current_buffer
fast s size v fine h =
    let n = length-current_buffer s v in
    let a = add_word_exact (2 ^ 32) s.buffer_offset size (omega (arith, v)) in
    let b = sub_word_exact (2 ^ 32) s.buffer_available size h (omega (arith, v)) in
    record {
      valid = record { inside = omega (arith, v, a, b); small = omega (arith, v, a, b) };
      count = ap some (omega (arith, n));
      bytes = sym (take-take size s.buffer_available (drop s.buffer_offset s.buffer_base_ptr) h);
      rest =
          ap (λ k. take k (drop (add_word (2 ^ 32) s.buffer_offset size) s.buffer_base_ptr)) b
          ∙ ap (λ k. take (s.buffer_available - size) (drop k s.buffer_base_ptr)) a
          ∙ ap (take (s.buffer_available - size))
              (sym (drop-drop size s.buffer_offset s.buffer_base_ptr))
          ∙ sym (drop-take size s.buffer_available (drop s.buffer_offset s.buffer_base_ptr));
      no_error = fine;
      ended = ended_fast (length (current_buffer s)) size s.at_end (omega (arith, n));
    }
  where
    ended_fast : (n size : ℕ) (e : Bool) → size ≤ n → ltb n size && not e ≡ false
    ended_fast n size e h = let f : ltb n size ≡ false = ground arith in rw f refl

if_any : (b : Bool) (xs : List ℕ) → (b ≡ false → length xs ≡ 0) → (if b then xs else []) ≡ xs
if_any true xs h = refl
if_any false [] h = refl
if_any false (x ∷ xs) h = absurd (omega (arith, h refl))

slow :
    (s : ByteBufferInputStream) (size : ℕ)
    → IsValid s
    → s.has_error ≡ false
    → (leb size s.buffer_available && ltb 0 s.buffer_available) ≡ false
    → HasRead (current_buffer s) size (read_stream s)
unfolding read_stream
slow s size v fine h =
    let n = length-current_buffer s v in
    let l : s.buffer_available ≤ size = ground arith in
    rw fine (record {
      valid = record { inside = omega (arith, v); small = omega (arith, v) };
      count = ap some (omega (arith, n));
      bytes =
          if_any (ltb 0 s.buffer_available) (current_buffer s) (λ e. ground (arith, n))
          ∙ sym (take_whole size (current_buffer s) (omega (arith, n)));
      rest = sym (drop_all size (current_buffer s) (omega (arith, n)));
      no_error = refl;
      ended = ground arith;
    })

-- From a valid stream without an error, a read of any size gives the first bytes that are left, as
-- many as there are up to the size, and says how many; the stream is valid and without an error
-- again, has the others left, and is at its end if there were fewer than asked for.
pub read-HasRead :
    (s : ByteBufferInputStream) (size : ℕ)
    → IsValid s
    → s.has_error ≡ false
    → HasRead (current_buffer s) size (read s size)
unfolding read
read-HasRead s size v fine =
    elim (Bool-cases (leb size s.buffer_available && ltb 0 s.buffer_available)) [
      | inl fits ↦ rw fits (fast s size v fine (ground arith))
      | inr large ↦ rw large (slow s size v fine large)
    ]
