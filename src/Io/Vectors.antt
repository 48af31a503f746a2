-- ===== src/Io/Vectors.antt =====
-- core/lbu/io.h: an array of buffers names a sequence of addresses, of which an advance drops the
-- first.
use lbu.Common.{
  ◌++◌, suc, zero, ℕ, zero, suc, ◌+◌, ◌-◌, ◌≤◌, ◌<◌, ◌≡◌, ◌↔◌, List, [], ◌∷◌, ◌++◌, Bool-cases,
  true, false, inl, inr, ltb, leb, arith, refl, sym, ap, ◌∙◌, drop, length, length-append,
}
use lbu.Common.Words.{add_word_exact}
use lbu.Io.{
  word, IoVector, io_vector_array_size_sum, io_vector_array_has_zero_size, io_vector_array_advance,
  range,
}

pub length-range : (b n : ℕ) → length (range b n) ≡ n
length-range b zero = refl
length-range b (suc n) = ap suc (length-range (suc b) n)

pub range-split : (b k n : ℕ) → range b (k + n) ≡ range b k ++ range (b + k) n
range-split b zero n =
    let e : 0 + n ≡ n = omega arith in let f : b + 0 ≡ b = omega arith in rw (e, f) refl
range-split b (suc k) n =
    let e : suc k + n ≡ suc (k + n) = omega arith in
    let f : b + suc k ≡ suc b + k = omega arith in
    rw (e, f) (ap (λ l. b ∷ l) (range-split (suc b) k n))

pub drop-append_past {ℓ} :
    {A : Type ℓ} (k : ℕ) (xs ys : List A)
    → length xs ≤ k
    → drop k (xs ++ ys) ≡ drop (k - length xs) ys
drop-append_past k [] ys h = ap (λ n. drop n ys) (omega arith)
drop-append_past zero (x ∷ xs) ys h = absurd (omega arith)
drop-append_past (suc k) (x ∷ xs) ys h =
    drop-append_past k xs ys (omega arith) ∙ ap (λ n. drop n ys) (omega arith)

pub drop-append_inside {ℓ} :
    {A : Type ℓ} (k : ℕ) (xs ys : List A) → k ≤ length xs → drop k (xs ++ ys) ≡ drop k xs ++ ys
drop-append_inside zero xs ys h = refl
drop-append_inside (suc k) [] ys h = absurd (omega arith)
drop-append_inside (suc k) (x ∷ xs) ys h = drop-append_inside k xs ys (omega arith)

pub drop-range : (k b n : ℕ) → k ≤ n → drop k (range b n) ≡ range (b + k) (n - k)
drop-range zero b n h =
    let e : b + 0 ≡ b = omega arith in let f : n - 0 ≡ n = omega arith in rw (e, f) refl
drop-range (suc k) b zero h = absurd (omega arith)
drop-range (suc k) b (suc n) h =
    let e : suc b + k ≡ b + suc k = omega arith in
    let f : n - k ≡ suc n - suc k = omega arith in
    drop-range k (suc b) n (omega arith) ∙ rw (e, f) refl

-- The addresses that an array of buffers names, in order.
abbrev pub addresses : List IoVector → List ℕ
addresses [] = []
addresses (v ∷ vs) = range v.iov_base v.iov_len ++ addresses vs

-- An advance of an array of buffers by no more than they hold leaves exactly the addresses behind
-- the first `size`.
pub advance-drop :
    (vs : List IoVector) (size : ℕ)
    → size ≤ length (addresses vs)
    → addresses (io_vector_array_advance vs size) ≡ drop size (addresses vs)
unfolding io_vector_array_advance
advance-drop [] size h = let e : size ≡ 0 = omega arith in rw e refl
advance-drop (v ∷ vs) size h =
    let n = length-range v.iov_base v.iov_len in
    let total = length-append (range v.iov_base v.iov_len) (addresses vs) in
    elim (Bool-cases (ltb 0 size)) [
      | inr nothing ↦ let e : size ≡ 0 = ground arith in rw e refl
      | inl some_left ↦ elim (Bool-cases (leb v.iov_len size)) [
        | inl whole ↦
            rw (some_left, whole)
              (advance-drop vs (size - v.iov_len) (omega (arith, n, total))
                ∙ sym (
                    drop-append_past size (range v.iov_base v.iov_len) (addresses vs)
                      (ground (arith, n))
                    ∙ ap (λ k. drop (size - k) (addresses vs)) n))
        | inr part ↦
            rw (some_left, part)
              (ap (λ l. l ++ addresses vs)
                  (sym (drop-range size v.iov_base v.iov_len (ground arith)))
                ∙ sym (
                    drop-append_inside size (range v.iov_base v.iov_len) (addresses vs)
                      (ground (arith, n))))
      ]
    ]

sum_from :
    (vs : List IoVector) (result : ℕ)
    → result + length (addresses vs) < word
    → io_vector_array_size_sum vs result ≡ result + length (addresses vs)
unfolding io_vector_array_size_sum
sum_from [] result h = omega arith
sum_from (v ∷ vs) result h =
    let n = length-range v.iov_base v.iov_len in
    let total = length-append (range v.iov_base v.iov_len) (addresses vs) in
    let e = add_word_exact word result v.iov_len (omega (arith, n, total)) in
    rw e (sum_from vs (result + v.iov_len) (omega (arith, n, total)) ∙ omega (arith, n, total))

pub size_sum_eq :
    (vs : List IoVector)
    → length (addresses vs) < word
    → io_vector_array_size_sum vs 0 ≡ length (addresses vs)
size_sum_eq vs h = sum_from vs 0 (omega arith) ∙ omega arith

ltb_zero : (n : ℕ) → ltb 0 n ≡ false → n ≡ 0
ltb_zero n e = ground arith

pub has_zero_size_iff :
    (vs : List IoVector) → (io_vector_array_has_zero_size vs ≡ true) ↔ (length (addresses vs) ≡ 0)
unfolding io_vector_array_has_zero_size
has_zero_size_iff [] = (λ e. refl, λ e. refl)
has_zero_size_iff (v ∷ vs) =
    let n = length-range v.iov_base v.iov_len in
    let total = length-append (range v.iov_base v.iov_len) (addresses vs) in
    let ih = has_zero_size_iff vs in
    elim (Bool-cases (ltb 0 v.iov_len)) [
      | inl some_len ↦ rw some_len (λ e. absurd (cc e), λ e. absurd (ground (arith, n, total)))
      | inr no_len ↦ rw no_len (
        λ e. omega (arith, n, total, ih.0 e, ltb_zero v.iov_len no_len),
        λ e. ih.1 (omega (arith, n, total)),
      )
    ]
