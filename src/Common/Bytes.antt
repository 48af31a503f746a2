-- ===== src/Common/Bytes.antt =====
-- Blocks of memory as lists: what `memcpy`, `memmove` and `memset` leave behind.
use Prim.Native.Nat.{ℕ, zero, suc, ◌+◌, ◌-◌, ◌≤◌}
use mathlib.Core.Path.{◌≡◌, refl, ap, ◌∙◌, sym}
use mathlib.Core.List.{List, [], ◌∷◌, ◌++◌, append_assoc}
use native.Mathlib.Omega.{arith}
use lbu.Common.Lists.{
  length, take, drop, length-append, length-take, length-drop, take-append, drop-append,
}

module _ {ℓ} {A : Type ℓ} where
  pub take_exact : (n : ℕ) (xs ys : List A) → length xs ≡ n → take n (xs ++ ys) ≡ xs
  take_exact n xs ys e = ap (λ k. take k (xs ++ ys)) (sym e) ∙ take-append xs ys

  pub drop_exact : (n : ℕ) (xs ys : List A) → length xs ≡ n → drop n (xs ++ ys) ≡ ys
  drop_exact n xs ys e = ap (λ k. drop k (xs ++ ys)) (sym e) ∙ drop-append xs ys

  pub take_whole : (n : ℕ) (xs : List A) → length xs ≤ n → take n xs ≡ xs
  take_whole zero [] h = refl
  take_whole zero (x ∷ xs) h = absurd (omega arith)
  take_whole (suc n) [] h = refl
  take_whole (suc n) (x ∷ xs) h = ap (λ l. x ∷ l) (take_whole n xs (omega arith))

  pub take-append_left : (n : ℕ) (xs ys : List A) → n ≤ length xs → take n (xs ++ ys) ≡ take n xs
  take-append_left zero xs ys h = refl
  take-append_left (suc n) [] ys h = absurd (omega arith)
  take-append_left (suc n) (x ∷ xs) ys h = ap (λ l. x ∷ l) (take-append_left n xs ys (omega arith))

  pub take-take : (n m : ℕ) (xs : List A) → n ≤ m → take n (take m xs) ≡ take n xs
  take-take zero m xs h = refl
  take-take (suc n) zero xs h = absurd (omega arith)
  take-take (suc n) (suc m) [] h = refl
  take-take (suc n) (suc m) (x ∷ xs) h = ap (λ l. x ∷ l) (take-take n m xs (omega arith))

  pub drop-take : (n m : ℕ) (xs : List A) → drop n (take m xs) ≡ take (m - n) (drop n xs)
  drop-take zero m xs = ap (λ k. take k xs) (omega arith)
  drop-take (suc n) zero xs = let e : zero - suc n ≡ 0 = omega arith in rw e
  drop-take (suc n) (suc m) [] = sym (take-nil (suc m - suc n))
    where
      take-nil : (k : ℕ) → take {A = A} k [] ≡ []
      take-nil zero = refl
      take-nil (suc k) = refl
  drop-take (suc n) (suc m) (x ∷ xs) = drop-take n m xs ∙ ap (λ k. take k (drop n xs)) (omega arith)

  -- `ys` over the bytes from `i` on.
  unfoldable pub write : List A → ℕ → List A → List A
  write xs i ys = take i xs ++ (ys ++ drop (i + length ys) xs)

  pub length-write :
      (xs : List A) (i : ℕ) (ys : List A)
      → i + length ys ≤ length xs
      → length (write xs i ys) ≡ length xs
  unfolding write
  length-write xs i ys h = omega (
    arith,
    length-append (take i xs) (ys ++ drop (i + length ys) xs),
    length-append ys (drop (i + length ys) xs),
    length-take i xs,
    length-drop (i + length ys) xs,
  )

  -- What a write leaves up to its end.
  pub take-write :
      (n : ℕ) (xs : List A) (i : ℕ) (ys : List A)
      → i ≤ length xs
      → n ≡ i + length ys
      → take n (write xs i ys) ≡ take i xs ++ ys
  unfolding write
  take-write n xs i ys h e =
      ap (take n) (sym (append_assoc (take i xs) ys (drop (i + length ys) xs)))
      ∙ take_exact n (take i xs ++ ys) (drop (i + length ys) xs)
          (omega (arith, length-append (take i xs) ys, length-take i xs))

  -- Bytes moved up out of the way, and a gap filled: what `memmove` and `memcpy` do for an insert.
  pub write_gap :
      (n : ℕ) (xs : List A) (i : ℕ) (moved ys : List A)
      → i + length ys + length moved ≤ length xs
      → n ≡ i + length ys + length moved
      → take n (write (write xs (i + length ys) moved) i ys) ≡ take i xs ++ (ys ++ moved)
  unfolding write
  write_gap n xs i moved ys h e =
      rw
        (
          take-append_left i (take (i + length ys) xs) _
              (omega (arith, length-take (i + length ys) xs)),
          take-take i (i + length ys) xs (omega arith),
          drop_exact (i + length ys) (take (i + length ys) xs) _
              (omega (arith, length-take (i + length ys) xs)),
        )
        (ap (take n) (regroup (take i xs) ys moved (drop (i + length ys + length moved) xs))
          ∙ take_exact n (take i xs ++ (ys ++ moved)) _ (
              omega (
                arith,
                length-append (take i xs) (ys ++ moved),
                length-append ys moved,
                length-take i xs,
              )))
    where
      regroup : (ps qs rs ts : List A) → ps ++ (qs ++ (rs ++ ts)) ≡ (ps ++ (qs ++ rs)) ++ ts
      regroup ps qs rs ts = simp append_assoc
