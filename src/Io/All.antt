-- ===== src/Io/All.antt =====
-- core/lbu/io.h: `read_all` and `write_all`.
use lbu.Common.{
  ℕ, zero, suc, ◌+◌, ◌-◌, ◌≤◌, ◌<◌, ◌≡◌, ◌≢◌, ◌↔◌, List, [], ◌∷◌, ◌++◌, Option, none, some,
  Bool-cases, true, inl, inr, ltb, ◌==◌, arith, refl, sym, ap, ◌∙◌, append_assoc, append-nil, min,
}
use lbu.Common.Words.{sub_word, sub_word_exact}
use lbu.ArrayRef.{ArrayRef, sub}
use lbu.Io.{word, Response, moved, failed, eintr, eio, range, read_all, write_all}
use lbu.Io.Vectors.{range-split}

pub read_all-write_all :
    (rs : List Response) (buf : ArrayRef) (done : List ℕ)
    → read_all rs buf done ≡ write_all rs buf done
unfolding read_all write_all
read_all-write_all [] buf done = refl
read_all-write_all (moved k ∷ rs) buf done =
    let r = min k buf.size in
    rw (read_all-write_all rs (sub word buf r (word - 1)) (done ++ range buf.begin r)) refl
read_all-write_all (failed e ∷ rs) buf done = rw (read_all-write_all rs buf done) refl

-- Calls that are interrupted or move at least one byte, with room for how many in all.
abbrev pub Ready : List Response → Type 0
Ready [] = Unit
Ready (moved k ∷ rs) = (0 < k) × Ready rs
Ready (failed e ∷ rs) = (e ≡ eintr) × Ready rs

abbrev pub room : List Response → ℕ
room [] = 0
room (moved k ∷ rs) = k + room rs
room (failed e ∷ rs) = room rs

left_of :
    (b n r : ℕ)
    → r ≤ n
    → n < word
    → sub word (record { begin = b; size = n }) r (word - 1)
      ≡ record { begin = b + r; size = n - r }
unfolding sub
left_of b n r h k =
    let e : min (word - 1) (sub_word word n r) ≡ n - r =
      omega (arith, sub_word_exact word n r h k) in
    rw e refl

write_all_from :
    (rs : List Response) (b n : ℕ) (done : List ℕ)
    → Ready rs
    → n < word
    → n ≤ room rs
    → write_all rs (record { begin = b; size = n }) done ≡ some (0, done ++ range b n)
unfolding write_all
write_all_from [] b n done ready h k = let e : n ≡ 0 = omega arith in rw (e, append-nil) refl
write_all_from (moved k ∷ rs) b zero done ready h l = rw append-nil refl
write_all_from (failed e ∷ rs) b zero done ready h l = rw append-nil refl
write_all_from (failed e ∷ rs) b (suc n) done (f, ready) h l =
    let g : (e == eintr) ≡ true = ground arith in
    let i : ltb 0 (suc n) ≡ true = ground arith in
    rw (i, g) (write_all_from rs b (suc n) done ready h l)
write_all_from (moved k ∷ rs) b (suc n) done (pos, ready) h l =
    let r = min k (suc n) in
    let e : ltb 0 r ≡ true = ground arith in
    let f : r + (suc n - r) ≡ suc n = omega arith in
    let g : ltb 0 (suc n) ≡ true = ground arith in
    rw (g, e, left_of b (suc n) r (omega arith) h)
      (write_all_from rs (b + r) (suc n - r) (done ++ range b r) ready (omega arith) (omega arith)
        ∙ ap (λ l. some (0, l))
            (append_assoc done (range b r) (range (b + r) (suc n - r))
              ∙ ap (λ l. done ++ l) (sym (range-split b r (suc n - r)) ∙ ap (range b) f)))

-- If every call is interrupted or moves at least one byte, and they have room for all, then
-- `write_all` returns without an error and has moved the whole buffer, in order.
pub write_all_lem :
    (rs : List Response) (buf : ArrayRef)
    → Ready rs
    → buf.size < word
    → buf.size ≤ room rs
    → write_all rs buf [] ≡ some (0, range buf.begin buf.size)
write_all_lem rs buf ready h k = write_all_from rs buf.begin buf.size [] ready h k

-- A failed call sets an error number that is not 0.
abbrev pub Errors : List Response → Type 0
Errors [] = Unit
Errors (moved k ∷ rs) = Errors rs
Errors (failed e ∷ rs) = (e ≢ 0) × Errors rs

-- A first part of the buffer was moved, and all of it if there was no error.
abbrev pub Part : ℕ → ℕ → List ℕ → Option (ℕ × List ℕ) → Type 0
Part b n done none = Unit
Part b n done (some (status, out)) =
    (k : ℕ) × (k ≤ n) × (out ≡ done ++ range b k) × ((status ≡ 0) ↔ (k ≡ n))

whole-Part : (b n : ℕ) (done : List ℕ) → n ≡ 0 → Part b n done (some (0, done))
whole-Part b n done e = (0, omega arith, sym (append-nil done), ((λ _. sym e), (λ _. refl)))

none-Part : (b n e : ℕ) (done : List ℕ) → 0 < n → e ≢ 0 → Part b n done (some (e, done))
none-Part b n e done pos ne =
    (0, omega arith, sym (append-nil done), ((λ z. absurd (ne z)), (λ z. omega arith)))

more-Part :
    (b n r : ℕ) (done : List ℕ) (result : Option (ℕ × List ℕ))
    → r ≤ n
    → Part (b + r) (n - r) (done ++ range b r) result
    → Part b n done result
more-Part b n r done none h p = tt
more-Part b n r done (some (status, out)) h (k, l, e, f) = (
  r + k,
  omega arith,
  e
      ∙ append_assoc done (range b r) (range (b + r) k)
      ∙ ap (λ l. done ++ l) (sym (range-split b r k)),
  ((λ z. omega (arith, f.0 z)), (λ z. f.1 (omega arith))),
)

write_all-Part_from :
    (rs : List Response) (b n : ℕ) (done : List ℕ)
    → Errors rs
    → n < word
    → Part b n done (write_all rs (record { begin = b; size = n }) done)
unfolding write_all
write_all-Part_from [] b zero done errors h = whole-Part b 0 done refl
write_all-Part_from (moved k ∷ rs) b zero done errors h = whole-Part b 0 done refl
write_all-Part_from (failed e ∷ rs) b zero done errors h = whole-Part b 0 done refl
write_all-Part_from [] b (suc n) done errors h =
    let g : ltb 0 (suc n) ≡ true = ground arith in rw g tt
write_all-Part_from (failed e ∷ rs) b (suc n) done (ne, errors) h =
    let g : ltb 0 (suc n) ≡ true = ground arith in
    rw g (elim (Bool-cases (e == eintr)) [
      | inl again ↦ rw again (write_all-Part_from rs b (suc n) done errors h)
      | inr other ↦ rw other (none-Part b (suc n) e done (omega arith) ne)
    ])
write_all-Part_from (moved k ∷ rs) b (suc n) done errors h =
    let r = min k (suc n) in
    let g : ltb 0 (suc n) ≡ true = ground arith in
    rw g (elim (Bool-cases (ltb 0 r)) [
      | inl some_moved ↦
          rw (some_moved, left_of b (suc n) r (omega arith) h)
            (more-Part b (suc n) r done
              (write_all rs (record { begin = b + r; size = suc n - r }) (done ++ range b r))
              (omega arith)
              (write_all-Part_from rs (b + r) (suc n - r) (done ++ range b r) errors (omega arith)))
      | inr nothing ↦
          rw nothing (none-Part b (suc n) eio done (omega arith) (λ e. absurd (omega (arith, e))))
    ])

-- Whatever the calls do, where a failure sets an error number that is not 0: when `write_all`
-- returns, it has moved a first part of the buffer, in order, and the status is 0 exactly if that is
-- the whole buffer.
pub write_all-Part :
    (rs : List Response) (buf : ArrayRef)
    → Errors rs
    → buf.size < word
    → Part buf.begin buf.size [] (write_all rs buf [])
write_all-Part rs buf errors h = write_all-Part_from rs buf.begin buf.size [] errors h
