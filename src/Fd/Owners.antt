-- ===== src/Fd/Owners.antt =====
-- core/lbu/fd.h: the descriptors behind handles that own them.
use lbu.Common.{ℕ, suc, ◌+◌, ◌≡◌, List, [], ◌∷◌, none, some, ◌==◌, arith, refl, if◌then◌else◌}
use lbu.Fd.{Fd, close, reset, release, move}

-- Two handles, with what has been closed, and what has been handed out by `release`.
pub record Handles : Type 0 where
  pub first : Fd
  pub second : Fd
  pub closed : List ℕ
  pub released : List ℕ

pub data Op : Type 0 where
  reset_first : Fd → Op
  reset_second : Fd → Op
  release_first : Op
  release_second : Op
  move_to_first : Op
  move_to_second : Op
  swap : Op

abbrev out : Fd → List ℕ → List ℕ
out none fs = fs
out (some f) fs = f ∷ fs

unfoldable pub apply : Op → Handles → Handles
unfolding reset release move close
apply (reset_first f) h =
    let (d, c) = reset h.first f h.closed in record h { first = d; closed = c }
apply (reset_second f) h =
    let (d, c) = reset h.second f h.closed in record h { second = d; closed = c }
apply release_first h =
    let (f, d) = release h.first in record h { first = d; released = out f h.released }
apply release_second h =
    let (f, d) = release h.second in record h { second = d; released = out f h.released }
apply move_to_first h =
    let (d, u, c) = move h.first h.second h.closed in record h { first = d; second = u; closed = c }
apply move_to_second h =
    let (d, u, c) = move h.second h.first h.closed in record h { second = d; first = u; closed = c }
apply swap h = record h { first = h.second; second = h.first }

unfoldable pub run : List Op → Handles → Handles
run [] h = h
run (o ∷ os) h = run os (apply o h)

-- The destructors, in the order in which the handles go.
unfoldable pub destroy : Handles → Handles
unfolding apply
destroy h = apply (reset_first none) (apply (reset_second none) h)

abbrev pub count : ℕ → List ℕ → ℕ
count n [] = 0
count n (f ∷ fs) = let rest = count n fs in if f == n then suc rest else rest

abbrev pub owned : Fd → List ℕ
owned none = []
owned (some f) = f ∷ []

-- How often a descriptor was given to a handle.
abbrev pub given : ℕ → List Op → ℕ
given n [] = 0
given n (reset_first f ∷ os) = count n (owned f) + given n os
given n (reset_second f ∷ os) = count n (owned f) + given n os
given n (_ ∷ os) = given n os

abbrev total : ℕ → Handles → ℕ
total n h =
    count n (owned h.first) + count n (owned h.second) + count n h.closed + count n h.released

count-close : (n : ℕ) (d : Fd) (fs : List ℕ) → count n (close d fs) ≡ count n (owned d) + count n fs
unfolding close
count-close n none fs = omega arith
count-close n (some f) fs = ground arith

count-out : (n : ℕ) (d : Fd) (fs : List ℕ) → count n (out d fs) ≡ count n (owned d) + count n fs
count-out n none fs = omega arith
count-out n (some f) fs = ground arith

apply-total :
    (n : ℕ) (o : Op) (os : List Op) (h : Handles)
    → total n (apply o h) + given n os ≡ total n h + given n (o ∷ os)
unfolding apply reset release move
apply-total n (reset_first f) os h = omega (arith, count-close n h.first h.closed)
apply-total n (reset_second f) os h = omega (arith, count-close n h.second h.closed)
apply-total n release_first os h = omega (arith, count-out n h.first h.released)
apply-total n release_second os h = omega (arith, count-out n h.second h.released)
apply-total n move_to_first os h = omega (arith, count-close n h.first h.closed)
apply-total n move_to_second os h = omega (arith, count-close n h.second h.closed)
apply-total n swap os h = omega arith

run-total : (n : ℕ) (os : List Op) (h : Handles) → total n (run os h) ≡ total n h + given n os
unfolding run
run-total n [] h = omega arith
run-total n (o ∷ os) h = omega (arith, run-total n os (apply o h), apply-total n o os h)

abbrev pub empty_handles : Handles
empty_handles = record { first = none; second = none; closed = []; released = [] }

-- Two empty handles, and any resets, releases, moves and swaps, and then the destructors: each
-- descriptor has been closed or handed out exactly as often as it was given to a handle, and none is
-- left in a handle.
pub run-destroyed :
    (n : ℕ) (os : List Op)
    → (count n (destroy (run os empty_handles)).closed
          + count n (destroy (run os empty_handles)).released
        ≡ given n os)
      × ((destroy (run os empty_handles)).first ≡ none)
      × ((destroy (run os empty_handles)).second ≡ none)
unfolding destroy apply reset
run-destroyed n os =
    let h = run os empty_handles in
    (
      omega (
        arith,
        run-total n os empty_handles,
        count-close n h.second h.closed,
        count-close n h.first (close h.second h.closed),
      ),
      refl,
      refl,
    )
