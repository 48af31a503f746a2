-- ===== src/ByteStream/Incremental.antt =====
-- core/lbu/abstract_stream.h: `incremental_reader` and `incremental_writer`, which move the bytes of one
-- array over several calls.
use lbu.Common.{
  ℕ, ◌+◌, ◌-◌, ◌≤◌, ◌≡◌, ◌==◌, Option, none, some, Bool, true, false, min, List, [], ◌∷◌, ◌++◌,
  append-nil, append_assoc, arith, refl, ap, sym, ◌∙◌, if◌then◌else◌, either_when,
}
use lbu.ArrayRef.{ArrayRef}
use lbu.Io.{range}
use lbu.Io.Vectors.{range-split}

-- `incremental_reader` and `incremental_writer`
pub record Incremental : Type 0 where
  pub position : ℕ
  pub left : ℕ

unfoldable pub reset : ArrayRef → Incremental
reset dst = record { position = dst.begin; left = dst.size }

-- `read`, of the value that the stream's `read` returns, where `none` is negative
unfoldable pub read : Incremental → Option ℕ → Bool × Incremental
read r none = (false, r)
read r (some c) =
    let left = r.left - c in
    if left == 0
    then (true, record r { left = left })
    else (false, record { position = r.position + c; left = left })

-- `write`, in the same way
unfoldable pub write : Incremental → Option ℕ → Bool × Incremental
write w none = (false, w)
write w (some c) =
    let left = w.left - c in
    if left == 0
    then (true, record w { left = left })
    else (false, record { position = w.position + c; left = left })

-- The calls until one returns true, with what the stream does at each: it moves so many bytes, but no
-- more than it is asked for, or it fails. The result is that of the last call, the addresses of the
-- bytes moved, and the state.
unfoldable pub calls :
    (Incremental → Option ℕ → Bool × Incremental)
    → Incremental
    → List (Option ℕ)
    → Bool × List ℕ × Incremental
calls call r [] = (false, [], r)
calls call r (none ∷ rest) = let (b, r') = call r none in calls call r' rest
calls call r (some k ∷ rest) =
    let c = min k r.left in
    let (b, r') = call r (some c) in
    let (b', moved, r'') = calls call r' rest in
    if b then (true, range r.position c, r') else (b', range r.position c ++ moved, r'')

-- A call that moves bytes leaves those behind them, and none if it is the last one.
record Steps (call : Incremental → Option ℕ → Bool × Incremental) : Type 0 where
  refused : (r : Incremental) → (call r none).1 ≡ r
  moves :
      (r : Incremental) (c : ℕ)
      → c ≤ r.left
      → range r.position c ++ range (call r (some c)).1.position (call r (some c)).1.left
        ≡ range r.position r.left
  ends :
      (r : Incremental) (c : ℕ)
      → c ≤ r.left
      → (call r (some c)).0 ≡ true
      → (call r (some c)).1.left ≡ 0

calls-Steps :
    (call : Incremental → Option ℕ → Bool × Incremental)
    → Steps call
    → (script : List (Option ℕ)) (r : Incremental)
    → ((calls call r script).1
          ++ range (calls call r script).2.position (calls call r script).2.left
        ≡ range r.position r.left)
      × ((calls call r script).0 ≡ true → (calls call r script).2.left ≡ 0)
unfolding calls
calls-Steps call s [] r = (refl, λ e. absurd (ground arith))
calls-Steps call s (none ∷ rest) r =
    let (p, q) = calls-Steps call s rest (call r none).1 in
    (p ∙ ap (λ x. range x.position x.left) (s.refused r), q)
calls-Steps call s (some k ∷ rest) r =
    let c = min k r.left in
    let r' = (call r (some c)).1 in
    let (p, q) = calls-Steps call s rest r' in
    let m = s.moves r c (omega arith) in
    either_when
      (λ (x : Bool × List ℕ × Incremental).
        (x.1 ++ range x.2.position x.2.left ≡ range r.position r.left)
        × (x.0 ≡ true → x.2.left ≡ 0))
      (call r (some c)).0 _ _ (λ e. (m, λ _. s.ends r c (omega arith) e))
      (λ e. (append_assoc (range r.position c) _ _ ∙ ap (λ l. range r.position c ++ l) p ∙ m, q))

last-range : (p c n : ℕ) → n - c ≡ 0 → c ≤ n → range p c ++ range p (n - c) ≡ range p n
last-range p c n z le =
    ap (λ k. range p c ++ range p k) z ∙ append-nil (range p c) ∙ ap (range p) (omega (arith, z))

more-range : (p c n : ℕ) → c ≤ n → range p c ++ range (p + c) (n - c) ≡ range p n
more-range p c n le = sym (range-split p c (n - c)) ∙ ap (range p) (omega arith)

read-Steps : Steps read
unfolding read
read-Steps = record {
  refused = λ r. refl;
  moves = λ r c le.
      either_when
        (λ (x : Bool × Incremental).
          range r.position c ++ range x.1.position x.1.left ≡ range r.position r.left)
        (r.left - c == 0) _ _ (λ e. last-range r.position c r.left (ground arith) le)
        (λ e. more-range r.position c r.left le);
  ends = λ r c le.
      either_when (λ (x : Bool × Incremental). x.0 ≡ true → x.1.left ≡ 0) (r.left - c == 0) _ _
        (λ e _. ground arith) (λ e f. absurd (ground arith));
}

write-Steps : Steps write
unfolding read write
write-Steps = record {
  refused = read-Steps.refused;
  moves = read-Steps.moves;
  ends = read-Steps.ends;
}

-- The bytes moved and those left are the array, in order, and after the last call none is left.
abbrev pub Covers : ArrayRef → Bool × List ℕ × Incremental → Type 0
Covers dst (last, moved, r) =
    (moved ++ range r.position r.left ≡ range dst.begin dst.size) × (last ≡ true → r.left ≡ 0)

-- Over any calls, whatever the stream moves at each, or if it fails: an incremental reader and an
-- incremental writer have moved a first part of the array, in order, and the rest is what they ask for
-- next; when a call returns true, all of it has been moved.
pub incremental-Covers :
    (script : List (Option ℕ)) (dst : ArrayRef)
    → Covers dst (calls read (reset dst) script) × Covers dst (calls write (reset dst) script)
unfolding reset
incremental-Covers script dst =
    let (a, b) = calls-Steps read read-Steps script (reset dst) in
    let (c, d) = calls-Steps write write-Steps script (reset dst) in ((a, b), (c, d))
