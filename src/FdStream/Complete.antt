-- ===== src/FdStream/Complete.antt =====
-- core/fd_stream.cpp: the loop of a blocking read of `fd_input_stream`.
use lbu.Common.{
  ℕ, zero, suc, Option, none, some, true, false, ◌&&◌, ltb, ◌==◌, min, ◌+◌, ◌≤◌, ◌<◌, ◌≡◌, ◌⊎◌, inl,
  inr, List, [], ◌∷◌, length, length-drop, take, drop, either_when, arith, refl, sym, ap, subst,
}
use lbu.Io.{IoVector, Response, moved, failed, eintr, temp_fail_retry, io_vector_array_advance}
use lbu.Io.Vectors.{addresses, advance-drop}
use lbu.Io.All.{Ready}
use lbu.FdStream.{blocking}
use lbu.FdStream.Input.{InputStream, Source, store_at, readv, ReadResult, read_result, read_loop}
use lbu.FdStream.Vectored.{none_left}

-- How many of the calls are not interrupted.
abbrev pub moves : List Response → ℕ
moves [] = 0
moves (moved k ∷ rs) = suc (moves rs)
moves (failed e ∷ rs) = moves rs

retry-moves :
    (rs : List Response)
    → Ready rs
    → 0 < moves rs
    → (k : ℕ) × (rest : List Response) × (temp_fail_retry rs ≡ some (moved k, rest))
      × (0 < k)
      × Ready rest
      × (moves rs ≡ suc (moves rest))
      × (length rest < length rs)
unfolding temp_fail_retry
retry-moves [] ready h = absurd (omega arith)
retry-moves (moved k ∷ rs) (pos, ready) h = (k, rs, refl, pos, ready, refl, omega arith)
retry-moves (failed e ∷ rs) (f, ready) h =
    let (k, rest, g, pos, ready', r, l) = retry-moves rs ready h in
    let i : (e == eintr) ≡ true = ground arith in (k, rest, rw i g, pos, ready', r, omega arith)

-- The read has returned without an error, and `n` is the count unless the file has ended.
abbrev pub Completed : ℕ → ReadResult → Type 0
Completed n none = ⊥
Completed n (some (none, s', memory', src')) = ⊥
Completed n (some (some m, s', memory', src')) =
    (m ≡ n) ⊎ ((m < n) × (s'.at_end ≡ true) × (src'.coming ≡ []))

-- What the call of the file that moves at most `k` bytes returns.
abbrev moved_result :
    (ℕ → ℕ) → List IoVector → Source → ℕ → List Response → Option (Response × (ℕ → ℕ) × Source)
moved_result memory vs src k rest =
    let r = min k (min (length (addresses vs)) (length src.coming)) in
    some (
      moved r,
      store_at memory (take r (addresses vs)) (take r src.coming),
      record { script = rest; coming = drop r src.coming },
    )

readv_eq :
    (memory : ℕ → ℕ) (vs : List IoVector) (src : Source) (k : ℕ) (rest : List Response)
    → temp_fail_retry src.script ≡ some (moved k, rest)
    → readv memory vs src ≡ moved_result memory vs src k rest
unfolding readv
readv_eq memory vs src k rest e = rw (e, readv) refl

module _ (buffer_read first : ℕ) (s : InputStream) (managed : s.manages_buffer ≡ true) where
  round-Completed :
      (count : ℕ) (vs : List IoVector) (more : ℕ → (ℕ → ℕ) → Source → ReadResult) (r : ℕ)
      (memory' : ℕ → ℕ) (src' : Source)
      → count < first
      → (r ≡ 0 → src'.coming ≡ [])
      → ((j : ℕ)
          → r ≡ suc j
          → count + r < first
          → Completed (first + buffer_read) (more j memory' src'))
      → Completed (first + buffer_read) (
          read_result blocking buffer_read first first vs count s more
            (some (moved r, memory', src')))
  unfolding read_result
  round-Completed count vs more zero memory' src' h ended next =
      rw managed (inr (omega (arith, h), refl, ended refl))
  round-Completed count vs more (suc r) memory' src' h ended next =
      either_when (Completed (first + buffer_read)) (ltb (count + suc r) first) _ _
        (λ t. next r refl (ground arith))
        (λ enough.
          either_when (λ x. Completed (first + buffer_read) (some x))
            (s.manages_buffer && ltb first (count + suc r)) _ _ (λ t. inl refl)
            (λ t. inl (
              let fits : ltb first (count + suc r) ≡ false = rw managed at t in
              let n : count + suc r ≡ first = ground (arith, fits, enough) in
              ap (λ j. j + buffer_read) n)))

  pub loop-Completed :
      (fuel count : ℕ) (vs : List IoVector) (memory : ℕ → ℕ) (src : Source)
      → Ready src.script
      → count < first
      → first ≤ count + moves src.script
      → first ≤ count + length (addresses vs)
      → length src.script < fuel
      → Completed
          (first + buffer_read)
          (read_loop blocking buffer_read first first fuel vs count s memory src)
  unfolding read_loop
  loop-Completed zero count vs memory src ready h enough room f = absurd (omega arith)
  loop-Completed (suc fuel) count vs memory src ready h enough room f =
      let (k, rest, e, pos, ready', n, l) = retry-moves src.script ready (omega arith) in
      let addrs = addresses vs in
      let r = min k (min (length addrs) (length src.coming)) in
      let less = length-drop r src.coming in
      let more : ℕ → (ℕ → ℕ) → Source → ReadResult = λ j.
        read_loop blocking buffer_read first first fuel (io_vector_array_advance vs (suc j))
          (count + suc j) s in
      subst
        (λ t.
          Completed (first + buffer_read)
            (read_result blocking buffer_read first first vs count s more t))
        (sym (readv_eq memory vs src k rest e))
        (round-Completed count vs more r _ _ h
          (λ z. none_left _ (omega (arith, z, less, pos, room, h)))
          (λ j z c.
            let at = advance-drop vs (suc j) (omega (arith, z)) in
            loop-Completed fuel (count + suc j) (io_vector_array_advance vs (suc j)) _ _ ready'
              (omega (arith, z, c)) (omega (arith, n, enough))
              (omega (arith, room, z, ap length at, length-drop (suc j) addrs))
              (omega (arith, l, f))))
