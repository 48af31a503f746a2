-- ===== src/FdStream/Filled.antt =====
-- core/fd_stream.cpp: how the buffer of an input stream is filled.
use lbu.Common.{
  take-append-drop, ℕ, zero, suc, Option, none, some, Bool, true, false, ◌&&◌, ◌||◌, ◌==◌, min, ◌+◌,
  ◌^◌, ◌%◌, ◌≤◌, ◌<◌, ◌≡◌, List, [], ◌∷◌, ◌++◌, length, length-take, take, drop, append-nil, map,
  arith, refl, sym, ap, ap₂, ◌∙◌, if◌then◌else◌,
}
use lbu.Common.Family.{update, update_same, update_ne}
use lbu.ArrayRef.{ArrayRef, elements}
use lbu.ArrayRef
use lbu.Io.{IoVector, Response, moved, failed, temp_fail_retry, range}
use lbu.Io.Vectors.{addresses, length-range}
use lbu.FdStream.{Mode, blocking, non_blocking, eagain, update_blocking, u32_max}
use lbu.FdStream.Input.{InputStream, Source, store_at, readv, only_error, only_end}
use lbu.FdStream.Reads.{get_read_buffer}
use lbu.FdStream.Write.{map-range}

store_at_below :
    (memory : ℕ → ℕ) (b n : ℕ) (bytes : List ℕ) (j : ℕ)
    → j < b
    → store_at memory (range b n) bytes j ≡ memory j
unfolding store_at
store_at_below memory b zero bytes j h = refl
store_at_below memory b (suc n) [] j h = refl
store_at_below memory b (suc n) (x ∷ bytes) j h =
    store_at_below (update memory b x) (suc b) n bytes j (omega arith)
    ∙ update_ne memory b j x (λ e. absurd (omega (arith, e)))

store_at-range :
    (memory : ℕ → ℕ) (b : ℕ) (bytes : List ℕ)
    → map (store_at memory (range b (length bytes)) bytes) (range b (length bytes)) ≡ bytes
unfolding store_at
store_at-range memory b [] = refl
store_at-range memory b (x ∷ bytes) =
    ap₂ ◌∷◌
      (store_at_below (update memory b x) (suc b) (length bytes) bytes b (omega arith)
        ∙ update_same memory b x)
      (store_at-range (update memory b x) (suc b) bytes)

pub take-range : (r b n : ℕ) → r ≤ n → take r (range b n) ≡ range b r
take-range zero b n h = refl
take-range (suc r) b zero h = absurd (omega arith)
take-range (suc r) b (suc n) h = ap (λ l. b ∷ l) (take-range r (suc b) n (omega arith))

-- The reference names the bytes that the file gave; together with those still to come they are those
-- that were to come.
abbrev pub Filled :
    InputStream → Source → Option (ArrayRef × InputStream × (ℕ → ℕ) × Source) → Type 0
Filled s src none = Unit
Filled s src (some (buf, s', memory', src')) =
    (buf.size ≡ s'.buffer_available)
    × (buf.size ≤ s.buffer_capacity)
    × (elements memory' buf ++ src'.coming ≡ src.coming)

-- What one call has got from the file.
abbrev pub Got : (ℕ → ℕ) → List IoVector → Source → Option (Response × (ℕ → ℕ) × Source) → Type 0
Got memory vs src none = Unit
Got memory vs src (some (failed e, memory', src')) = (memory' ≡ memory) × (src'.coming ≡ src.coming)
Got memory vs src (some (moved r, memory', src')) =
    (r ≤ length (addresses vs))
    × (r ≤ length src.coming)
    × (memory' ≡ store_at memory (take r (addresses vs)) (take r src.coming))
    × (src'.coming ≡ drop r src.coming)

pub readv-Got :
    (memory : ℕ → ℕ) (vs : List IoVector) (src : Source) → Got memory vs src (readv memory vs src)
unfolding readv
readv-Got memory vs src =
    elim (temp_fail_retry src.script)
      as (λ o. Got memory vs src (elim o [
        | none ↦ none
        | some (moved k, rest) ↦
            let r = min k (min (length (addresses vs)) (length src.coming)) in
            some (
              moved r,
              store_at memory (take r (addresses vs)) (take r src.coming),
              record { script = rest; coming = drop r src.coming },
            )
        | some (failed e, rest) ↦ some (failed e, memory, record src { script = rest })
      ])) [
        | none ↦ tt
        | some (moved k, rest) ↦ (omega arith, omega arith, refl, refl)
        | some (failed e, rest) ↦ (refl, refl)
      ]

module _ (s : InputStream) (small : s.buffer_capacity ≤ u32_max) (used : s.buffer_available ≡ 0)
    (memory : ℕ → ℕ) (src : Source) where
  abbrev whole : List IoVector
  whole = record { iov_base = s.buffer_base_ptr; iov_len = s.buffer_capacity } ∷ []

  empty-Filled :
      (s' : InputStream) (memory' : ℕ → ℕ) (src' : Source)
      → s'.buffer_available ≡ 0
      → src'.coming ≡ src.coming
      → Filled s src (some (ArrayRef.empty, s', memory', src'))
  empty-Filled s' memory' src' e f = (sym e, omega arith, f)

  filled_bytes :
      (r : ℕ) (memory' : ℕ → ℕ) (src' : Source)
      → Got memory whole src (some (moved r, memory', src'))
      → elements memory' (record { begin = s.buffer_base_ptr + 0; size = r }) ++ src'.coming
        ≡ src.coming
  filled_bytes r memory' src' (l, k, e, f) =
      let b = s.buffer_base_ptr in
      let at : take r (addresses whole) ≡ range b r =
        ap (take r) (append-nil (range b s.buffer_capacity))
        ∙ take-range r b s.buffer_capacity (
            omega (
              arith,
              l,
              ap length (append-nil (range b s.buffer_capacity)),
              length-range b s.buffer_capacity,
            )) in
      let n : length (take r src.coming) ≡ r = omega (arith, length-take r src.coming) in
      let zero_off : b + 0 ≡ b = omega arith in
      let stored : map memory' (range b r) ≡ take r src.coming =
        ap (λ (m : ℕ → ℕ). map m (range b r))
          (e ∙ ap (λ l. store_at memory l (take r src.coming)) at)
        ∙ ap (λ j. map (store_at memory (range b j) (take r src.coming)) (range b j)) (sym n)
        ∙ store_at-range memory b (take r src.coming) in
      ap (λ c. elements memory' (record { begin = c; size = r }) ++ src'.coming) zero_off
      ∙ ap₂ ◌++◌ (sym (map-range memory' b r) ∙ stored) f
      ∙ take-append-drop r src.coming

  result-Filled :
      (mode : Mode) (result : Option (Response × (ℕ → ℕ) × Source))
      → Got memory whole src result
      → Filled s src (elim result [
        | none ↦ none
        | some (failed e, memory', src') ↦ some (
            if e == eagain && elim mode [ blocking ↦ false | non_blocking ↦ true ]
            then (ArrayRef.empty, s, memory', src')
            else (ArrayRef.empty, only_error s e, memory', src'))
        | some (moved zero, memory', src') ↦ some (ArrayRef.empty, only_end s, memory', src')
        | some (moved (suc r), memory', src') ↦ some (
          record { begin = s.buffer_base_ptr + 0; size = suc r % 2 ^ 32 },
          record s { buffer_offset = 0; buffer_available = suc r % 2 ^ 32 },
          memory',
          src',
        )
      ])
  result-Filled mode none g = tt
  result-Filled mode (some (failed e, memory', src')) g =
      refused_result (e == eagain && elim mode [ blocking ↦ false | non_blocking ↦ true ]) e memory'
        src' g.1
    where
      refused_result :
          (b : Bool) (e : ℕ) (memory' : ℕ → ℕ) (src' : Source)
          → src'.coming ≡ src.coming
          → Filled s src (
              some (
                if b
                then (ArrayRef.empty, s, memory', src')
                else (ArrayRef.empty, only_error s e, memory', src')))
      refused_result true e memory' src' g = empty-Filled s memory' src' used g
      refused_result false e memory' src' g = empty-Filled (only_error s e) memory' src' used g
  result-Filled mode (some (moved zero, memory', src')) (l, k, e, f) =
      empty-Filled (only_end s) memory' src' used f
  result-Filled mode (some (moved (suc r), memory', src')) (l, k, e, f) =
      let n : suc r ≤ s.buffer_capacity = omega (
        arith,
        l,
        ap length (append-nil (range s.buffer_base_ptr s.buffer_capacity)),
        length-range s.buffer_base_ptr s.buffer_capacity,
      ) in
      let m : suc r % 2 ^ 32 ≡ suc r = omega (arith, n) in
      (
        refl,
        omega (arith, n, m),
        ap
              (λ j.
                elements memory' (record { begin = s.buffer_base_ptr + 0; size = j })
                ++ src'.coming)
              m
            ∙ filled_bytes (suc r) memory' src' (l, k, e, f),
      )

  may_fill :
      (mode : Mode) (refused : Option ℕ) (run : Option (ArrayRef × InputStream × (ℕ → ℕ) × Source))
      → Filled s src run
      → Filled s src (elim refused [
        | some e ↦ some (ArrayRef.empty, only_error s e, memory, src)
        | none ↦ run
      ])
  may_fill mode (some e) run f = empty-Filled (only_error s e) memory src used refl
  may_fill mode none run f = f

  unless_stopped :
      (b : Bool) (run : Option (ArrayRef × InputStream × (ℕ → ℕ) × Source))
      → Filled s src run
      → Filled s src (if b then some (ArrayRef.empty, s, memory, src) else run)
  unless_stopped true run f = empty-Filled s memory src used refl
  unless_stopped false run f = f

-- For an input stream with a buffer of less than 2 ^ 32 bytes and nothing available in it, in either
-- mode, and whatever the file and its descriptor do: the reference that `get_read_buffer` returns has
-- the size that is then available, no more than the buffer's, and names the bytes that the file gave:
-- with those still to come they are the bytes that were to come.
pub get_read_buffer-Filled :
    (set_nonblock : Bool → Option ℕ) (mode : Mode) (s : InputStream) (memory : ℕ → ℕ) (src : Source)
    → s.buffer_capacity ≤ u32_max
    → s.buffer_available ≡ 0
    → Filled s src (get_read_buffer set_nonblock mode s memory src)
unfolding get_read_buffer
get_read_buffer-Filled set_nonblock mode s memory src small used =
    unless_stopped s small used memory src (s.has_error || s.at_end) _ (
      may_fill s small used memory src mode (update_blocking mode s.fd_blocking set_nonblock) _ (
        result-Filled s small used memory src mode _
          (readv-Got memory (whole s small used memory src) src)))
