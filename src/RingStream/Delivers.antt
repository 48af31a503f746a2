-- ===== src/RingStream/Delivers.antt =====
-- core/ring_spsc_stream.cpp: the bytes that the reads of `input_stream` deliver.
use lbu.Common.{
  if_true, if_false, either, either_when, ℕ, ◌+◌, ◌-◌, ◌%◌, ◌≤◌, ◌<◌, ◌≡◌, none, some, Bool, true,
  false, ltb, leb, ◌||◌, ◌&&◌, ◌==◌, min, List, [], ◌∷◌, ◌++◌, map, arith, refl, sym, subst, ap,
  ap₂, ◌∙◌, if◌then◌else◌,
}
use lbu.Io.{range}
use lbu.Io.Vectors.{range-split}
use lbu.FdStream.{Mode}
use lbu.FdStream.Vectored.{map-append}
use lbu.RingStream.{copy_bytes, note, done, follow-cases}
use lbu.RingStream.Input.{
  RingInputStream, next_buffer, advance, Moment, ReadResult, copy_chunk, read_loop, read_stream,
  read, mode_of, required_read,
}
use lbu.RingStream.Arrives.{Ready}
use lbu.RingStream.Fair.{
  emptied, Holds, Fair, Delivered, chunk_bytes, advance-Ready, advance_available, used-Ready,
  Offered, offered,
}

module _ (b : ℕ → ℕ) where
  -- The bytes stored so far, and those that an offer adds.
  stored_more :
      (start count pos n high c : ℕ) (slots : ℕ → ℕ) (o : ℕ) (stored : List ℕ)
      → pos ≡ start + count
      → stored ≡ map b (range start count)
      → Holds b n slots pos high
      → o ≡ pos % n
      → o + c ≤ n
      → pos + c ≤ high
      → stored ++ map slots (range o c) ≡ map b (range start (count + c))
  stored_more start count pos n high c slots o stored p e h at fits below =
      let chunk : map slots (range o c) ≡ map b (range pos c) =
        let z : o ≡ pos % n + 0 = omega (arith, at) in
        let y : pos + 0 ≡ pos = omega arith in
        ap (λ x. map slots (range x c)) z
        ∙ chunk_bytes b n pos 0 high c slots (subst (λ x. Holds b n slots x high) (sym y) h)
            (omega (arith, at)) (omega arith)
        ∙ ap (λ x. map b (range x c)) y in
      ap₂ ◌++◌ e (chunk ∙ ap (λ x. map b (range x c)) p)
      ∙ sym (map-append b (range start count) (range (start + count) c))
      ∙ ap (map b) (sym (range-split start count c))

  chunk-Delivered :
      (start count n pos high left size : ℕ) (slots : ℕ → ℕ) (t : RingInputStream) (stored : List ℕ)
      (rest : ReadResult)
      → pos ≡ start + count
      → stored ≡ map b (range start count)
      → Holds b n slots pos high
      → (0 < size → Offered n pos high size t)
      → (0 < size → size < left → Delivered b start rest.1)
      → Delivered b start (copy_chunk slots t size left count stored rest).1
  unfolding copy_chunk note done Delivered
  chunk-Delivered start count n pos high left size slots t stored rest p e h o later =
      either_when (λ (r : ReadResult). Delivered b start r.1) (size == 0) _ _
        (λ z. stopped t.has_error refl)
        (λ z.
          let g = o (ground arith) in
          either_when
            (λ (r : ReadResult).
              Delivered b start
                (note
                  (copy_bytes t.buffer_offset (map slots (range t.buffer_offset (min size left))))
                  r).1)
            (ltb 0 (left - min size left)) _ _ (λ f. later (ground arith) (ground arith))
            (λ f.
              stored_more start count pos n high (min size left) slots t.buffer_offset stored p e h
                (omega (arith, g.ready.behind, ap (λ x. pos % x) g.sized))
                (omega (arith, g.ready.inside, g.sized, g.size_lem))
                (omega (arith, g.ready.published, g.below, g.size_lem))))
    where
      stopped :
          (x : Bool)
          → t.has_error ≡ x
          → Delivered b start (some ((if x then none else some count), stored, t))
      stopped true f = (count, e, f)
      stopped false f = e

  read_loop-Delivered :
      (mode : Mode) (moments : List Moment) (s : RingInputStream)
      (total got pos start left count : ℕ) (stored : List ℕ)
      → Ready s total got pos
      → pos ≡ total + got
      → s.buffer_available ≡ 0
      → pos ≡ start + count
      → stored ≡ map b (range start count)
      → Fair b mode moments s pos left
      → Delivered b start (read_loop mode moments s left count stored).1
  unfolding read_loop Fair Delivered
  read_loop-Delivered mode [] s total got pos start left count stored r at used p e fair = tt
  read_loop-Delivered mode ((seen, slots) ∷ moments) s total got pos start left count stored r at
        used p e (((high, fits, between, holds)), next) =
      follow-cases (λ (x : ReadResult). Delivered b start x.1) (next_buffer mode s seen) _ tt
        (λ (size, t) f.
          let o : 0 < size → Offered s.ring_size pos high size t =
            offered mode s total got pos high seen r at used fits between (s.has_error || s.at_end)
              refl size t f in
          let c = min size left in
          chunk-Delivered start count s.ring_size pos high left size slots t stored _ p e holds o
            (λ z less.
              let g = o z in
              let r' = advance-Ready t pos 0 g.top c g.ready (omega (arith, g.size_lem)) in
              let u : (advance t c).buffer_available ≡ 0 = omega (
                arith,
                advance_available t pos 0 g.top c g.ready (omega (arith, g.size_lem)),
                g.size_lem,
              ) in
              read_loop-Delivered mode moments (advance t c) pos (0 + c) (pos + c) start (left - c)
                (count + c) _
                (used-Ready (advance t c) pos (0 + c) g.top (pos + c) r' u (omega arith))
                (omega arith) u (omega arith)
                (stored_more start count pos s.ring_size high c slots t.buffer_offset stored p e
                  holds (omega (arith, g.ready.behind, ap (λ x. pos % x) g.sized))
                  (omega (arith, g.ready.inside, g.sized, g.size_lem))
                  (omega (arith, g.ready.published, g.below, g.size_lem)))
                (next size t f)))

  available_bytes :
      (s : RingInputStream) (total got produced c : ℕ) (slots : ℕ → ℕ)
      → Ready s total got produced
      → Holds b s.ring_size slots (total + got) produced
      → c ≤ s.buffer_available
      → map slots (range s.buffer_offset c) ≡ map b (range (total + got) c)
  available_bytes s total got produced c slots r h le =
      ap (λ x. map slots (range x c)) r.behind
      ∙ chunk_bytes b s.ring_size total got produced c slots h (omega (arith, r.inside, r.behind))
          (omega (arith, r.published))

  read_stream-Delivered :
      (required : ℕ) (slots : ℕ → ℕ) (moments : List Moment) (s : RingInputStream)
      (size total got produced : ℕ)
      → Ready s total got produced
      → Holds b s.ring_size slots (total + got) produced
      → Fair b
          (mode_of required)
          moments
          (emptied s)
          (total + got + s.buffer_available)
          (size - s.buffer_available)
      → Delivered b (total + got) (read_stream required slots moments s size).1
  unfolding read_stream note done Delivered emptied
  read_stream-Delivered required slots moments s size total got produced r h fair =
      let n = s.buffer_available in
      let pos = total + got in
      let P : ReadResult → Type 0 = λ x. Delivered b pos x.1 in
      either_when P s.has_error _ _ (λ e. (0, refl, e))
        (λ _. either P (size == 0) _ _ refl (
          either_when P (ltb 0 n) _ _
            (λ e.
              let u : (advance s n).buffer_available ≡ 0 =
                omega (arith, advance_available s total got produced n r (omega arith)) in
              read_loop-Delivered (mode_of required) moments (advance s n) total (got + n) (pos + n)
                pos (size - n) n _
                (used-Ready (advance s n) total (got + n) produced (pos + n)
                  (advance-Ready s total got produced n r (omega arith)) u (omega arith))
                (omega arith) u refl
                (available_bytes s total got produced n slots r h (omega arith))
                (subst (λ x. Fair b (mode_of required) moments x (pos + n) (size - n))
                  (if_true e _ _) fair))
            (λ e.
              let z : n ≡ 0 = ground arith in
              read_loop-Delivered (mode_of required) moments s total got (pos + n) pos size n []
                (used-Ready s total got produced (pos + n) r z (omega (arith, z)))
                (omega (arith, z)) z refl (ap (λ x. map b (range pos x)) (sym z))
                (subst (λ x. Fair b (mode_of required) moments s (pos + n) x) (omega (arith, z))
                  (subst (λ x. Fair b (mode_of required) moments x (pos + n) (size - n))
                    (if_false e _ _) fair)))))

  -- For a stream of bytes `b` of which `total` are released and `got` more read, where the ring holds
  -- those behind that are available, and where at each call of `next_buffer` the writer has published
  -- bytes of the stream only, which the ring holds: in either mode, what `read` stores in the
  -- caller's buffer are the bytes of the stream that come next, in their order; the value returned is
  -- their number, unless it is negative, and then the stream has an error.
  pub read-Delivered :
      (mode : Mode) (slots : ℕ → ℕ) (moments : List Moment) (s : RingInputStream)
      (size total got produced : ℕ)
      → Ready s total got produced
      → Holds b s.ring_size slots (total + got) produced
      → Fair b
          (mode_of (required_read mode size))
          moments
          (emptied s)
          (total + got + s.buffer_available)
          (size - s.buffer_available)
      → Delivered b (total + got) (read mode slots moments s size).1
  unfolding read note done Delivered
  read-Delivered mode slots moments s size total got produced r h fair =
      either_when (λ (x : ReadResult). Delivered b (total + got) x.1)
        (leb size s.buffer_available && ltb 0 s.buffer_available) _ _
        (λ e. available_bytes s total got produced size slots r h (ground arith))
        (λ e.
          read_stream-Delivered (required_read mode size) slots moments s size total got produced r
            h fair)
