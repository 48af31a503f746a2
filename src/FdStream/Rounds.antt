-- ===== src/FdStream/Rounds.antt =====
-- core/fd_stream.cpp: the rounds of the loop in `fd_input_stream::read_stream`.
use lbu.Common.{
  ℕ, zero, suc, Option, none, some, Bool, true, false, ◌&&◌, ltb, ◌==◌, ◌+◌, ◌-◌, ◌^◌, ◌%◌, ◌≤◌,
  ◌<◌, ◌≡◌, ◌⊎◌, inl, inr, List, length, drop, length-drop, either, either_when, Bool-cases, arith,
  refl, sym, ap, subst, if◌then◌else◌,
}
use lbu.Io.{IoVector, Response, moved, failed, io_vector_array_advance}
use lbu.Io.Vectors.{addresses, advance-drop}
use lbu.FdStream.{Mode, blocking, non_blocking, eagain, u32_max}
use lbu.FdStream.Input.{
  InputStream, Source, readv, add_error, only_end, ReadResult, read_result, read_loop,
}
use lbu.FdStream.Filled.{Got, readv-Got}
use lbu.FdStream.Stores.{Distinct, Distinct-drop}
use lbu.FdStream.Moves.{Shape, Stored, LoopKept, none-Stored, call-Stored, both-Stored}

-- What holds before each round: a round that is not the first one follows fewer bytes than are
-- required, and behind the first vector there is room for `extra` bytes, in the buffer.
abbrev pub Within : Mode → ℕ → ℕ → ℕ → List ℕ → ℕ → Type 0
Within mode first required extra addrs count =
    (required ≤ first)
    × (mode ≡ non_blocking → required ≡ 0)
    × ((count ≡ 0) ⊎ (count < required))
    × (count + length addrs ≤ first + extra)

ltb_lt : (x y : ℕ) → ltb x y ≡ true → x < y
ltb_lt x y e = ground arith

and_false : (b : Bool) → (b && false) ≡ true → ⊥
and_false true e = absurd (cc e)
and_false false e = absurd (cc e)

module _ (buffer_read first extra : ℕ) (small : extra ≤ u32_max) (s : InputStream)
    (used : s.buffer_available ≡ 0) (unmanaged : s.manages_buffer ≡ false → extra ≡ 0) where
  -- A return with what has been moved, none of which is in the buffer.
  all_returned :
      (total n : ℕ) (s' : InputStream)
      → n ≡ buffer_read + total
      → total ≤ first
      → s'.buffer_available ≡ 0
      → s'.buffer_offset ≡ s.buffer_offset
      → s'.buffer_base_ptr ≡ s.buffer_base_ptr
      → s'.buffer_capacity ≡ s.buffer_capacity
      → s'.manages_buffer ≡ s.manages_buffer
      → Shape buffer_read first total s (some n) s'
  all_returned total n s' e l a o b c m =
      (omega (arith, e, l), omega (arith, l, a), inl (a, o), b, c, m)

  refused_kept :
      (mode : Mode) (required e : ℕ) (addrs : List ℕ) (count : ℕ) (memory memory' : ℕ → ℕ)
      (src src' : Source)
      → Within mode first required extra addrs count
      → memory' ≡ memory
      → src'.coming ≡ src.coming
      → LoopKept buffer_read first count s addrs memory src (
          some (
            if e == eagain && elim mode [ blocking ↦ false | non_blocking ↦ true ]
            then (some buffer_read, s, memory', src')
            else (none, add_error s e, memory', src')))
  refused_kept blocking required e addrs count memory memory' src src' w m f =
      either_when (λ x. LoopKept buffer_read first count s addrs memory src (some x)) _ _ _
        (λ t. absurd (and_false (e == eagain) t))
        (λ t. (0, none-Stored addrs memory memory' src src' m f, refl))
  refused_kept non_blocking required e addrs count memory memory' src src' (a, b, c, d) m f =
      let nothing : count ≡ 0 = omega (arith, b refl, c) in
      either (λ x. LoopKept buffer_read first count s addrs memory src (some x)) _ _ _
        (
          0,
          none-Stored addrs memory memory' src src' m f,
          all_returned (count + 0) buffer_read s (omega (arith, nothing)) (omega (arith, nothing))
              used refl refl refl refl,
        )
        (0, none-Stored addrs memory memory' src src' m f, refl)

  done_kept :
      (n : ℕ) (memory' : ℕ → ℕ) (src' : Source) (addrs : List ℕ) (count k : ℕ) (memory : ℕ → ℕ)
      (src : Source)
      → n ≡ count + k
      → n ≤ first + extra
      → Stored k addrs memory src memory' src'
      → LoopKept buffer_read first count s addrs memory src (
          some (
            if s.manages_buffer && ltb first n
            then (
              some (first + buffer_read),
              record s { buffer_offset = 0; buffer_available = (n - first) % 2 ^ 32 },
              memory',
              src',
            )
            else (some (n + buffer_read), s, memory', src')))
  done_kept n memory' src' addrs count k memory src e l st =
      either_when (λ x. LoopKept buffer_read first count s addrs memory src (some x)) _ _ _
        (λ t.
          let more : first < n = and_ltb s.manages_buffer first n t in
          let word : (n - first) % 2 ^ 32 ≡ n - first = omega (arith, l, small) in
          (k, st, (omega (arith, e, more), omega (arith, e, word), inr refl, refl, refl, refl)))
        (λ t.
          let fits : n ≤ first = elim (Bool-cases s.manages_buffer) [
            | inl managed ↦ not_ltb first n (rw managed at t)
            | inr bare ↦ omega (arith, l, unmanaged bare)
          ] in
          (
            k,
            st,
            all_returned (count + k) (n + buffer_read) s (omega (arith, e)) (omega (arith, e, fits))
                used refl refl refl refl,
          ))
    where
      and_ltb : (b : Bool) (x y : ℕ) → (b && ltb x y) ≡ true → x < y
      and_ltb true x y t = ltb_lt x y t
      and_ltb false x y t = absurd (cc t)

      not_ltb : (x y : ℕ) → (true && ltb x y) ≡ false → y ≤ x
      not_ltb x y t = ground arith

  -- A round, where the bytes that are still required are those of the rounds that follow.
  round_kept :
      (mode : Mode) (required count : ℕ) (vs : List IoVector) (memory : ℕ → ℕ) (src : Source)
      (more : ℕ → (ℕ → ℕ) → Source → ReadResult) (result : Option (Response × (ℕ → ℕ) × Source))
      → Distinct (addresses vs)
      → Within mode first required extra (addresses vs) count
      → Got memory vs src result
      → ((r : ℕ) (memory' : ℕ → ℕ) (src' : Source)
          → Stored (suc r) (addresses vs) memory src memory' src'
          → count + suc r < required
          → LoopKept buffer_read first count s (addresses vs) memory src (more r memory' src'))
      → LoopKept buffer_read first count s
          (addresses vs)
          memory
          src
          (read_result mode buffer_read first required vs count s more result)
  unfolding read_result
  round_kept mode required count vs memory src more none d w g next = tt
  round_kept mode required count vs memory src more (some (failed e, memory', src')) d w g next =
      refused_kept mode required e (addresses vs) count memory memory' src src' w g.0 g.1
  round_kept blocking required count vs memory src more (some (moved zero, memory', src')) d
        (a, b, c, l) g next =
      let st = call-Stored vs 0 memory memory' src src' d g in
      either (λ x. LoopKept buffer_read first count s (addresses vs) memory src (some x)) _ _ _
        (
          0,
          st,
          all_returned (count + 0) (count + buffer_read) (only_end s) (omega arith)
              (omega (arith, a, c)) used refl refl refl refl,
        )
        (0, st, refl)
  round_kept non_blocking required count vs memory src more (some (moved zero, memory', src')) d
        (a, b, c, l) g next =
      let st = call-Stored vs 0 memory memory' src src' d g in
      let nothing : count ≡ 0 = omega (arith, b refl, c) in
      either
        (λ s'.
          LoopKept buffer_read first count s (addresses vs) memory src
            (some (some buffer_read, s', memory', src')))
        _ _ _
        (
          0,
          st,
          all_returned (count + 0) buffer_read (only_end s) (omega (arith, nothing))
              (omega (arith, nothing)) used refl refl refl refl,
        )
        (
          0,
          st,
          all_returned (count + 0) buffer_read s (omega (arith, nothing)) (omega (arith, nothing))
              used refl refl refl refl,
        )
  round_kept mode required count vs memory src more (some (moved (suc r), memory', src')) d
        (a, b, c, l) g next =
      let st = call-Stored vs (suc r) memory memory' src src' d g in
      either_when (LoopKept buffer_read first count s (addresses vs) memory src)
        (ltb (count + suc r) required) _ _
        (λ t. next r memory' src' st (ltb_lt (count + suc r) required t))
        (λ t.
          done_kept (count + suc r) memory' src' (addresses vs) count (suc r) memory src refl
            (omega (arith, l, st.0)) st)

  later_kept :
      (r count : ℕ) (addrs : List ℕ) (memory memory' : ℕ → ℕ) (src src' : Source)
      (result : ReadResult)
      → Distinct addrs
      → Stored r addrs memory src memory' src'
      → LoopKept buffer_read first (count + r) s (drop r addrs) memory' src' result
      → LoopKept buffer_read first count s addrs memory src result
  later_kept r count addrs memory memory' src src' none d st kept = tt
  later_kept r count addrs memory memory' src src' (some (n, s', memory'', src'')) d st
        (k, st', shape) =
      let e : count + r + k ≡ count + (r + k) = omega arith in
      (
        r + k,
        both-Stored r k addrs memory memory' memory'' src src' src'' d st st',
        subst (λ t. Shape buffer_read first t s n s') e shape,
      )

  pub loop_kept :
      (mode : Mode) (required fuel count : ℕ) (vs : List IoVector) (memory : ℕ → ℕ) (src : Source)
      → Distinct (addresses vs)
      → Within mode first required extra (addresses vs) count
      → LoopKept buffer_read first count s
          (addresses vs)
          memory
          src
          (read_loop mode buffer_read first required fuel vs count s memory src)
  unfolding read_loop
  loop_kept mode required zero count vs memory src d w = tt
  loop_kept mode required (suc fuel) count vs memory src d (a, b, c, l) =
      round_kept mode required count vs memory src _ (readv memory vs src) d (a, b, c, l)
        (readv-Got memory vs src)
        (λ r memory' src' st more.
          let at = advance-drop vs (suc r) st.0 in
          later_kept (suc r) count (addresses vs) memory memory' src src' _ d st (
            subst
              (λ t. LoopKept buffer_read first (count + suc r) s t memory' src' (
                read_loop mode buffer_read first required fuel (io_vector_array_advance vs (suc r))
                  (count + suc r) s memory' src'))
              at
              (loop_kept mode required fuel (count + suc r) (io_vector_array_advance vs (suc r))
                memory' src' (subst Distinct (sym at) (Distinct-drop (suc r) (addresses vs) d))
                (
                  a,
                  b,
                  inr more,
                  omega (arith, l, st.0, ap length at, length-drop (suc r) (addresses vs)),
                ))))
