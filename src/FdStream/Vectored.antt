-- ===== src/FdStream/Vectored.antt =====
-- core/fd_stream.cpp: what the calls of a write give the file.
use lbu.Common.{
  ℕ, zero, suc, ◌+◌, ◌≤◌, ◌<◌, ◌≡◌, List, [], ◌∷◌, ◌++◌, Option, none, some, Bool-cases, true, inl,
  inr, ltb, ◌==◌, min, arith, refl, sym, ap, ◌∙◌, take, length, append_assoc, append-nil, map,
  length-drop, take-add, take-append-drop,
}
use lbu.Io.{IoVector, Response, moved, failed, eintr, temp_fail_retry, io_vector_array_advance}
use lbu.Io.Vectors.{addresses, advance-drop}
use lbu.Io.All.{Ready, room}
use lbu.FdStream.{Device, writev}
use lbu.FdStream.Output.{write_loop}

pub map-append : (f : ℕ → ℕ) (xs ys : List ℕ) → map f (xs ++ ys) ≡ map f xs ++ map f ys
map-append f [] ys = refl
map-append f (x ∷ xs) ys = ap (λ l. f x ∷ l) (map-append f xs ys)

pub none_left : {A : Type 0} (xs : List A) → length xs ≡ 0 → xs ≡ []
none_left [] e = refl
none_left (x ∷ xs) e = absurd (omega (arith, e))

module _ (memory : ℕ → ℕ) where
  -- The bytes that vectors name.
  abbrev pub bytes : List IoVector → List ℕ
  bytes vs = map memory (addresses vs)

  -- What one call has given the file.
  abbrev pub Gave : List IoVector → Device → Option (Response × Device) → Type 0
  Gave vs d none = Unit
  Gave vs d (some (failed e, d')) = d'.sent ≡ d.sent
  Gave vs d (some (moved r, d')) =
      (r ≤ length (addresses vs)) × (d'.sent ≡ d.sent ++ map memory (take r (addresses vs)))

  pub writev-Gave : (vs : List IoVector) (d : Device) → Gave vs d (writev memory vs d)
  unfolding writev
  writev-Gave vs d =
      elim (temp_fail_retry d.script)
        as (λ o. Gave vs d (elim o [
          | none ↦ none
          | some (moved k, rest) ↦ some (
            moved (min k (length (addresses vs))),
            record {
              script = rest;
              sent = d.sent ++ map memory (take (min k (length (addresses vs))) (addresses vs));
            },
          )
          | some (failed e, rest) ↦ some (failed e, record d { script = rest })
        ])) [
          | none ↦ tt
          | some (moved k, rest) ↦ (omega arith, refl)
          | some (failed e, rest) ↦ refl
        ]

  -- What a blocking write has given the file: a first part if an error ended it, else everything.
  abbrev pub LoopGave : List IoVector → Device → Option (Option ℕ × Device) → Type 0
  LoopGave vs d none = Unit
  LoopGave vs d (some (some e, d')) =
      (k : ℕ) × (d'.sent ≡ d.sent ++ map memory (take k (addresses vs)))
  LoopGave vs d (some (none, d')) = d'.sent ≡ d.sent ++ bytes vs

  pub join :
      (before mid rest out : List ℕ)
      → out ≡ (before ++ map memory mid) ++ map memory rest
      → out ≡ before ++ map memory (mid ++ rest)
  join before mid rest out e =
      e
      ∙ append_assoc before (map memory mid) (map memory rest)
      ∙ ap (λ l. before ++ l) (sym (map-append memory mid rest))

  more_given :
      (vs : List IoVector) (d d' : Device) (r : ℕ) (result : Option (Option ℕ × Device))
      → r ≤ length (addresses vs)
      → d'.sent ≡ d.sent ++ map memory (take r (addresses vs))
      → LoopGave (io_vector_array_advance vs r) d' result
      → LoopGave vs d result
  more_given vs d d' r none h e g = tt
  more_given vs d d' r (some (some x, d'')) h e (k, g) =
      let f : take r (addresses vs) ++ take k (addresses (io_vector_array_advance vs r))
          ≡ take (r + k) (addresses vs) =
        ap (λ l. take r (addresses vs) ++ take k l) (advance-drop vs r h)
        ∙ sym (take-add r k (addresses vs)) in
      (
        r + k,
        join d.sent (take r (addresses vs)) (take k (addresses (io_vector_array_advance vs r)))
              d''.sent
              (g ∙ ap (λ l. l ++ map memory (take k (addresses (io_vector_array_advance vs r)))) e)
            ∙ ap (λ l. d.sent ++ map memory l) f,
      )
  more_given vs d d' r (some (none, d'')) h e g =
      let f : take r (addresses vs) ++ addresses (io_vector_array_advance vs r) ≡ addresses vs =
        ap (λ l. take r (addresses vs) ++ l) (advance-drop vs r h)
        ∙ take-append-drop r (addresses vs) in
      join d.sent (take r (addresses vs)) (addresses (io_vector_array_advance vs r)) d''.sent
        (g ∙ ap (λ l. l ++ bytes (io_vector_array_advance vs r)) e)
      ∙ ap (λ l. d.sent ++ map memory l) f

  length-advance :
      (vs : List IoVector) (r : ℕ)
      → r ≤ length (addresses vs)
      → r + length (addresses (io_vector_array_advance vs r)) ≡ length (addresses vs)
  length-advance vs r h =
      omega (arith, ap length (advance-drop vs r h), length-drop r (addresses vs))

  loop_step :
      (fuel : ℕ) (vs : List IoVector) (count sum : ℕ) (d : Device)
      (result : Option (Response × Device))
      → Gave vs d result
      → count + length (addresses vs) ≡ sum
      → ((vs' : List IoVector) (count' : ℕ) (d' : Device)
          → count' + length (addresses vs') ≡ sum
          → LoopGave vs' d' (write_loop memory fuel vs' count' sum d'))
      → LoopGave vs d (elim result [
        | none ↦ none
        | some (failed e, d') ↦ some (some e, d')
        | some (moved r, d') ↦
            write_loop memory fuel (io_vector_array_advance vs r) (count + r) sum d'
      ])
  loop_step fuel vs count sum d none g h ih = tt
  loop_step fuel vs count sum d (some (failed e, d')) g h ih = (0, g ∙ sym (append-nil d.sent))
  loop_step fuel vs count sum d (some (moved r, d')) (l, g) h ih =
      more_given vs d d' r
        (write_loop memory fuel (io_vector_array_advance vs r) (count + r) sum d') l g
        (ih (io_vector_array_advance vs r) (count + r) d' (omega (arith, length-advance vs r l)))

  pub write_loop-LoopGave :
      (fuel : ℕ) (vs : List IoVector) (count sum : ℕ) (d : Device)
      → count + length (addresses vs) ≡ sum
      → LoopGave vs d (write_loop memory fuel vs count sum d)
  unfolding write_loop
  write_loop-LoopGave zero vs count sum d h = tt
  write_loop-LoopGave (suc fuel) vs count sum d h = elim (Bool-cases (ltb count sum)) [
    | inl more ↦ rw more (
        loop_step fuel vs count sum d (writev memory vs d) (writev-Gave vs d) h
          (λ vs' count' d' e. write_loop-LoopGave fuel vs' count' sum d' e))
    | inr done ↦
        let e : addresses vs ≡ [] = none_left (addresses vs) (ground arith) in
        rw (done, e) (sym (append-nil d.sent))
  ]

  -- Calls that are interrupted or move at least one byte are enough.
  retry-Ready :
      (rs : List Response)
      → Ready rs
      → 0 < room rs
      → (k : ℕ) × (rest : List Response) × (temp_fail_retry rs ≡ some (moved k, rest))
        × (0 < k)
        × Ready rest
        × (room rs ≡ k + room rest)
        × (length rest < length rs)
  unfolding temp_fail_retry
  retry-Ready [] ready h = absurd (omega arith)
  retry-Ready (moved k ∷ rs) (pos, ready) h = (k, rs, refl, pos, ready, refl, omega arith)
  retry-Ready (failed e ∷ rs) (f, ready) h =
      let (k, rest, g, pos, ready', r, l) = retry-Ready rs ready h in
      let i : (e == eintr) ≡ true = ground arith in (k, rest, rw i g, pos, ready', r, omega arith)

  pub write_loop-returns :
      (fuel : ℕ) (vs : List IoVector) (count sum : ℕ) (d : Device)
      → count + length (addresses vs) ≡ sum
      → Ready d.script
      → length (addresses vs) ≤ room d.script
      → length d.script < fuel
      → (d' : Device) × (write_loop memory fuel vs count sum d ≡ some (none, d'))
  unfolding write_loop writev
  write_loop-returns zero vs count sum d h ready enough f = absurd (omega arith)
  write_loop-returns (suc fuel) vs count sum d h ready enough f =
      elim (Bool-cases (ltb count sum)) [
        | inr done ↦ (d, rw done refl)
        | inl more ↦
            let (k, rest, e, pos, ready', r, l) = retry-Ready d.script ready (ground arith) in
            let n = min k (length (addresses vs)) in
            let (d', g) =
              write_loop-returns fuel (io_vector_array_advance vs n) (count + n) sum
                (record { script = rest; sent = d.sent ++ map memory (take n (addresses vs)) })
                (omega (arith, length-advance vs n (omega arith))) ready'
                (omega (arith, length-advance vs n (omega arith))) (omega arith) in
            (d', rw (more, e) g)
      ]
