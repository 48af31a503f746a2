-- ===== src/ByteBuffer/Insert.antt =====
-- core/lbu/byte_buffer.h: what inserting does to the bytes that a reader sees.
use lbu.Common.{
  ℕ, ◌+◌, ◌-◌, ◌≤◌, ◌<◌, ◌≡◌, inl, inr, List, ◌++◌, Bool-cases, leb, length, take, drop, replicate,
  arith, refl, sym, ap, ap₂, ◌∙◌, length-take, length-drop, length-replicate,
}
use lbu.Common.Bytes.{write, length-write, take-write, write_gap, take-take, drop-take}
use lbu.ByteBuffer.{
  ByteBuffer, max_size, char_data, size, capacity, ref, set_ext, set_size_checked, grow_capacity,
  poke, fresh,
}
use lbu.ByteBuffer.Growth.{insert_uninitialized, insert, insert_fill}
use lbu.ByteBuffer.Valid.{
  IsValid, State, valid-Bounds, set_ext-State, set_size_checked-State, poke-State, length-fresh,
  grow_capacity_bounds,
}

pub ref_of_State :
    {b : ByteBuffer} {bytes : List ℕ} {n cap : ℕ} → State b bytes n cap → ref b ≡ take n bytes
unfolding ref
ref_of_State s = ap₂ take s.size_eq s.bytes_eq

pub ref_lem : (b : ByteBuffer) → ref b ≡ take (size b) (char_data b)
unfolding ref
ref_lem b = refl

pub length-ref : (b : ByteBuffer) → IsValid b → length (ref b) ≡ size b
length-ref b v =
    ap length (ref_lem b) ∙ omega (arith, valid-Bounds b v, length-take (size b) (char_data b))

-- Storing into the gap that an insert left.
fill_gap :
    {b : ByteBuffer} {bytes : List ℕ} {n cap : ℕ} (i : ℕ) (under behind ys : List ℕ)
    → State b bytes n cap
    → bytes ≡ write under (i + length ys) behind
    → n ≡ i + length ys + length behind
    → n ≤ length under
    → length under ≡ cap
    → IsValid (poke b i ys) × (ref (poke b i ys) ≡ take i under ++ (ys ++ behind))
fill_gap {b} {bytes} {n} i under behind ys s eb en le el =
    let p = poke-State b i ys s.valid (omega (arith, s)) in
    (
      p.valid,
      ref_of_State p
          ∙ ap₂ (λ k l. take k (write l i ys)) s.size_eq (s.bytes_eq ∙ eb)
          ∙ write_gap n under i behind ys (omega arith) en,
    )

module _ (junk : ℕ → ℕ) (b : ByteBuffer) (v : IsValid b) (i : ℕ) (inside : i ≤ size b) where
  abbrev behind : List ℕ
  behind = take (size b - i) (drop i (char_data b))

  length-behind : length behind ≡ size b - i
  length-behind = omega (
    arith,
    length-take (size b - i) (drop i (char_data b)),
    length-drop i (char_data b),
    valid-Bounds b v,
  )

  parts : (take i (ref b) ≡ take i (char_data b)) × (drop i (ref b) ≡ behind)
  unfolding ref
  parts = (take-take i (size b) (char_data b) inside, drop-take i (size b) (char_data b))

  as_parts :
      (ys : List ℕ)
      → take i (char_data b) ++ (ys ++ behind) ≡ take i (ref b) ++ (ys ++ drop i (ref b))
  as_parts ys = ap₂ (λ l r. l ++ (ys ++ r)) (sym parts.0) (sym parts.1)

  -- Where the bytes fit.
  in_place :
      (ys : List ℕ)
      → size b + length ys ≤ capacity b
      → IsValid (poke (set_size_checked (poke b (i + length ys) behind) (size b + length ys)) i ys)
        × (ref (poke (set_size_checked (poke b (i + length ys) behind) (size b + length ys)) i ys)
            ≡ take i (ref b) ++ (ys ++ drop i (ref b)))
  in_place ys h =
      let w = valid-Bounds b v in
      let p = poke-State b (i + length ys) behind v (omega (arith, length-behind)) in
      let q =
        set_size_checked-State (poke b (i + length ys) behind) (size b + length ys) p.valid
          (omega (arith, p)) in
      let (valid, e) =
        fill_gap i (char_data b) behind ys q p.bytes_eq (omega (arith, length-behind))
          (omega (arith, w)) (omega (arith, w, p)) in
      (valid, e ∙ as_parts ys)

  -- Where a new block is needed.
  moved :
      (ys : List ℕ) (new_cap : ℕ)
      → size b + length ys ≤ new_cap
      → 15 < new_cap
      → new_cap ≤ max_size
      → let b' =
          set_ext
            (write (write (fresh junk new_cap) 0 (take i (char_data b))) (i + length ys) behind)
            (size b + length ys)
            new_cap in
        IsValid (poke b' i ys) × (ref (poke b' i ys) ≡ take i (ref b) ++ (ys ++ drop i (ref b)))
  moved ys new_cap h k l =
      let w = valid-Bounds b v in
      let front = take i (char_data b) in
      let f : length front ≡ i = omega (arith, length-take i (char_data b), w) in
      let blank = fresh junk new_cap in
      let c : length blank ≡ new_cap = length-fresh junk new_cap in
      let under = write blank 0 front in
      let u : length under ≡ new_cap = omega (arith, length-write blank 0 front) in
      let x : length (write under (i + length ys) behind) ≡ new_cap =
        omega (arith, length-write under (i + length ys) behind, length-behind) in
      let q =
        set_ext-State (write under (i + length ys) behind) (size b + length ys) new_cap h k l x in
      let (valid, e) =
        fill_gap i under behind ys q refl (omega (arith, length-behind)) (omega arith) u in
      (
        valid,
        e
            ∙ ap (λ l. l ++ (ys ++ behind)) (take-write i blank 0 front (omega arith) (omega arith))
            ∙ as_parts ys,
      )

  -- Inserting bytes inside or at the end of a valid buffer, as far as the maximal size allows,
  -- keeps it valid and puts exactly these bytes at the index.
  pub insert_lem :
      (ys : List ℕ)
      → size b + length ys ≤ max_size
      → IsValid (insert junk b i ys)
        × (ref (insert junk b i ys) ≡ take i (ref b) ++ (ys ++ drop i (ref b)))
  unfolding insert
  insert_lem ys room =
      let w = valid-Bounds b v in
      let g = grow_capacity_bounds b (size b + length ys) v room in
      elim (Bool-cases (leb (length ys) (capacity b - size b))) [
        | inl fits ↦ rw fits (in_place ys (ground (arith, w)))
        | inr full ↦ rw full (moved ys (grow_capacity b (size b + length ys)) g.0 g.1 g.2)
      ]

-- The overloads that repeat one byte insert the bytes so made.
pub insert_fill-insert :
    (junk : ℕ → ℕ) (b : ByteBuffer) (i count ch : ℕ)
    → insert_fill junk b i count ch ≡ insert junk b i (replicate count ch)
unfolding insert_fill insert
insert_fill-insert junk b i count ch =
    ap (λ k. poke (insert_uninitialized junk b i k) i (replicate count ch))
      (sym (length-replicate count ch))
