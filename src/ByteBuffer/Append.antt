-- ===== src/ByteBuffer/Append.antt =====
-- core/lbu/byte_buffer.h: what appending and resizing do to the bytes that a reader sees.
use lbu.Common.{
  ℕ, ◌+◌, ◌-◌, ◌/◌, ◌≤◌, ◌<◌, ◌≡◌, inl, inr, ltb→lt, List, ◌++◌, Bool-cases, ltb, length, take,
  replicate, append-nil, arith, refl, sym, ap, ap₂, ◌∙◌, length-take, length-replicate,
}
use lbu.Common.Bytes.{write, length-write, take-write, take-take, take_whole}
use lbu.ByteBuffer.{
  ByteBuffer, small, ext, max_size, char_data, size, capacity, ref, grow_capacity, poke, fresh,
  realloc,
}
use lbu.ByteBuffer.Growth.{grow, append_base, append, append_fill, resize}
use lbu.ByteBuffer.Valid.{
  IsValid, State, valid-Bounds, valid-State, length-realloc, take-realloc, set_ext-State,
  set_size_checked-State, poke-State, length-fresh, grow_capacity_bounds,
}
use lbu.ByteBuffer.Insert.{ref_of_State, ref_lem, length-ref}

-- A buffer that starts with the bytes of `b` and has room for `n`.
record Room (b b' : ByteBuffer) (n : ℕ) : Type 0 where
  bytes : List ℕ
  cap' : ℕ
  state : State b' bytes n cap'
  kept : take (size b) bytes ≡ ref b
  fits : n ≤ cap'
  whole : length bytes ≡ cap'

module _ (junk : ℕ → ℕ) where
  grow-Room :
      (b : ByteBuffer) (n new_cap : ℕ)
      → IsValid b
      → capacity b < n
      → n ≤ new_cap
      → 15 < new_cap
      → new_cap ≤ max_size
      → Room b (grow junk b n new_cap) n
  unfolding grow size ref capacity
  grow-Room (small tag bytes) n new_cap v lt h k l =
      let c = length-fresh junk new_cap in
      let f = length-take (tag / 2) bytes in
      let z = length-write (fresh junk new_cap) 0 (take (tag / 2) bytes) (omega arith) in
      record {
        bytes = write (fresh junk new_cap) 0 (take (tag / 2) bytes);
        cap' = new_cap;
        state = set_ext-State _ n new_cap h k l (omega arith);
        kept =
            take-write (tag / 2) (fresh junk new_cap) 0 (take (tag / 2) bytes) (omega arith)
              (omega arith);
        fits = h;
        whole = omega arith;
      }
  grow-Room (ext reserved n block) n' new_cap v lt h k l =
      let z = length-realloc junk block new_cap in
      record {
        bytes = realloc junk block new_cap;
        cap' = new_cap;
        state = set_ext-State _ n' new_cap h k l z;
        kept = take-realloc junk block new_cap n (omega arith) (omega arith);
        fits = h;
        whole = z;
      }

  append_base-Room :
      (b : ByteBuffer) (count : ℕ)
      → IsValid b
      → size b + count ≤ max_size
      → Room b (append_base junk b count) (size b + count)
  unfolding append_base
  append_base-Room b count v room =
      let w = valid-Bounds b v in
      let g = grow_capacity_bounds b (size b + count) v room in
      elim (Bool-cases (ltb (capacity b) (size b + count))) [
        | inl full ↦ rw full (
            grow-Room b (size b + count) (grow_capacity b (size b + count)) v (ground arith) g.0 g.1
              g.2)
        | inr fits ↦ rw fits (record {
          bytes = char_data b;
          cap' = capacity b;
          state = set_size_checked-State b (size b + count) v (ground arith);
          kept = sym (ref_of_State (valid-State b v));
          fits = ground arith;
          whole = w.storage;
        })
      ]

  -- Appending to a valid buffer, as far as the maximal size allows, keeps it valid and adds
  -- exactly these bytes at the end.
  pub append_lem :
      (b : ByteBuffer) (ys : List ℕ)
      → IsValid b
      → size b + length ys ≤ max_size
      → IsValid (append junk b ys) × (ref (append junk b ys) ≡ ref b ++ ys)
  unfolding append
  append_lem b ys v room =
      let r = append_base-Room b (length ys) v room in
      let p =
        poke-State (append_base junk b (length ys)) (size b) ys r.state.valid (omega (arith, r)) in
      (
        p.valid,
        ref_of_State p
            ∙ ap₂ (λ k l. take k (write l (size b) ys)) r.state.size_eq r.state.bytes_eq
            ∙ take-write (size b + length ys) r.bytes (size b) ys (omega arith) refl
            ∙ ap (λ l. l ++ ys) r.kept,
      )

  pub append_fill-append :
      (b : ByteBuffer) (count ch : ℕ)
      → append_fill junk b count ch ≡ append junk b (replicate count ch)
  unfolding append_fill append
  append_fill-append b count ch =
      ap (λ k. poke (append_base junk b k) (size b) (replicate count ch))
        (sym (length-replicate count ch))

  cut :
      (b : ByteBuffer) (count : ℕ)
      → count ≤ size b
      → take count (char_data b) ≡ take count (ref b) ++ replicate (count - size b) 0
  cut b count h =
      let e : count - size b ≡ 0 = omega arith in
      rw (e, append-nil, ref_lem b, take-take count (size b) (char_data b) h)

  -- Resizing a valid buffer, as far as the maximal size allows, keeps it valid: it cuts the bytes
  -- off at the new size, or adds zero bytes up to it.
  pub resize_lem :
      (b : ByteBuffer) (count : ℕ)
      → IsValid b
      → count ≤ max_size
      → IsValid (resize junk b count)
        × (ref (resize junk b count) ≡ take count (ref b) ++ replicate (count - size b) 0)
  unfolding resize
  resize_lem b count v room =
      let w = valid-Bounds b v in
      let zeros : length (replicate {A = ℕ} (count - size b) 0) ≡ count - size b =
        length-replicate (count - size b) 0 in
      elim (Bool-cases (ltb (size b) count)) [
        | inl longer ↦
            rw (longer, append_fill-append b (count - size b) 0)
              (let (valid, e) =
                  append_lem b (replicate (count - size b) 0) v
                    (omega (arith, ltb→lt (size b) count longer, zeros)) in
                (
                  valid,
                  e
                      ∙ ap (λ l. l ++ replicate (count - size b) 0)
                          (sym (
                            take_whole count (ref b)
                              (omega (arith, length-ref b v, ltb→lt (size b) count longer)))),
                ))
        | inr shorter ↦ rw shorter (
            let q = set_size_checked-State b count v (ground arith) in
            (q.valid, ref_of_State q ∙ cut b count (ground arith)))
      ]
