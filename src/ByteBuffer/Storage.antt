-- ===== src/ByteBuffer/Storage.antt =====
-- core/lbu/byte_buffer.h: what changes of capacity do to the bytes that a reader sees.
use lbu.Common.{
  ℕ, ◌+◌, ◌*◌, ◌/◌, ◌≤◌, ◌<◌, ◌≡◌, inl, inr, List, Bool-cases, leb, ltb, leb→le, length, take,
  arith, refl, sym, ◌∙◌, min, max, length-take,
}
use lbu.Common.Bytes.{write, length-write, take-write}
use lbu.ByteBuffer.{
  ByteBuffer, small, ext, max_size, small_reserved, size, capacity, ref, set_ext, grow_capacity,
  fresh, realloc, set_small, set_capacity_checked, reserve, shrink_to_fit, set_capacity,
  auto_grow_reserve,
}
use lbu.ByteBuffer.Valid.{
  IsValid, State, valid-Bounds, set_ext-State, length-fresh, grow_capacity_bounds, length-realloc,
  take-realloc,
}
use lbu.ByteBuffer.Insert.{ref_of_State, ref_lem}

-- The buffer `b'` shows these bytes and has this capacity.
pub record Shows (b' : ByteBuffer) (bytes : List ℕ) (cap' : ℕ) : Type 0 where
  pub valid : IsValid b'
  pub bytes_eq : ref b' ≡ bytes
  pub capacity_eq : capacity b' ≡ cap'

pub of_State :
    {b : ByteBuffer} {bytes : List ℕ} {n cap' : ℕ}
    → State b bytes n cap'
    → Shows b (take n bytes) cap'
of_State s = record { valid = s.valid; bytes_eq = ref_of_State s; capacity_eq = s.capacity_eq }

pub same_Shows :
    {b : ByteBuffer} {bytes bytes' : List ℕ} {n n' : ℕ}
    → Shows b bytes n
    → bytes ≡ bytes'
    → n ≡ n'
    → Shows b bytes' n'
same_Shows s e f = record {
  valid = s.valid;
  bytes_eq = s.bytes_eq ∙ e;
  capacity_eq = s.capacity_eq ∙ f;
}

module _ (junk : ℕ → ℕ) where
  pub set_small-Shows :
      (bytes : List ℕ) (n : ℕ)
      → n ≤ length bytes
      → n ≤ small_reserved
      → Shows (set_small junk bytes n) (take n bytes) small_reserved
  unfolding set_small ref capacity
  set_small-Shows bytes n h k =
      let f = length-fresh junk small_reserved in
      let t = length-take n bytes in
      let z = length-write (fresh junk small_reserved) 0 (take n bytes) (omega arith) in
      record {
        valid = omega (arith, z, f);
        bytes_eq =
            take-write _ (fresh junk small_reserved) 0 (take n bytes) (omega arith) (omega arith);
        capacity_eq = refl;
      }

  set_ext-small :
      (tag : ℕ) (bytes : List ℕ) (c : ℕ)
      → IsValid (small tag bytes)
      → tag / 2 ≤ c
      → small_reserved < c
      → c ≤ max_size
      → Shows
          (set_ext (write (fresh junk c) 0 (take (tag / 2) bytes)) (tag / 2) c)
          (ref (small tag bytes))
          (max small_reserved c)
  unfolding ref
  set_ext-small tag bytes c v h lt k =
      let f = length-fresh junk c in
      let t = length-take (tag / 2) bytes in
      let z = length-write (fresh junk c) 0 (take (tag / 2) bytes) (omega arith) in
      same_Shows
        (of_State (
          set_ext-State (write (fresh junk c) 0 (take (tag / 2) bytes)) (tag / 2) c h lt k (z ∙ f)))
        (take-write (tag / 2) (fresh junk c) 0 (take (tag / 2) bytes) (omega arith) (omega arith))
        (omega arith)

  set_capacity_checked-Shows :
      (b : ByteBuffer) (c : ℕ)
      → IsValid b
      → size b ≤ c
      → c ≤ max_size
      → Shows (set_capacity_checked junk b c) (ref b) (max small_reserved c)
  unfolding set_capacity_checked capacity
  set_capacity_checked-Shows (small tag bytes) c v h k = elim (Bool-cases (leb c small_reserved)) [
    | inl fits ↦ rw fits (record { valid = v; bytes_eq = refl; capacity_eq = ground arith })
    | inr large ↦ rw large (set_ext-small tag bytes c v h (ground arith) k)
  ]
  set_capacity_checked-Shows (ext reserved n block) c v h k =
      elim (Bool-cases (leb c small_reserved)) [
        | inl fits ↦ rw fits (
            same_Shows
              (set_small-Shows block n (omega arith) (omega (arith, leb→le c small_reserved fits)))
              (sym (ref_lem (ext reserved n block))) (ground arith))
        | inr large ↦ rw large (
            same_Shows
              (of_State (
                set_ext-State (realloc junk block c) n c h (ground arith) k
                  (length-realloc junk block c)))
              (take-realloc junk block c n h (omega arith) ∙ sym (ref_lem (ext reserved n block)))
              (ground arith))
      ]

  -- Reserving keeps a valid buffer's bytes and gives it at least the capacity asked for, never
  -- less than it had.
  pub reserve_lem :
      (b : ByteBuffer) (c : ℕ)
      → IsValid b
      → c ≤ max_size
      → Shows (reserve junk b c) (ref b) (max (capacity b) c)
  unfolding reserve
  reserve_lem b c v k =
      let w = valid-Bounds b v in
      elim (Bool-cases (leb c (capacity b))) [
        | inl fits ↦ rw fits (record { valid = v; bytes_eq = refl; capacity_eq = ground arith })
        | inr large ↦ rw large (
            let e : max small_reserved c ≡ max (capacity b) c = ground arith in
            rw e at (set_capacity_checked-Shows b c v (ground arith) k))
      ]

  -- Shrinking keeps a valid buffer's bytes; the capacity left is its size, or that of the small
  -- storage.
  pub shrink_to_fit_lem :
      (b : ByteBuffer)
      → IsValid b
      → Shows (shrink_to_fit junk b) (ref b) (max small_reserved (size b))
  unfolding shrink_to_fit
  shrink_to_fit_lem b v =
      let w = valid-Bounds b v in
      set_capacity_checked-Shows b (size b) v (omega arith) (omega (arith, w))

  -- Setting a capacity keeps a valid buffer's bytes, and goes no lower than its size and the small
  -- storage.
  pub set_capacity_lem :
      (b : ByteBuffer) (c : ℕ)
      → IsValid b
      → c ≤ max_size
      → Shows (set_capacity junk b c) (ref b) (max small_reserved (max c (size b)))
  unfolding set_capacity
  set_capacity_lem b c v k =
      let w = valid-Bounds b v in
      set_capacity_checked-Shows b (max c (size b)) v (omega arith) (omega (arith, w))

  -- Growing by itself keeps a valid buffer's bytes and at least doubles its capacity, unless that
  -- reaches the maximal size.
  pub auto_grow_reserve_lem :
      (b : ByteBuffer)
      → IsValid b
      → IsValid (auto_grow_reserve junk b)
        × (ref (auto_grow_reserve junk b) ≡ ref b)
        × (min (capacity b * 2) max_size ≤ capacity (auto_grow_reserve junk b))
  unfolding auto_grow_reserve
  auto_grow_reserve_lem b v =
      let w = valid-Bounds b v in
      elim (Bool-cases (ltb (capacity b) max_size)) [
        | inl growing ↦
            let g = grow_capacity_bounds b (capacity b + 1) v (ground arith) in
            let s =
              set_capacity_checked-Shows b (grow_capacity b (capacity b + 1)) v
                (omega (arith, w, g)) (g.2) in
            rw growing (s.valid, s.bytes_eq, omega (arith, s.capacity_eq, g))
        | inr full ↦ rw full (v, refl, ground arith)
      ]
