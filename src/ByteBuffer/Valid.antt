-- ===== src/ByteBuffer/Valid.antt =====
-- core/lbu/byte_buffer.h: the representation invariant, and the primitives that keep it.
use lbu.Common.{
  ◌-◌, ◌∙◌, take, length-append, length-take, ℕ, ◌+◌, ◌*◌, ◌/◌, ◌%◌, ◌≤◌, ◌<◌, ◌≡◌, List, length,
  arith, refl, min,
}
use lbu.Common.Family.{length-prefix}
use lbu.Common.Bytes.{take-append_left, take-take, write, length-write}
use lbu.ByteBuffer.{
  ByteBuffer, small, ext, max_size, small_reserved, char_data, size, capacity, set_ext,
  set_size_checked, grow_capacity, poke, fresh, realloc,
}

-- The flag bit tells the two representations apart, and sizes and blocks fit.
abbrev pub IsValid : ByteBuffer → Type 0
IsValid (small tag bytes) =
    (tag % 2 ≡ 1) × (tag / 2 ≤ small_reserved) × (length bytes ≡ small_reserved)
IsValid (ext reserved n block) =
    (reserved % 2 ≡ 0)
    × (n ≤ reserved / 2 + 1)
    × (small_reserved < reserved / 2 + 1)
    × (reserved / 2 + 1 ≤ max_size)
    × (length block ≡ reserved / 2 + 1)

-- A valid buffer with these bytes in its storage, size and capacity.
pub record State (b : ByteBuffer) (bytes : List ℕ) (n cap : ℕ) : Type 0 where
  pub valid : IsValid b
  pub bytes_eq : char_data b ≡ bytes
  pub size_eq : size b ≡ n
  pub capacity_eq : capacity b ≡ cap

pub record Bounds (b : ByteBuffer) : Type 0 where
  pub size_le : size b ≤ capacity b
  pub capacity_ge : small_reserved ≤ capacity b
  pub capacity_le : capacity b ≤ max_size
  pub storage : length (char_data b) ≡ capacity b

pub valid-Bounds : (b : ByteBuffer) → IsValid b → Bounds b
unfolding size capacity
valid-Bounds (small tag bytes) v = omega arith
valid-Bounds (ext reserved n block) v = omega arith

pub valid-State : (b : ByteBuffer) → IsValid b → State b (char_data b) (size b) (capacity b)
valid-State b v = record { valid = v; bytes_eq = refl; size_eq = refl; capacity_eq = refl }

pub set_ext-State :
    (block : List ℕ) (n cap : ℕ)
    → n ≤ cap
    → small_reserved < cap
    → cap ≤ max_size
    → length block ≡ cap
    → State (set_ext block n cap) block n cap
unfolding set_ext size capacity
set_ext-State block n cap h k l e = record {
  valid = omega arith;
  bytes_eq = refl;
  size_eq = omega arith;
  capacity_eq = omega arith;
}

pub set_size_checked-State :
    (b : ByteBuffer) (n : ℕ)
    → IsValid b
    → n ≤ capacity b
    → State (set_size_checked b n) (char_data b) n (capacity b)
unfolding set_size_checked size capacity
set_size_checked-State (small tag bytes) n v h = record {
  valid = omega arith;
  bytes_eq = refl;
  size_eq = omega arith;
  capacity_eq = refl;
}
set_size_checked-State (ext reserved k block) n v h = record {
  valid = omega arith;
  bytes_eq = refl;
  size_eq = omega arith;
  capacity_eq = refl;
}

pub poke-State :
    (b : ByteBuffer) (i : ℕ) (ys : List ℕ)
    → IsValid b
    → i + length ys ≤ capacity b
    → State (poke b i ys) (write (char_data b) i ys) (size b) (capacity b)
unfolding poke size capacity
poke-State (small tag bytes) i ys v h = record {
  valid = omega (arith, length-write bytes i ys);
  bytes_eq = refl;
  size_eq = refl;
  capacity_eq = refl;
}
poke-State (ext reserved k block) i ys v h = record {
  valid = omega (arith, length-write block i ys);
  bytes_eq = refl;
  size_eq = refl;
  capacity_eq = refl;
}

pub length-fresh : (junk : ℕ → ℕ) (n : ℕ) → length (fresh junk n) ≡ n
unfolding fresh
length-fresh junk n = length-prefix junk n

-- The new capacity holds the size asked for, needs a block, and does not pass the maximum: the
-- assertions of `set_ext_capacity` hold. It at least doubles unless it is the maximum.
pub grow_capacity_bounds :
    (b : ByteBuffer) (n : ℕ)
    → IsValid b
    → n ≤ max_size
    → (n ≤ grow_capacity b n)
      × (small_reserved < grow_capacity b n)
      × (grow_capacity b n ≤ max_size)
      × (min (capacity b * 2) max_size ≤ grow_capacity b n)
unfolding grow_capacity
grow_capacity_bounds b n v h = ground (arith, valid-Bounds b v)

pub length-realloc :
    (junk : ℕ → ℕ) (block : List ℕ) (cap' : ℕ) → length (realloc junk block cap') ≡ cap'
unfolding realloc
length-realloc junk block cap' = omega (
  arith,
  length-append (take cap' block) (fresh junk (cap' - length block)),
  length-take cap' block,
  length-fresh junk (cap' - length block),
)

pub take-realloc :
    (junk : ℕ → ℕ) (block : List ℕ) (cap' n : ℕ)
    → n ≤ cap'
    → n ≤ length block
    → take n (realloc junk block cap') ≡ take n block
unfolding realloc
take-realloc junk block cap' n h k =
    take-append_left n (take cap' block) (fresh junk (cap' - length block))
      (omega (arith, length-take cap' block))
    ∙ take-take n cap' block h
