-- ===== src/ByteBuffer.antt =====
-- core/lbu/byte_buffer.h: the growing byte buffer with its small size storage.
pub mod Growth
pub mod Owner
pub mod Valid
pub mod Insert
pub mod Append
pub mod Storage
pub mod Shorter
pub mod Transfer
use lbu.Common.{
  ℕ, zero, suc, ◌+◌, ◌-◌, ◌*◌, ◌/◌, ◌%◌, ◌^◌, List, [], ◌∷◌, ◌++◌, Option, none, some, Bool, true,
  false, leb, ltb, ◌==◌, if◌then◌else◌, min, max, length, take, drop, replicate,
}
use lbu.Common.Family.{prefix}
use lbu.Common.Bytes.{write}

abbrev pub max_size : ℕ
max_size = 2 ^ 31 - 1

-- `SmallResered`
abbrev pub small_reserved : ℕ
small_reserved = 15

-- `union data`, told apart by `SmallFlag`, the low bit of the first byte on a little endian machine:
-- `small size data` and `ext reserved size block`, each buffer the only owner of its block.
pub data ByteBuffer : Type 0 where
  small : ℕ → List ℕ → ByteBuffer
  ext : ℕ → ℕ → List ℕ → ByteBuffer

-- `SmallFlag | (size << 1)` in a byte
abbrev pub small_tag : ℕ → ℕ
small_tag size = (size * 2 + 1) % 2 ^ 8

-- `char_data()`, as the bytes that the buffer may use
abbrev pub char_data : ByteBuffer → List ℕ
char_data (small _ bytes) = bytes
char_data (ext _ _ block) = block

unfoldable pub size : ByteBuffer → ℕ
size (small tag _) = tag / 2
size (ext _ n _) = n

unfoldable pub is_empty : ByteBuffer → Bool
unfolding size
is_empty b = size b == 0

unfoldable pub capacity : ByteBuffer → ℕ
capacity (small _ _) = small_reserved
capacity (ext reserved _ _) = reserved / 2 + 1

-- `ref()`: the bytes that a reader sees
unfoldable pub ref : ByteBuffer → List ℕ
unfolding size
ref b = take (size b) (char_data b)

-- `set_ext` with `set_ext_capacity`
unfoldable pub set_ext : List ℕ → ℕ → ℕ → ByteBuffer
set_ext block n cap = ext (((cap - 1) * 2) % 2 ^ 32) (n % 2 ^ 32) block

unfoldable pub set_size_checked : ByteBuffer → ℕ → ByteBuffer
set_size_checked (small _ bytes) n = small (small_tag n) bytes
set_size_checked (ext reserved _ block) n = ext reserved (n % 2 ^ 32) block

-- The bytes of a `uint32_t` in memory, lowest first.
abbrev pub u32_bytes : ℕ → List ℕ
u32_bytes v = v % 256 ∷ v / 2 ^ 8 % 256 ∷ v / 2 ^ 16 % 256 ∷ v / 2 ^ 24 % 256 ∷ []

-- The store `d.ext.size = n`. In a small buffer those four bytes are `data[3]` to `data[6]`.
unfoldable pub set_ext_size : ByteBuffer → ℕ → ByteBuffer
unfolding write
set_ext_size (small tag bytes) n = small tag (write bytes 3 (u32_bytes n))
set_ext_size (ext reserved _ block) n = ext reserved (n % 2 ^ 32) block

unfoldable pub grow_capacity : ByteBuffer → ℕ → ℕ
unfolding capacity
grow_capacity b n =
    let cap = capacity b in
    if cap == small_reserved
    then max 32 n
    else if leb (max_size / 2) cap
    then max_size
    else max (cap * 2) n

-- A store of bytes into what `char_data()` points to.
unfoldable pub poke : ByteBuffer → ℕ → List ℕ → ByteBuffer
poke (small tag bytes) i ys = small tag (write bytes i ys)
poke (ext reserved n block) i ys = ext reserved n (write block i ys)

unfoldable pub erase : ByteBuffer → ℕ → ℕ → ByteBuffer
unfolding size set_ext_size poke
erase b index count =
    let old_size = size b in
    let k = min (old_size - index) count in
    let second_index = index + k in
    set_ext_size (poke b index (take (old_size - second_index) (drop second_index (char_data b))))
      (old_size - k)

unfoldable pub clear : ByteBuffer → ByteBuffer
unfolding set_size_checked
clear b = set_size_checked b 0

unfoldable pub chop : ByteBuffer → ℕ → ByteBuffer
unfolding set_size_checked size
chop b count = let s = size b in set_size_checked b (if ltb s count then 0 else s - count)

unfoldable pub append_begin : ByteBuffer → ℕ × ℕ
unfolding size capacity
append_begin b = (size b, capacity b - size b)

unfoldable pub append_commit : ByteBuffer → ℕ → ByteBuffer
unfolding set_size_checked size
append_commit b count = set_size_checked b (size b + count)

-- What `malloc` leaves in fresh memory is not said: the parameter `junk` stands for it. Where it
-- fails the program ends.
module _ (junk : ℕ → ℕ) where
  unfoldable pub fresh : ℕ → List ℕ
  fresh n = prefix junk n

  -- `realloc` keeps what both blocks have room for.
  unfoldable pub realloc : List ℕ → ℕ → List ℕ
  unfolding fresh
  realloc block n = take n block ++ fresh (n - length block)

  -- `set_small` on a buffer whose other bytes are not known
  unfoldable pub set_small : List ℕ → ℕ → ByteBuffer
  unfolding write fresh
  set_small bytes n = small (small_tag n) (write (fresh small_reserved) 0 (take n bytes))

  unfoldable pub set_capacity_checked : ByteBuffer → ℕ → ByteBuffer
  unfolding set_small write fresh set_ext size realloc
  set_capacity_checked (small tag bytes) cap =
      if leb cap small_reserved
      then small tag bytes
      else set_ext (write (fresh cap) 0 (take (tag / 2) bytes)) (tag / 2) cap
  set_capacity_checked (ext reserved n block) cap =
      if leb cap small_reserved then set_small block n else set_ext (realloc block cap) n cap

  unfoldable pub reserve : ByteBuffer → ℕ → ByteBuffer
  unfolding set_capacity_checked capacity
  reserve b cap = if leb cap (capacity b) then b else set_capacity_checked b cap

  unfoldable pub shrink_to_fit : ByteBuffer → ByteBuffer
  unfolding set_capacity_checked size
  shrink_to_fit b = set_capacity_checked b (size b)

  unfoldable pub set_capacity : ByteBuffer → ℕ → ByteBuffer
  unfolding set_capacity_checked size
  set_capacity b cap = set_capacity_checked b (max cap (size b))

  unfoldable pub auto_grow_reserve : ByteBuffer → ByteBuffer
  unfolding set_capacity_checked capacity grow_capacity
  auto_grow_reserve b =
      let cap = capacity b in
      if ltb cap max_size then set_capacity_checked b (grow_capacity b (cap + 1)) else b
