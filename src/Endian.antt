-- ===== src/Endian.antt =====
-- core/lbu/endian.h: conversions between integers and their bytes.
pub mod RoundTrip
use lbu.Common.{
  ℕ, zero, suc, ◌+◌, ◌*◌, ◌/◌, ◌%◌, ◌-◌, ◌^◌, leb, if◌then◌else◌, List, [], ◌∷◌, ◌++◌, take, drop,
  length,
}
use lbu.Common.Bytes.{write}
use mathlib.Core.List.{reverse}

-- The value of bytes in memory, lowest first, as the machine reads them (`byte_reinterpret_cast`),
-- and the `n` bytes of a value.
abbrev pub load : List ℕ → ℕ
load [] = 0
load (b ∷ bs) = b + load bs * 256

abbrev pub store : ℕ → ℕ → List ℕ
store zero v = []
store (suc n) v = v % 256 ∷ store n (v / 256)

-- `htobe` and `betoh` of a type of `n` bytes; `htole` and `letoh` leave the value as it is.
abbrev pub byte_swap : ℕ → ℕ → ℕ
byte_swap n v = load (reverse (store n v))

-- `endian<T>` for an unsigned type of `n` bytes, which is 2, 4 or 8
unfoldable pub from_little : ℕ → List ℕ → ℕ
from_little n src = load (take n src)

unfoldable pub from_big : ℕ → List ℕ → ℕ
from_big n src = byte_swap n (load (take n src))

unfoldable pub to_little : ℕ → ℕ → List ℕ
to_little n v = store n v

unfoldable pub to_big : ℕ → ℕ → List ℕ
to_big n v = store n (byte_swap n v)

-- The four bytes of the local `v`, which are 0 at first, with three of them overwritten.
unfoldable pub from_little_endian_u24_packed : List ℕ → ℕ
unfolding write
from_little_endian_u24_packed src = load (write (store 4 0) 0 (take 3 src))

unfoldable pub from_big_endian_u24_packed : List ℕ → ℕ
unfolding write
from_big_endian_u24_packed src = byte_swap 4 (load (write (store 4 0) 1 (take 3 src)))

unfoldable pub to_little_endian_u24_packed : ℕ → List ℕ
to_little_endian_u24_packed v = take 3 (store 4 v)

unfoldable pub to_big_endian_u24_packed : ℕ → List ℕ
to_big_endian_u24_packed v = take 3 (drop 1 (store 4 (byte_swap 4 v)))

-- `v |= mask`, where the mask has the bits from the `w`th on.
unfoldable pub or_from : ℕ → ℕ → ℕ
or_from w v = v % 2 ^ w + (2 ^ 32 - 2 ^ w)

-- The result is the bit pattern of an `int32_t`.
unfoldable pub from_little_endian_s24_packed : List ℕ → ℕ
unfolding from_little_endian_u24_packed or_from
from_little_endian_s24_packed src =
    let v = from_little_endian_u24_packed src in if leb (2 ^ 23) v then or_from 24 v else v

unfoldable pub from_big_endian_s24_packed : List ℕ → ℕ
unfolding from_big_endian_u24_packed or_from
from_big_endian_s24_packed src =
    let v = from_big_endian_u24_packed src in if leb (2 ^ 23) v then or_from 24 v else v

unfoldable pub to_little_endian_s24_packed : ℕ → List ℕ
to_little_endian_s24_packed v = to_little_endian_u24_packed v

unfoldable pub to_big_endian_s24_packed : ℕ → List ℕ
to_big_endian_s24_packed v = to_big_endian_u24_packed v
