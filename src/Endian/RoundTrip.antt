-- ===== src/Endian/RoundTrip.antt =====
-- core/lbu/endian.h: how the conversions relate.
use lbu.Common.{
  ℕ, zero, suc, ◌+◌, ◌*◌, ◌/◌, ◌%◌, ◌^◌, ◌<◌, ◌≡◌, List, [], ◌∷◌, ◌++◌, take, drop, length,
  length-append, arith, refl, sym, ap, ◌∙◌,
}
use lbu.Common.Bytes.{write, take_whole}
use native.Mathlib.Nat.{pow-zero, pow-suc}
use mathlib.Core.List.{reverse, reverse-cons, reverse-reverse}
use lbu.Endian.{
  load, store, byte_swap, from_little, from_big, to_little, to_big, from_little_endian_u24_packed,
  from_big_endian_u24_packed, to_little_endian_u24_packed, to_big_endian_u24_packed,
}

pub length-store : (n v : ℕ) → length (store n v) ≡ n
length-store zero v = refl
length-store (suc n) v = ap suc (length-store n (v / 256))

abbrev pub Bytes : List ℕ → Type 0
Bytes [] = Unit
Bytes (b ∷ bs) = (b < 256) × Bytes bs

store-Bytes : (n v : ℕ) → Bytes (store n v)
store-Bytes zero v = tt
store-Bytes (suc n) v = (omega arith, store-Bytes n (v / 256))

load-store : (n v : ℕ) → v < 256 ^ n → load (store n v) ≡ v
load-store zero v h = omega (arith, pow-zero 256)
load-store (suc n) v h = omega (arith, load-store n (v / 256) (omega (arith, pow-suc 256 n)))

store-load : (bs : List ℕ) → Bytes bs → store (length bs) (load bs) ≡ bs
store-load [] h = refl
store-load (b ∷ bs) (h, hs) =
    let e : (b + load bs * 256) % 256 ≡ b = omega arith in
    let f : (b + load bs * 256) / 256 ≡ load bs = omega arith in
    rw (e, f) (ap (λ l. b ∷ l) (store-load bs hs))

store_sized : (n : ℕ) (bs : List ℕ) → length bs ≡ n → Bytes bs → store n (load bs) ≡ bs
store_sized n bs e h = ap (λ k. store k (load bs)) (sym e) ∙ store-load bs h

length-reverse : (bs : List ℕ) → length (reverse bs) ≡ length bs
length-reverse [] = refl
length-reverse (b ∷ bs) =
    ap length (reverse-cons b bs)
    ∙ omega (arith, length-append (reverse bs) (b ∷ []), length-reverse bs)

Bytes-append : (bs cs : List ℕ) → Bytes bs → Bytes cs → Bytes (bs ++ cs)
Bytes-append [] cs h k = k
Bytes-append (b ∷ bs) cs (h, hs) k = (h, Bytes-append bs cs hs k)

reverse-Bytes : (bs : List ℕ) → Bytes bs → Bytes (reverse bs)
reverse-Bytes [] h = tt
reverse-Bytes (b ∷ bs) (h, hs) =
    rw (reverse-cons b bs) (Bytes-append (reverse bs) (b ∷ []) (reverse-Bytes bs hs) (h, tt))

-- The bytes of a value with its bytes swapped are those of the value, backwards.
pub store-byte_swap : (n v : ℕ) → store n (byte_swap n v) ≡ reverse (store n v)
store-byte_swap n v =
    store_sized n (reverse (store n v)) (length-reverse (store n v) ∙ length-store n v)
      (reverse-Bytes (store n v) (store-Bytes n v))

-- For every width: storing a value and loading it gives the value back, in either byte order; and
-- the big endian bytes are the little endian ones backwards.
pub from-to :
    (n v : ℕ)
    → v < 256 ^ n
    → (from_little n (to_little n v) ≡ v)
      × (from_big n (to_big n v) ≡ v)
      × (to_big n v ≡ reverse (to_little n v))
unfolding from_little to_little from_big to_big
from-to n v h =
    let l = length-store n v in
    let whole : take n (store n v) ≡ store n v = take_whole n (store n v) (omega (arith, l)) in
    let back : take n (store n (byte_swap n v)) ≡ reverse (store n v) =
      take_whole n (store n (byte_swap n v)) (omega (arith, length-store n (byte_swap n v)))
      ∙ store-byte_swap n v in
    let sized =
      store_sized n (reverse (store n v)) (length-reverse (store n v) ∙ l)
        (reverse-Bytes (store n v) (store-Bytes n v)) in
    (
      ap load whole ∙ load-store n v h,
      ap (λ l. byte_swap n (load l)) back
          ∙ ap (λ l. load (reverse l)) sized
          ∙ ap load (reverse-reverse (store n v))
          ∙ load-store n v h,
      store-byte_swap n v,
    )

-- For every width: loading as many bytes and storing the value gives the bytes back, in either byte
-- order.
pub to-from :
    (bs : List ℕ)
    → Bytes bs
    → (to_little (length bs) (from_little (length bs) bs) ≡ bs)
      × (to_big (length bs) (from_big (length bs) bs) ≡ bs)
unfolding from_little to_little from_big to_big
to-from bs h =
    let n = length bs in
    let whole : take n bs ≡ bs = take_whole n bs (omega arith) in
    let same = store-load bs h in
    rw whole (
      same,
      store-byte_swap n (byte_swap n (load bs))
          ∙ ap reverse (store-byte_swap n (load bs))
          ∙ reverse-reverse (store n (load bs))
          ∙ same,
    )

pub from_little_u24 :
    (a b c : ℕ) (rest : List ℕ)
    → from_little_endian_u24_packed (a ∷ b ∷ c ∷ rest) ≡ a + (b + c * 256) * 256
unfolding from_little_endian_u24_packed write
from_little_u24 a b c rest = omega arith

pub from_big_u24 :
    (a b c : ℕ) (rest : List ℕ)
    → a < 256
    → b < 256
    → c < 256
    → from_big_endian_u24_packed (c ∷ b ∷ a ∷ rest) ≡ a + (b + c * 256) * 256
unfolding from_big_endian_u24_packed write
from_big_u24 a b c rest h k l =
    ap (λ l. load (reverse l))
      (store_sized 4 (0 ∷ c ∷ b ∷ a ∷ []) refl (omega arith, (l, (k, (h, tt)))))
    ∙ omega arith

to_big_u24 :
    (v : ℕ) → to_big_endian_u24_packed v ≡ v / 256 / 256 % 256 ∷ v / 256 % 256 ∷ v % 256 ∷ []
unfolding to_big_endian_u24_packed
to_big_u24 v = ap (λ l. take 3 (drop 1 l)) (store-byte_swap 4 v)

-- Values of 24 bits in three bytes: storing and loading gives the value back, in either byte
-- order, and the big endian bytes are the little endian ones backwards.
pub u24-from-to :
    (v : ℕ)
    → v < 2 ^ 24
    → (from_little_endian_u24_packed (to_little_endian_u24_packed v) ≡ v)
      × (from_big_endian_u24_packed (to_big_endian_u24_packed v) ≡ v)
      × (to_big_endian_u24_packed v ≡ reverse (to_little_endian_u24_packed v))
unfolding from_little_endian_u24_packed to_little_endian_u24_packed write
u24-from-to v h = (
  omega arith,
  ap from_big_endian_u24_packed (to_big_u24 v)
      ∙ from_big_u24 (v % 256) (v / 256 % 256) (v / 256 / 256 % 256) [] (omega arith) (omega arith)
          (omega arith)
      ∙ omega arith,
  to_big_u24 v,
)
