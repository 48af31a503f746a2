-- ===== src/Tests/Buffers.antt =====
-- core/lbu/byte_buffer.h at concrete buffers.
use lbu.Common.{ℕ, ◌≡◌, ◌≢◌, List, [], ◌∷◌, ◌++◌, arith, refl, take, drop, replicate}
use lbu.ByteBuffer.{ByteBuffer, small, ext, size, ref, erase}
use lbu.ByteBuffer.Growth.{append, insert}
use lbu.ByteBuffer.Valid.{IsValid}
use lbu.ByteBuffer.Insert.{insert_lem}
use lbu.ByteBuffer.Append.{append_lem}
use lbu.ByteBuffer.Shorter.{erase-small-ne-rest}

abbrev junk : ℕ → ℕ
junk i = 170

-- "abc" in the small storage
abbrev abc : ByteBuffer
abc = small 7 (97 ∷ 98 ∷ 99 ∷ replicate 12 0)

-- 20 bytes in a block of 32
abbrev block : List ℕ
block = 1 ∷ 2 ∷ 3 ∷ replicate 29 4

abbrev twenty : ByteBuffer
twenty = ext 62 20 block

abc-IsValid : IsValid abc
abc-IsValid = (refl, omega arith, refl)

twenty-IsValid : IsValid twenty
twenty-IsValid = (refl, omega arith, omega arith, omega arith, refl)

append_lem_example :
    IsValid (append junk abc (replicate 14 7))
    × (ref (append junk abc (replicate 14 7)) ≡ ref abc ++ replicate 14 7)
unfolding size
append_lem_example = append_lem junk abc (replicate 14 7) abc-IsValid (omega arith)

insert_lem_example :
    IsValid (insert junk abc 1 (5 ∷ 6 ∷ []))
    × (ref (insert junk abc 1 (5 ∷ 6 ∷ []))
        ≡ take 1 (ref abc) ++ ((5 ∷ 6 ∷ []) ++ drop 1 (ref abc)))
unfolding size
insert_lem_example = insert_lem junk abc abc-IsValid 1 (omega arith) (5 ∷ 6 ∷ []) (omega arith)

erase-small-ne-rest_example :
    (size (erase abc 0 1) ≡ size abc) × (ref (erase abc 0 1) ≢ take 0 (ref abc) ++ drop 1 (ref abc))
unfolding size
erase-small-ne-rest_example =
    erase-small-ne-rest 7 (97 ∷ 98 ∷ 99 ∷ replicate 12 0) 0 1 abc-IsValid (omega arith)
      (omega arith)
