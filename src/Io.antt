-- ===== src/Io.antt =====
-- core/lbu/io.h: arrays of buffers, and the loops around the calls that read and write.
pub mod Vectors
pub mod All
use lbu.Common.{
  ℕ, zero, suc, ◌+◌, ◌-◌, ◌^◌, List, [], ◌∷◌, ◌++◌, Option, none, some, Bool, true, false, ltb, leb,
  ◌==◌, ◌&&◌, min, if◌then◌else◌, take,
}
use lbu.Common.Words.{add_word}
use lbu.ArrayRef.{ArrayRef, sub}

abbrev pub word : ℕ
word = 2 ^ 64

-- `struct iovec`
pub record IoVector : Type 0 where
  pub iov_base : ℕ
  pub iov_len : ℕ

unfoldable pub io_vector_array_size_sum : List IoVector → ℕ → ℕ
io_vector_array_size_sum [] result = result
io_vector_array_size_sum (v ∷ vs) result =
    io_vector_array_size_sum vs (add_word word result v.iov_len)

unfoldable pub io_vector_array_has_zero_size : List IoVector → Bool
io_vector_array_has_zero_size [] = true
io_vector_array_has_zero_size (v ∷ vs) =
    if ltb 0 v.iov_len then false else io_vector_array_has_zero_size vs

-- The part of the array that is left. The assertion rules out that the array ends first.
unfoldable pub io_vector_array_advance : List IoVector → ℕ → List IoVector
io_vector_array_advance [] size = []
io_vector_array_advance (v ∷ vs) size =
    let rest = io_vector_array_advance vs (size - v.iov_len) in
    if ltb 0 size && leb v.iov_len size
    then rest
    else if ltb 0 size
    then record { iov_base = v.iov_base + size; iov_len = v.iov_len - size } ∷ vs
    else v ∷ vs

-- What a file does with the system calls that follow: how many bytes each may move at most, or the
-- error that it sets. A call moves no more than it is asked for.
pub data Response : Type 0 where
  moved : ℕ → Response
  failed : ℕ → Response

abbrev pub eintr : ℕ
eintr = 4

abbrev pub eio : ℕ
eio = 5

-- `temp_fail_retry`: the first response that is not an interruption, and those after it; `none`
-- means that the call has not returned yet.
unfoldable pub temp_fail_retry : List Response → Option (Response × List Response)
temp_fail_retry [] = none
temp_fail_retry (moved n ∷ rs) = some (moved n, rs)
temp_fail_retry (failed e ∷ rs) =
    let rest = temp_fail_retry rs in if e == eintr then rest else some (failed e, rs)

-- The addresses from `b` on.
abbrev pub range : ℕ → ℕ → List ℕ
range b zero = []
range b (suc n) = b ∷ range (suc b) n

-- The status, and the addresses whose bytes were moved, after those moved before.
unfoldable pub read_all : List Response → ArrayRef → List ℕ → Option (ℕ × List ℕ)
unfolding sub
read_all [] buf done = if ltb 0 buf.size then none else some (0, done)
read_all (moved k ∷ rs) buf done =
    let r = min k buf.size in
    let rest = read_all rs (sub word buf r (word - 1)) (done ++ range buf.begin r) in
    if ltb 0 buf.size then if ltb 0 r then rest else some (eio, done) else some (0, done)
read_all (failed e ∷ rs) buf done =
    let rest = read_all rs buf done in
    if ltb 0 buf.size then if e == eintr then rest else some (e, done) else some (0, done)

unfoldable pub write_all : List Response → ArrayRef → List ℕ → Option (ℕ × List ℕ)
unfolding sub
write_all [] buf done = if ltb 0 buf.size then none else some (0, done)
write_all (moved k ∷ rs) buf done =
    let r = min k buf.size in
    let rest = write_all rs (sub word buf r (word - 1)) (done ++ range buf.begin r) in
    if ltb 0 buf.size then if ltb 0 r then rest else some (eio, done) else some (0, done)
write_all (failed e ∷ rs) buf done =
    let rest = write_all rs buf done in
    if ltb 0 buf.size then if e == eintr then rest else some (e, done) else some (0, done)
