-- ===== src/FdStream.antt =====
-- core/lbu/abstract_stream.h and core/fd_stream.cpp: buffered streams over a file descriptor.
pub mod Output
pub mod Vectored
pub mod Valid
pub mod Sent
pub mod Returns
pub mod Input
pub mod Reads
pub mod Filled
pub mod Stores
pub mod Moves
pub mod Rounds
pub mod Kept
pub mod Enter
pub mod Ordered
pub mod Complete
pub mod Ends
pub mod Write
use lbu.Common.{
  ℕ, Option, none, some, Bool, true, false, not, ◌&&◌, ltb, min, ◌+◌, ◌-◌, ◌^◌, List, map, ◌++◌,
  take, length, if◌then◌else◌,
}
use lbu.Io.{IoVector, Response, moved, failed, temp_fail_retry}
use lbu.Io.Vectors.{addresses}

pub data Mode : Type 0 where
  blocking non_blocking : Mode

pub data FdBlockingState : Type 0 where
  automatic always_blocking always_non_blocking : FdBlockingState

abbrev pub einval : ℕ
einval = 22

abbrev pub eagain : ℕ
eagain = 11

abbrev pub u32_max : ℕ
u32_max = 2 ^ 32 - 1

-- `f.set_nonblock` is the parameter: the error that it sets, if it fails. The result is that of
-- `update_blocking`, with the error in place of `*err`.
unfoldable pub update_blocking : Mode → FdBlockingState → (Bool → Option ℕ) → Option ℕ
update_blocking blocking automatic set_nonblock = set_nonblock false
update_blocking non_blocking automatic set_nonblock = set_nonblock true
update_blocking blocking always_blocking set_nonblock = none
update_blocking blocking always_non_blocking set_nonblock = some einval
update_blocking non_blocking always_blocking set_nonblock = some einval
update_blocking non_blocking always_non_blocking set_nonblock = none

-- The file behind the descriptor: what it does with the calls that follow, and the bytes that it
-- has been given.
pub record Device : Type 0 where
  pub script : List Response
  pub sent : List ℕ

-- `io::writev`: it gives the file the first bytes that the vectors name; `none` means that the call
-- has not returned yet.
unfoldable pub writev : (ℕ → ℕ) → List IoVector → Device → Option (Response × Device)
writev memory vs d = elim (temp_fail_retry d.script) [
  | none ↦ none
  | some (moved k, rest) ↦
      let r = min k (length (addresses vs)) in
      some (moved r, record { script = rest; sent = d.sent ++ map memory (take r (addresses vs)) })
  | some (failed e, rest) ↦ some (failed e, record d { script = rest })
]
