-- ===== src/Fd.antt =====
-- core/lbu/fd.h, core/lbu/file.h, core/lbu/pipe.h and core/lbu/eventfd.h: handles of descriptors, and
-- how they are made.
pub mod Owners
use lbu.Common.{
  ℕ, ◌==◌, ◌||◌, ◌&&◌, List, [], ◌∷◌, ◌++◌, Option, none, some, Bool, true, false, if◌then◌else◌,
}
use lbu.Io.{eintr}
use lbu.FdStream.{eagain}

-- `fd`; `none` is a negative value.
abbrev pub Fd : Type 0
Fd = Option ℕ

-- A method of `unique_fd` adds the descriptors that it closes to those closed before.
-- `if( d ) d.close();`
unfoldable pub close : Fd → List ℕ → List ℕ
close none closed = closed
close (some f) closed = f ∷ closed

-- What a method of `unique_fd` leaves: the handle and the closed descriptors.
abbrev pub Closing : Type 0
Closing = Fd × List ℕ

unfoldable pub reset : Fd → Fd → List ℕ → Closing
reset d f closed = (f, close d closed)

-- The descriptor handed out, and the handle.
unfoldable pub release : Fd → Fd × Fd
release d = (d, none)

-- `operator=(unique_fd&&)`: both handles, this one first. The constructor does the same to a new one.
unfoldable pub move : Fd → Fd → List ℕ → Fd × Fd × List ℕ
unfolding reset
move d u closed = let (d', closed') = reset d u closed in (d', none, closed')

-- What the call of `open` does: a descriptor, or the error.
pub data Opening : Type 0 where
  opened : ℕ → Opening
  refused : ℕ → Opening

-- `open_result`
pub record OpenResult : Type 0 where
  pub f : Fd
  pub status : ℕ

-- `file::open`, with the calls that follow; `none` means that it has not returned yet.
unfoldable pub open_file : List Opening → Option OpenResult
open_file [] = none
open_file (opened n ∷ calls) = some (record { f = some n; status = 0 })
open_file (refused e ∷ calls) =
    let rest = open_file calls in
    if e == eintr then rest else some (record { f = none; status = e })

-- `pipe::open`: the handles and the status. `fds` is what the array has when `pipe2` has returned,
-- which leaves it as it was on an error.
unfoldable pub open_pipe : ℕ × ℕ → Option ℕ → Fd × Fd × ℕ
open_pipe (read_end, write_end) none = (some read_end, some write_end, 0)
open_pipe (read_end, write_end) (some e) = (some read_end, some write_end, e)

-- `event_fd::open` and `event_fd::create`, of which the second ends with the error.
unfoldable pub open_event : Opening → OpenResult
open_event (opened n) = record { f = some n; status = 0 }
open_event (refused e) = record { f = none; status = e }

unfoldable pub create_event : Opening → Option ℕ × Option ℕ
create_event (opened n) = (some n, none)
create_event (refused e) = (none, some e)

-- `event_fd::read_value` and `write_value`, of the status of the call: the result, or the error with
-- which they end. A read that fails leaves the value 0.
unfoldable pub read_value : ℕ → ℕ → Option ℕ
read_value status value =
    if status == 0 then some value else if status == eagain then some 0 else none

unfoldable pub write_value : ℕ → Option Bool
write_value err = if err == 0 then some true else if err == eagain then some false else none
