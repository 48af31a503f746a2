-- ===== src/Tests/Handles.antt =====
-- core/lbu/fd.h, core/lbu/poll.h and core/lbu/abstract_stream.h at concrete handles.
use lbu.Common.{ℕ, ◌+◌, ◌≡◌, List, [], ◌∷◌, Option, none, some, true, refl}
use lbu.Fd.Owners.{
  Op, reset_first, move_to_second, release_second, swap, run, destroy, empty_handles, count, given,
  run-destroyed,
}
use lbu.ArrayRef.{ArrayRef}
use lbu.ByteStream.Incremental.{read, write, reset, calls, Covers, incremental-Covers}
use lbu.Poll.{wait_for_events, ready, refused, returned}

-- One descriptor goes to the second handle by a move, and another replaces it in the first.
abbrev ops : List Op
ops = reset_first (some 5) ∷ move_to_second ∷ reset_first (some 6) ∷ release_second ∷ swap ∷ []

run-destroyed_example :
    (count 5 (destroy (run ops empty_handles)).closed
        + count 5 (destroy (run ops empty_handles)).released
      ≡ given 5 ops)
    × ((destroy (run ops empty_handles)).first ≡ none)
    × ((destroy (run ops empty_handles)).second ≡ none)
run-destroyed_example = run-destroyed 5 ops

-- Four bytes from 100 on: three at the first call, a failure, and the last.
abbrev script : List (Option ℕ)
script = some 3 ∷ none ∷ some 8 ∷ []

abbrev four : ArrayRef
four = record { begin = 100; size = 4 }

incremental-Covers_example :
    Covers four (calls read (reset four) script) × Covers four (calls write (reset four) script)
incremental-Covers_example = incremental-Covers script four

-- A call that is interrupted is made again.
interrupted : wait_for_events (refused 4 ∷ ready 1 (1 ∷ []) ∷ []) ≡ some returned
unfolding wait_for_events
interrupted = refl

moved_all : (calls read (reset four) script).0 ≡ true
unfolding calls read reset
moved_all = refl
