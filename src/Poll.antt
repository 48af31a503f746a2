-- ===== src/Poll.antt =====
-- core/lbu/poll.h: the system call, the results made of it, and the handle that owns a descriptor.
use lbu.Common.{Bool, not, ℕ, ◌/◌, ◌%◌, List, [], ◌∷◌, Option, none, some, ◌==◌, if◌then◌else◌}
use lbu.Fd.{close}
use lbu.Io.{eintr}

-- `enum Flags` and `enum ResultFlags`
abbrev pub flags_read_ready : ℕ
flags_read_ready = 1

abbrev pub flags_write_ready : ℕ
flags_write_ready = 4

-- `pollfd`; `none` is a negative descriptor.
pub record PollFd : Type 0 where
  pub filedes : Option ℕ
  pub events : ℕ
  pub revents : ℕ

unfoldable pub poll_fd : Option ℕ → ℕ → PollFd
poll_fd f flags = record { filedes = f; events = flags; revents = 0 }

-- `unique_pollfd`, as the entry that it has; a method that closes descriptors adds them to those
-- closed before.
abbrev pub UniquePollFd : Type 0
UniquePollFd = PollFd

abbrev pub Closing : Type 0
Closing = UniquePollFd × List ℕ

abbrev pub unique_pollfd : UniquePollFd
unique_pollfd = record { filedes = none; events = 0; revents = 0 }

unfoldable pub reset_descriptor : UniquePollFd → Option ℕ → List ℕ → Closing
unfolding close
reset_descriptor p f closed = (record p { filedes = f }, close p.filedes closed)

-- The descriptor handed out, and the entry.
unfoldable pub release_descriptor : UniquePollFd → Option ℕ × UniquePollFd
release_descriptor p = (p.filedes, record p { filedes = none })

-- The constructor from another: the new entry, and the other's.
unfoldable pub move_construct : UniquePollFd → UniquePollFd × UniquePollFd
move_construct other = (other, record other { filedes = none })

-- `operator=(unique_pollfd&&)`
unfoldable pub move_assign :
    UniquePollFd → UniquePollFd → List ℕ → UniquePollFd × UniquePollFd × List ℕ
unfolding reset_descriptor
move_assign p other closed =
    let (p', closed') = reset_descriptor p other.filedes closed in
    (p', record other { filedes = none }, closed')

unfoldable pub set_flags : UniquePollFd → ℕ → UniquePollFd
set_flags p flags = record p { events = flags }

unfoldable pub reset : UniquePollFd → Option ℕ → ℕ → List ℕ → Closing
unfolding reset_descriptor set_flags
reset p f flags closed =
    let (p', closed') = reset_descriptor p f closed in (set_flags p' flags, closed')

unfoldable pub has_events : UniquePollFd → Bool
has_events p = not (p.revents == 0)

unfoldable pub clear_events : UniquePollFd → UniquePollFd
clear_events p = record p { revents = 0 }

-- What a call of `::poll` or `::ppoll` does: it sets the events of so many entries, or `errno`.
pub data Answer : Type 0 where
  ready : ℕ → List ℕ → Answer
  refused : ℕ → Answer

-- `poll_result`; a count of `none` is -1.
pub record PollResult : Type 0 where
  pub count : Option ℕ
  pub status : ℕ

unfoldable pub poll_result : Answer → PollResult
poll_result (ready n revents) = record { count = some n; status = 0 }
poll_result (refused e) = record { count = none; status = e }

-- How `wait_for_events` ends.
pub data Waited : Type 0 where
  returned : Waited
  unexpected : ℕ → Waited

-- `wait_for_events`, with the calls that follow; `none` means that it still waits.
unfoldable pub wait_for_events : List Answer → Option Waited
unfolding poll_result
wait_for_events [] = none
wait_for_events (a ∷ answers) =
    let p = poll_result a in
    let rest = wait_for_events answers in
    if p.status == 0
    then some returned
    else if p.status == eintr
    then rest
    else some (unexpected p.status)

-- `timespec_for_duration` of a duration that is not negative: the seconds and the nanoseconds.
unfoldable pub timespec_for_duration : ℕ → ℕ × ℕ
timespec_for_duration ns = (ns / 1000000000, ns % 1000000000)
