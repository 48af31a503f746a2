-- ===== src/RingStream.antt =====
-- core/ring_spsc_stream.cpp: what the two streams over the ring buffer share: the data behind the
-- indices, the accesses to it, and the calls on the event descriptor.
pub mod End
pub mod Output
pub mod Input
pub mod Offers
pub mod Room
pub mod Accepts
pub mod Returns
pub mod Sleeps
pub mod Arrives
pub mod Takes
pub mod Fair
pub mod Delivers
pub mod Pair
use Prim.Native.Nat.{bit_and}
use lbu.Common.{
  ℕ, zero, suc, ◌^◌, not, Option, none, some, Bool, true, false, ltb, ◌==◌, ◌&&◌, ◌||◌, min, List,
  [], ◌∷◌, ◌++◌, ◌≡◌, refl, if◌then◌else◌,
}
use lbu.Io.{eintr}
use lbu.FdStream.{Mode, blocking, non_blocking, eagain}
use lbu.Poll.{Answer, ready, refused}
use lbu.Common.Words.{sub_word}
use lbu.Ring.Alg.{continuous_slots}
use lbu.Ring.Mirrored.{offset, new_index, producer_free_slots, consumer_free_slots}

-- The indices are of type `uint32_t`.
abbrev pub m : ℕ
m = 2 ^ 32

-- `ring_spsc_shared_data`
pub record SharedData : Type 0 where
  pub producer_index : ℕ
  pub consumer_index : ℕ
  pub producer_wake : Bool
  pub consumer_wake : Bool
  pub eos : Bool

-- What `input_stream::update_buffer_size` makes of its two loads: the size available, whether it
-- sets `StatusEndOfStream`, and its result. The index is loaded first, and the end afterwards.
pub record Update : Type 0 where
  pub buffer_available : ℕ
  pub ended : Bool
  pub result : Bool

unfoldable pub input_update_buffer_size : ℕ → Bool → ℕ → ℕ → ℕ → Update
input_update_buffer_size producer_index eos consumer_index segment_limit n =
    let b =
      continuous_slots m (offset m consumer_index n)
        (consumer_free_slots m producer_index consumer_index n) n in
    let available = min segment_limit b in
    if available == 0 && eos
    then record { buffer_available = available; ended = true; result = true }
    else record { buffer_available = available; ended = false; result = ltb 0 available }

-- `output_stream::update_buffer_size`: the size available
unfoldable pub output_update_buffer_size : ℕ → ℕ → ℕ → ℕ → ℕ
output_update_buffer_size consumer_index producer_index segment_limit n = min segment_limit (
    continuous_slots m (offset m producer_index n)
      (producer_free_slots m producer_index consumer_index n) n)

-- `output_stream` with its `data`
pub record RingOutputStream : Type 0 where
  pub buffer_offset : ℕ
  pub buffer_available : ℕ
  pub has_error : Bool
  pub at_end : Bool
  pub ring_size : ℕ
  pub segment_limit : ℕ
  pub last_index : ℕ

-- `set_end_of_stream`; `woken` is the result of `producer_write`. The stores to the shared data are
-- those of the index and then of the end.
unfoldable pub set_end_of_stream :
    RingOutputStream → SharedData → Bool → Bool × RingOutputStream × SharedData
set_end_of_stream s shared woken =
    let count = sub_word m s.buffer_offset (offset m s.last_index s.ring_size) in
    let producer_idx = new_index m s.last_index count s.ring_size in
    let shared' = record shared { producer_index = producer_idx; eos = true } in
    if s.has_error || s.at_end
    then (false, s, shared)
    else (woken, record s { buffer_available = 0; has_error = not woken; at_end = woken }, shared')

-- The accesses to the shared data in the order of the code, seen from one of the streams: its own
-- index is stored, the flag of the other side is exchanged if it is found set, the index and the end
-- of the other side are loaded, the event descriptor is read or written, its own flag is set, and
-- the descriptor is polled. Bytes are copied to or from the buffer at an offset.
pub data Access : Type 0 where
  store_index : ℕ → Access
  exchange_wake : Bool → Access
  load_index : ℕ → Access
  load_eos : Bool → Access
  access_event : ℕ → Access
  store_wake : Access
  poll_event : Access
  copy_bytes : ℕ → List ℕ → Access

-- What the accesses of one call of `next_buffer` find: the index and the end at each look, the flag,
-- the status of each access to the event descriptor, and what each `wait` is answered.
pub record Seen : Type 0 where
  pub index : ℕ → ℕ
  pub eos : ℕ → Bool
  pub wake : Bool
  pub event : ℕ → ℕ
  pub answers : ℕ → List Answer

-- `r == event_fd::ReadNoError || r == event_fd::ReadWouldBlock`, and the same of a write
unfoldable pub consumer_read : ℕ → Bool
consumer_read r = r == 0 || r == eagain

unfoldable pub producer_write : ℕ → Bool
producer_write r = r == 0 || r == eagain

-- `wait`; `none` means that it still waits.
unfoldable pub wait : ℕ → List Answer → Option Bool
wait flags [] = none
wait flags (ready (suc zero) (revents ∷ _) ∷ _) = some (not (bit_and flags revents == 0))
wait flags (ready _ _ ∷ _) = some false
wait flags (refused e ∷ answers) =
    let rest = wait flags answers in if e == eintr then rest else some false

-- `mode == Mode::NonBlocking`
unfoldable pub is_non_blocking : Mode → Bool
is_non_blocking blocking = false
is_non_blocking non_blocking = true

-- The accesses made, and the result, which is `none` while a `wait` lasts.
abbrev pub Run : Type 0 → Type 0
Run A = List Access × Option A

module _ {A : Type 0} where
  unfoldable pub note : Access → Run A → Run A
  note a r = (a ∷ r.0, r.1)

  unfoldable pub done : A → Run A
  done a = ([], some a)

  -- The rest of the code runs with the result of a `wait`.
  unfoldable pub waited : Option Bool → Run A → Run A → Run A
  waited none failure success = (poll_event ∷ [], none)
  waited (some false) failure success = note poll_event failure
  waited (some true) failure success = note poll_event success

module _ {A B : Type 0} where
  -- What comes after a call that returns.
  unfoldable pub follow : Run A → (A → Run B) → Run B
  follow r k = elim r.1 [ none ↦ (r.0, none) | some a ↦ (r.0 ++ (k a).0, (k a).1) ]

  pub follow-cases :
      (P : Run B → Type 0) (r : Run A) (k : A → Run B)
      → P (r.0, none)
      → ((a : A) → r.1 ≡ some a → P (r.0 ++ (k a).0, (k a).1))
      → P (follow r k)
  unfolding follow
  follow-cases P (before, none) k p q = p
  follow-cases P (before, some a) k p q = q a refl
