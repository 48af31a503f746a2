-- ===== src/RingStream/Input.antt =====
-- core/ring_spsc_stream.cpp and core/lbu/ring_spsc_stream.h: `ring_spsc::input_stream`.
use lbu.Common.{
  ℕ, ◌-◌, ◌+◌, ◌^◌, Option, none, some, Bool, true, false, ltb, leb, ◌==◌, ◌&&◌, ◌||◌, min, List,
  [], ◌∷◌, ◌++◌, map, if◌then◌else◌,
}
use lbu.Common.Words.{add_word, sub_word}
use lbu.Io.{range}
use lbu.FdStream.{Mode, blocking, non_blocking}
use lbu.Poll.{flags_read_ready}
use lbu.Ring.Mirrored.{offset, new_index, max_size}
use lbu.RingStream.{
  m, SharedData, Update, input_update_buffer_size, store_index, exchange_wake, load_index, load_eos,
  access_event, store_wake, copy_bytes, Seen, consumer_read, wait, Run, note, done, waited, follow,
  is_non_blocking,
}
use lbu.RingStream.Output.{default_ring_segment_limit}

-- `input_stream` with its `data`
pub record RingInputStream : Type 0 where
  pub buffer_offset : ℕ
  pub buffer_available : ℕ
  pub has_error : Bool
  pub at_end : Bool
  pub ring_size : ℕ
  pub segment_limit : ℕ
  pub last_index : ℕ

-- The constructor
abbrev pub input_stream : RingInputStream
input_stream = record {
  buffer_offset = 0;
  buffer_available = 0;
  has_error = false;
  at_end = false;
  ring_size = 0;
  segment_limit = default_ring_segment_limit;
  last_index = 0;
}

-- The buffer is given by its size.
unfoldable pub reset : RingInputStream → ℕ → SharedData → RingInputStream
reset s size shared =
    let n = min size (max_size m) in
    let u =
      input_update_buffer_size shared.producer_index shared.eos shared.consumer_index
        s.segment_limit n in
    record s {
      ring_size = n;
      last_index = shared.consumer_index;
      buffer_offset = offset m shared.consumer_index n;
      buffer_available = u.buffer_available;
      has_error = false;
      at_end = false;
    }

unfoldable pub set_segment_size_limit : RingInputStream → ℕ → RingInputStream
set_segment_size_limit s limit = record s { segment_limit = if ltb 0 limit then limit else 1 }

-- `count` in `next_buffer`: the bytes read and not yet released
unfoldable pub unreleased : RingInputStream → ℕ
unreleased s = sub_word m s.buffer_offset (offset m s.last_index s.ring_size)

-- The stream with the index that is stored.
unfoldable pub release : RingInputStream → RingInputStream
release s =
    let consumer_idx = new_index m s.last_index (unreleased s) s.ring_size in
    record s { last_index = consumer_idx; buffer_offset = offset m consumer_idx s.ring_size }

-- `update_buffer_size`, which loads the index of the producer and then the end
unfoldable pub update : RingInputStream → ℕ → Bool → Update
update s producer_index eos =
    input_update_buffer_size producer_index eos s.last_index s.segment_limit s.ring_size

unfoldable pub look : RingInputStream → ℕ → Bool → RingInputStream
look s producer_index eos =
    let u = update s producer_index eos in
    record s {
      buffer_available = u.buffer_available;
      has_error = if u.ended then false else s.has_error;
      at_end = if u.ended then true else s.at_end;
    }

-- The result is the buffer, given by its size, and the stream.
abbrev pub Offer : Type 0
Offer = Run (ℕ × RingInputStream)

-- `return current_buffer()`
unfoldable pub current_buffer : RingInputStream → Offer
current_buffer s = done (s.buffer_available, s)

-- `error:`
unfoldable pub fail : RingInputStream → Offer
fail s = done (0, record s { has_error = true; at_end = false })

-- The loads of `update_buffer_size`: the end only if nothing is available.
unfoldable pub note_loads : RingInputStream → ℕ → Bool → Offer → Offer
note_loads s i eos rest =
    note (load_index i)
      (if (update s i eos).buffer_available == 0 then note (load_eos eos) rest else rest)

-- `if( update_buffer_size(...) ) return current_buffer();`, and what comes after it
unfoldable pub look_or : RingInputStream → ℕ → Bool → Offer → Offer
look_or p i eos rest =
    note_loads p i eos (if (update p i eos).result then current_buffer (look p i eos) else rest)

-- `if( ! consumer_read(f) ) goto error;`, and what comes after it
unfoldable pub read_or_fail : RingInputStream → ℕ → Offer → Offer
read_or_fail p r rest = note (access_event r) (if consumer_read r then rest else fail p)

-- From `s->consumer_wake.store(true)` on; `p` is the stream that has released.
unfoldable pub sleep : Mode → RingInputStream → Seen → Offer
sleep mode p seen =
    let last =
      note_loads p (seen.index 5) (seen.eos 5)
        (current_buffer (look p (seen.index 5) (seen.eos 5))) in
    let woken = look_or p (seen.index 3) (seen.eos 3) (
      read_or_fail p (seen.event 2) (
        look_or p (seen.index 4) (seen.eos 4)
          (waited (wait flags_read_ready (seen.answers 1)) (fail p) last))) in
    let found = look p (seen.index 2) (seen.eos 2) in
    note store_wake (
      note_loads p (seen.index 2) (seen.eos 2) (
        if (update p (seen.index 2) (seen.eos 2)).result || is_non_blocking mode
        then current_buffer found
        else waited (wait flags_read_ready (seen.answers 0)) (fail p) woken))

-- From the store of the index on.
unfoldable pub release_and_look : Mode → RingInputStream → Seen → Offer
release_and_look mode s seen =
    let p = release s in
    let was_read = ltb 0 (unreleased s) in
    let quiet =
      look_or p (seen.index 0) (seen.eos 0) (
        read_or_fail p (seen.event 1)
          (look_or p (seen.index 1) (seen.eos 1) (sleep mode p seen))) in
    let exchanged = note (exchange_wake seen.wake) (
      if seen.wake
      then read_or_fail p (seen.event 0) (look_or p (seen.index 0) (seen.eos 0) (sleep mode p seen))
      else quiet) in
    note (store_index p.last_index) (if was_read then exchanged else quiet)

unfoldable pub next_buffer : Mode → RingInputStream → Seen → Offer
next_buffer mode s seen =
    if s.has_error || s.at_end then done (0, s) else release_and_look mode s seen

abbrev pub get_read_buffer : Mode → RingInputStream → Seen → Offer
get_read_buffer = next_buffer

-- `advance`
unfoldable pub advance : RingInputStream → ℕ → RingInputStream
advance s count = record s {
  buffer_offset = add_word (2 ^ 32) s.buffer_offset count;
  buffer_available = sub_word (2 ^ 32) s.buffer_available count;
}

-- The return value, where `none` is -1, the bytes stored in the caller's buffer from its start on,
-- and the stream.
abbrev pub ReadResult : Type 0
ReadResult = Run (Option ℕ × List ℕ × RingInputStream)

-- What a call of `next_buffer` finds, and the bytes of the ring by their offsets when it is over.
abbrev pub Moment : Type 0
Moment = Seen × (ℕ → ℕ)

-- The body of the loop `do ... while( dst.size() > 0 )` of `read_stream` behind `next_buffer`, with
-- `dst.size()` in `left` and the bytes stored before; `rest` is what comes when room is left.
unfoldable pub copy_chunk : (ℕ → ℕ) → RingInputStream → ℕ → ℕ → ℕ → List ℕ → ReadResult → ReadResult
copy_chunk slots t size left count stored rest =
    let c = min size left in
    let bytes = map slots (range t.buffer_offset c) in
    if size == 0
    then done ((if t.has_error then none else some count), stored, t)
    else note (copy_bytes t.buffer_offset bytes)
        (if ltb 0 (left - c) then rest else done (some (count + c), stored ++ bytes, advance t c))

-- The loop; it is `none` when the moments have run out.
unfoldable pub read_loop : Mode → List Moment → RingInputStream → ℕ → ℕ → List ℕ → ReadResult
read_loop mode [] s left count stored = ([], none)
read_loop mode ((seen, slots) ∷ moments) s left count stored =
    follow (next_buffer mode s seen) (λ (size, t).
      let c = min size left in
      copy_chunk slots t size left count stored (
        read_loop mode moments (advance t c) (left - c) (count + c)
          (stored ++ map slots (range t.buffer_offset c))))

abbrev pub mode_of : ℕ → Mode
mode_of required = if ltb 0 required then blocking else non_blocking

-- `size` is that of the caller's vector; `slots` are the bytes of the ring at the call.
unfoldable pub read_stream : ℕ → (ℕ → ℕ) → List Moment → RingInputStream → ℕ → ReadResult
read_stream required slots moments s size =
    let n = s.buffer_available in
    let mode = mode_of required in
    let bytes = map slots (range s.buffer_offset n) in
    let buffered : ReadResult =
      if ltb 0 n
      then note (copy_bytes s.buffer_offset bytes)
          (read_loop mode moments (advance s n) (size - n) n bytes)
      else read_loop mode moments s size n [] in
    if s.has_error then done (none, [], s) else if size == 0 then done (some 0, [], s) else buffered

-- `mode == Mode::Blocking ? size : 0`
unfoldable pub required_read : Mode → ℕ → ℕ
required_read blocking size = size
required_read non_blocking size = 0

-- `abstract_input_stream::read`, whose `read_stream` is the one above
unfoldable pub read : Mode → (ℕ → ℕ) → List Moment → RingInputStream → ℕ → ReadResult
read mode slots moments s size =
    let bytes = map slots (range s.buffer_offset size) in
    if leb size s.buffer_available && ltb 0 s.buffer_available
    then note (copy_bytes s.buffer_offset bytes) (done (some size, bytes, advance s size))
    else read_stream (required_read mode size) slots moments s size
