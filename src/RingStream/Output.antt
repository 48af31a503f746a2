-- ===== src/RingStream/Output.antt =====
-- core/ring_spsc_stream.cpp and core/lbu/ring_spsc_stream.h: `ring_spsc::output_stream`.
use lbu.Common.{
  ℕ, ◌+◌, ◌*◌, ◌^◌, Option, none, some, Bool, true, false, not, ltb, leb, ◌==◌, ◌&&◌, ◌||◌, min,
  List, [], ◌∷◌, length, take, drop, if◌then◌else◌,
}
use lbu.Common.Words.{add_word, sub_word}
use lbu.FdStream.{Mode, non_blocking}
use lbu.Poll.{flags_write_ready}
use lbu.Ring.Mirrored.{offset, new_index, max_size}
use lbu.RingStream.{
  m, SharedData, RingOutputStream, store_index, exchange_wake, load_index, access_event, store_wake,
  copy_bytes, Seen, producer_write, wait, Run, note, done, waited, follow, is_non_blocking,
  output_update_buffer_size,
}

abbrev pub default_ring_segment_limit : ℕ
default_ring_segment_limit = 16 * 1024

-- The constructor
abbrev pub output_stream : RingOutputStream
output_stream = record {
  buffer_offset = 0;
  buffer_available = 0;
  has_error = false;
  at_end = false;
  ring_size = 0;
  segment_limit = default_ring_segment_limit;
  last_index = 0;
}

-- The buffer is given by its size.
unfoldable pub reset : RingOutputStream → ℕ → SharedData → RingOutputStream
reset s size shared =
    let n = min size (max_size m) in
    record s {
      ring_size = n;
      last_index = shared.producer_index;
      buffer_offset = offset m shared.producer_index n;
      buffer_available =
          output_update_buffer_size shared.consumer_index shared.producer_index s.segment_limit n;
      has_error = false;
      at_end = false;
    }

unfoldable pub set_segment_size_limit : RingOutputStream → ℕ → RingOutputStream
set_segment_size_limit s limit = record s { segment_limit = if ltb 0 limit then limit else 1 }

-- `count` in `next_buffer`: the bytes written and not yet published
unfoldable pub unpublished : RingOutputStream → ℕ
unpublished s = sub_word m s.buffer_offset (offset m s.last_index s.ring_size)

-- The stream with the index that is stored.
unfoldable pub publish : RingOutputStream → RingOutputStream
publish s =
    let producer_idx = new_index m s.last_index (unpublished s) s.ring_size in
    record s { last_index = producer_idx; buffer_offset = offset m producer_idx s.ring_size }

-- `update_buffer_size`, which loads the index of the consumer
unfoldable pub look : RingOutputStream → ℕ → RingOutputStream
look s consumer_index = record s {
  buffer_available =
      output_update_buffer_size consumer_index s.last_index s.segment_limit s.ring_size;
}

-- The result is the buffer, given by its size, and the stream.
abbrev pub Offer : Type 0
Offer = Run (ℕ × RingOutputStream)

-- `return current_buffer()`
unfoldable pub current_buffer : RingOutputStream → Offer
current_buffer s = done (s.buffer_available, s)

-- `error:`
unfoldable pub fail : RingOutputStream → Offer
fail s = done (0, record s { has_error = true; at_end = false; buffer_available = 0 })

-- `if( update_buffer_size(...) ) return current_buffer();`, and what comes after it
unfoldable pub look_or : RingOutputStream → ℕ → Offer → Offer
look_or p i rest =
    note (load_index i)
      (if ltb 0 (look p i).buffer_available then current_buffer (look p i) else rest)

-- `if( ! producer_write(f) ) goto error;`, and what comes after it
unfoldable pub write_or_fail : RingOutputStream → ℕ → Offer → Offer
write_or_fail p r rest = note (access_event r) (if producer_write r then rest else fail p)

-- From `s->producer_wake.store(true)` on; `p` is the stream that has published.
unfoldable pub sleep : Mode → RingOutputStream → Seen → Offer
sleep mode p seen =
    let last = note (load_index (seen.index 5)) (current_buffer (look p (seen.index 5))) in
    let woken = look_or p (seen.index 3) (
      write_or_fail p (seen.event 2) (
        look_or p (seen.index 4)
          (waited (wait flags_write_ready (seen.answers 1)) (fail p) last))) in
    let found = look p (seen.index 2) in
    note store_wake (
      note (load_index (seen.index 2)) (
        if ltb 0 found.buffer_available || is_non_blocking mode
        then current_buffer found
        else waited (wait flags_write_ready (seen.answers 0)) (fail p) woken))

-- From the store of the index on.
unfoldable pub publish_and_look : Mode → RingOutputStream → Seen → Offer
publish_and_look mode s seen =
    let p = publish s in
    let written = ltb 0 (unpublished s) in
    let quiet =
      look_or p (seen.index 0)
        (write_or_fail p (seen.event 1) (look_or p (seen.index 1) (sleep mode p seen))) in
    let exchanged = note (exchange_wake seen.wake) (
      if seen.wake
      then write_or_fail p (seen.event 0) (look_or p (seen.index 0) (sleep mode p seen))
      else quiet) in
    note (store_index p.last_index) (if written then exchanged else quiet)

unfoldable pub next_buffer : Mode → RingOutputStream → Seen → Offer
next_buffer mode s seen =
    if s.has_error || s.at_end
    then done (0, record s { has_error = true })
    else publish_and_look mode s seen

abbrev pub get_write_buffer : Mode → RingOutputStream → Seen → Offer
get_write_buffer = next_buffer

-- `write_buffer_flush`, in either mode
unfoldable pub write_buffer_flush : RingOutputStream → Seen → Run (Bool × RingOutputStream)
write_buffer_flush s seen =
    let r = next_buffer non_blocking s seen in
    (r.0, elim r.1 [ none ↦ none | some (n, t) ↦ some (not t.has_error, t) ])

-- `advance`
unfoldable pub advance : RingOutputStream → ℕ → RingOutputStream
advance s count = record s {
  buffer_offset = add_word (2 ^ 32) s.buffer_offset count;
  buffer_available = sub_word (2 ^ 32) s.buffer_available count;
}

-- The return value, where `none` is -1, and the stream.
abbrev pub Written : Type 0
Written = Run (Option ℕ × RingOutputStream)

-- The body of the loop `while( true )` of `write_stream` behind `next_buffer`; `rest` is what comes
-- when bytes are left.
unfoldable pub copy_chunk : RingOutputStream → ℕ → List ℕ → ℕ → Written → Written
copy_chunk t size src count rest =
    if size == 0
    then done ((if t.has_error then none else some count), t)
    else if leb (length src) size
    then note (copy_bytes t.buffer_offset src)
        (done (some (count + length src), advance t (length src)))
    else note (copy_bytes t.buffer_offset (take size src)) rest

-- The loop, with what each `next_buffer` finds; it is `none` when these have run out.
unfoldable pub write_loop : Mode → List Seen → RingOutputStream → List ℕ → ℕ → Written
write_loop mode [] s src count = ([], none)
write_loop mode (seen ∷ seens) s src count = follow (next_buffer mode s seen) (λ (size, t).
    copy_chunk t size src count
      (write_loop mode seens (advance t size) (drop size src) (count + size)))

-- The bytes of the caller's vector are given by themselves.
unfoldable pub write_stream : Mode → List Seen → RingOutputStream → List ℕ → Written
write_stream mode seens s src =
    let n = s.buffer_available in
    let filled : Written =
      if ltb 0 n
      then note (copy_bytes s.buffer_offset (take n src))
          (write_loop mode seens (advance s n) (drop n src) n)
      else write_loop mode seens s src n in
    if s.has_error || s.at_end
    then done (none, record s { has_error = true })
    else if length src == 0
    then done (some 0, s)
    else filled

-- `abstract_output_stream::write`, whose `write_stream` is the one above
unfoldable pub write : Mode → List Seen → RingOutputStream → List ℕ → Written
write mode seens s src =
    if leb (length src) s.buffer_available && ltb 0 s.buffer_available
    then note (copy_bytes s.buffer_offset src) (done (some (length src), advance s (length src)))
    else write_stream mode seens s src
