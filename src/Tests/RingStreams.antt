-- ===== src/Tests/RingStreams.antt =====
-- core/ring_spsc_stream.cpp at concrete streams.
use lbu.Common.{ℕ, ◌+◌, ◌≡◌, [], ◌∷◌, true, false, ltb, take, ℕ_discrete, arith, refl, get_or}
use lbu.FdStream.{blocking, non_blocking}
use lbu.Poll.{ready}
use lbu.RingStream.{RingOutputStream, store_index, Seen}
use lbu.RingStream.Output
use lbu.RingStream.Output.{publish}
use lbu.RingStream.Input.{RingInputStream, Moment}
use lbu.RingStream.Input
use lbu.RingStream.Room.{Room, SeenBetween, Offered, next_buffer-Offered}
use lbu.RingStream.Accepts.{Accepted, write-Accepted}
use lbu.RingStream.Returns.{Returned, write-Returned}
use lbu.RingStream.Sleeps.{asks_first, next_buffer-asks_first}
use lbu.RingStream.Arrives.{Ready}
use lbu.RingStream.Fair.{Delivered, Holds, Fair, emptied}
use lbu.RingStream.Delivers.{read-Delivered}
use lbu.RingStream.Pair.{ring_spsc_shared_data, pair_streams, pair_streams_lem}

-- Six bytes are published through a ring of four, and one more is written.
abbrev out : RingOutputStream
out = record {
  buffer_offset = 3;
  buffer_available = 1;
  has_error = false;
  at_end = false;
  ring_size = 4;
  segment_limit = 16384;
  last_index = 6;
}

out-Room : Room out 6 1 4
out-Room = record {
  sized = (omega arith, omega arith);
  last = refl;
  behind = refl;
  inside = omega arith;
  released = omega arith;
  room = omega arith;
}

-- The reader has released five bytes, and waits.
abbrev seen : Seen
seen = record {
  index = λ k. 5;
  eos = λ k. false;
  wake = true;
  event = λ k. 0;
  answers = λ k. ready 1 (4 ∷ []) ∷ [];
}

next_buffer-Offered_example :
    Offered out 7 4 (λ k. 5) seen (Output.next_buffer blocking out seen)
    × (take 1 (Output.next_buffer blocking out seen).0 ≡ store_index 7 ∷ [])
next_buffer-Offered_example =
    next_buffer-Offered blocking out 6 1 4 (λ k. 5) seen out-Room
      (λ k. (omega arith, omega arith, refl)) refl refl

write-Accepted_example :
    Accepted (1 ∷ 2 ∷ 3 ∷ []) 0 (Output.write blocking (seen ∷ []) out (1 ∷ 2 ∷ 3 ∷ []))
write-Accepted_example = write-Accepted blocking (seen ∷ []) out (1 ∷ 2 ∷ 3 ∷ [])

write-Returned_example :
    Returned (Output.write non_blocking (seen ∷ seen ∷ seen ∷ []) out (1 ∷ 2 ∷ []))
write-Returned_example = write-Returned (seen ∷ seen ∷ seen ∷ []) out (1 ∷ 2 ∷ []) (omega arith)

next_buffer-asks_first_example :
    asks_first
      (λ i. ltb 0 (Output.look (publish out) i).buffer_available)
      false
      false
      (Output.next_buffer blocking out seen).0
    ≡ true
next_buffer-asks_first_example = next_buffer-asks_first blocking out seen

-- Four bytes are released and one more is read; the next is available.
abbrev in_stream : RingInputStream
in_stream = record {
  buffer_offset = 1;
  buffer_available = 1;
  has_error = false;
  at_end = false;
  ring_size = 4;
  segment_limit = 16384;
  last_index = 4;
}

in_stream-Ready : Ready in_stream 4 1 6
in_stream-Ready = record {
  sized = (omega arith, omega arith);
  last = refl;
  behind = refl;
  inside = omega arith;
  published = omega arith;
}

-- Byte `i` of the stream is `10 + i`.
abbrev slots : ℕ → ℕ
slots i = get_or (14 ∷ 15 ∷ 16 ∷ 17 ∷ []) i 0

abbrev written : Seen
written = record {
  index = λ k. 0;
  eos = λ k. false;
  wake = false;
  event = λ k. 0;
  answers = λ k. [];
}

slots-Holds : Holds (λ i. 10 + i) 4 slots 5 8
unfolding Holds
slots-Holds = λ i low high. elim (ℕ_discrete i 5) [
  | yes e ↦ rw e refl
  | no n ↦ elim (ℕ_discrete i 6) [
    | yes e ↦ rw e refl
    | no n' ↦ let e : i ≡ 7 = omega arith in rw e refl
  ]
]

written-Fair : Fair (λ i. 10 + i) blocking ((written, slots) ∷ []) (emptied in_stream) 6 2
unfolding Fair SeenBetween emptied Holds slots-Holds Input.advance
written-Fair = (
  (
    8,
    omega arith,
    (λ k. (8, omega arith, omega arith, refl)),
    (λ i low high. slots-Holds i (omega arith) high),
  ),
  (λ size t e. tt),
)

read-Delivered_example :
    Delivered (λ i. 10 + i) 5 (Input.read blocking slots ((written, slots) ∷ []) in_stream 3).1
unfolding Holds Input.required_read
read-Delivered_example =
    read-Delivered (λ i. 10 + i) blocking slots ((written, slots) ∷ []) in_stream 3 4 1 6
      in_stream-Ready (λ i low high. slots-Holds i low (omega arith)) written-Fair

-- A limit of two, where the stream has that of 16 KiB.
pair_streams_lem_example :
    Room (pair_streams Output.output_stream Input.input_stream 8 ring_spsc_shared_data 2).0 0 0 0
    × Ready (pair_streams Output.output_stream Input.input_stream 8 ring_spsc_shared_data 2).1 0 0 0
    × ((pair_streams Output.output_stream Input.input_stream 8 ring_spsc_shared_data
          2).0.buffer_available
        ≡ 8)
pair_streams_lem_example =
    pair_streams_lem Output.output_stream Input.input_stream 8 2 (omega arith)
