-- ===== src/RingStream/Pair.antt =====
-- core/lbu/ring_spsc_stream.h and core/ring_spsc_stream.cpp: a pair of streams at its start.
use lbu.Common.{ℕ, ◌≤◌, ◌≡◌, Option, none, some, Bool, true, false, min, arith, refl, sym, ap, ◌∙◌}
use lbu.Ring.Alg.{continuous_slots, continuous_slots_lem}
use lbu.Ring.Mirrored.{max_size, offset, producer_free_slots, consumer_free_slots}
use native.Mathlib.Nat.{mod-eq_of_lt}
use lbu.Common.Words.{sub_word, sub_word_exact}
use lbu.RingStream.{
  m, Update, SharedData, RingOutputStream, input_update_buffer_size, output_update_buffer_size,
}
use lbu.RingStream.Input.{RingInputStream}
use lbu.RingStream.Input
use lbu.RingStream.Output.{default_ring_segment_limit}
use lbu.RingStream.Output
use lbu.RingStream.Room.{Room}
use lbu.RingStream.Arrives.{Ready}

-- The constructor of `ring_spsc_shared_data`
abbrev pub ring_spsc_shared_data : SharedData
ring_spsc_shared_data = record {
  producer_index = 0;
  consumer_index = 0;
  producer_wake = false;
  consumer_wake = true;
  eos = false;
}

-- `ring_spsc::pair_streams`, of a buffer of so many bytes
unfoldable pub pair_streams :
    RingOutputStream → RingInputStream → ℕ → SharedData → ℕ → RingOutputStream × RingInputStream
pair_streams out input size s limit = (
  Output.set_segment_size_limit (Output.reset out size s) limit,
  Input.set_segment_size_limit (Input.reset input size s) limit,
)

-- `ring_spsc_basic_controller::internal`; the constructor takes the descriptor that `eventfd` gives.
pub record Controller : Type 0 where
  pub shared : SharedData
  pub bufsize : ℕ
  pub filedes : Option ℕ

-- `none` means that the program ends with the error.
unfoldable pub ring_spsc_basic_controller : ℕ → Option ℕ → Option Controller
ring_spsc_basic_controller bufsize none = none
ring_spsc_basic_controller bufsize (some f) = some (record {
  shared = ring_spsc_shared_data;
  bufsize = min bufsize (max_size m);
  filedes = some f;
})

-- `ring_spsc_basic_controller::pair_streams`
unfoldable pub pair_controlled :
    Controller → RingOutputStream → RingInputStream → ℕ → Bool × RingOutputStream × RingInputStream
pair_controlled d out input limit = elim d.filedes [
  | none ↦ (false, out, input)
  | some f ↦ let (o, i) = pair_streams out input d.bufsize d.shared limit in (true, o, i)
]

module _ (size : ℕ) (pos : 1 ≤ size) where
  abbrev n : ℕ
  n = min size (max_size m)

  start : offset m 0 n ≡ 0
  unfolding offset
  start = ground arith

  all_free : producer_free_slots m 0 0 n ≡ n
  unfolding producer_free_slots sub_word
  all_free = sub_word_exact m n 0 (omega arith) (omega arith) ∙ omega arith

  none_free : consumer_free_slots m 0 0 n ≡ 0
  unfolding consumer_free_slots sub_word
  none_free = refl

  first_room : (limit : ℕ) → output_update_buffer_size 0 0 limit n ≡ min limit n
  unfolding output_update_buffer_size
  first_room limit =
      ap (λ f. min limit (continuous_slots m (offset m 0 n) f n)) all_free
      ∙ ap (λ o. min limit (continuous_slots m o n n)) start
      ∙ ap (min limit) (continuous_slots_lem m 0 n n (omega arith) (omega arith) ∙ omega arith)

  nothing_there :
      (limit : ℕ)
      → input_update_buffer_size 0 false 0 limit n
        ≡ record { buffer_available = 0; ended = false; result = false }
  unfolding input_update_buffer_size continuous_slots
  nothing_there limit =
      let z : min limit (min 0 (sub_word m n (offset m 0 n))) ≡ 0 = omega arith in
      rw (none_free, z) refl

-- Streams that are paired over a buffer of at least one byte, of which at most `max_size` are used,
-- with new shared data, whatever they were before: nothing is written and nothing is there to read,
-- and the room offered first is that of the whole buffer, up to the limit that the output stream had
-- before, not the one that is asked for.
pub pair_streams_lem :
    (out : RingOutputStream) (input : RingInputStream) (size limit : ℕ)
    → 1 ≤ size
    → Room (pair_streams out input size ring_spsc_shared_data limit).0 0 0 0
      × Ready (pair_streams out input size ring_spsc_shared_data limit).1 0 0 0
      × ((pair_streams out input size ring_spsc_shared_data limit).0.buffer_available
          ≡ min out.segment_limit (min size (max_size m)))
unfolding pair_streams Output.set_segment_size_limit Output.reset Input.set_segment_size_limit
    Input.reset
pair_streams_lem out input size limit pos =
    let n = min size (max_size m) in
    (
      record {
        sized = (omega arith, omega arith);
        last = sym (mod-eq_of_lt (omega arith));
        behind = start size pos ∙ sym (mod-eq_of_lt {n = 0} {m = n} (omega arith)) ∙ omega arith;
        inside = omega (arith, start size pos, first_room size pos out.segment_limit);
        released = omega arith;
        room = omega (arith, first_room size pos out.segment_limit);
      },
      record {
        sized = (omega arith, omega arith);
        last = sym (mod-eq_of_lt (omega arith));
        behind = start size pos ∙ sym (mod-eq_of_lt {n = 0} {m = n} (omega arith)) ∙ omega arith;
        inside = omega (
          arith,
          start size pos,
          ap (λ (u : Update). u.buffer_available) (nothing_there size pos input.segment_limit),
        );
        published = omega (
          arith,
          ap (λ (u : Update). u.buffer_available) (nothing_there size pos input.segment_limit),
        );
      },
      first_room size pos out.segment_limit,
    )
