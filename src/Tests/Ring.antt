-- ===== src/Tests/Ring.antt =====
-- core/lbu/ring_spsc.h on two slots of 32 bit indices.
use lbu.Common.{ℕ, ◌+◌, ◌-◌, ◌*◌, ◌%◌, ◌^◌, ◌≤◌, ◌≡◌, ◌≢◌, arith, [], ◌∷◌, length, refl, ℕ_discrete}
use lbu.Common.Family.{prefix, update}
use lbu.Common.Words.{add_word, sub_word, mul_word}
use lbu.ArrayRef.{ArrayRef}
use lbu.Ring.Alg.{BufferAlg, Laws, continuous_slots}
use lbu.Ring.Mirrored
use lbu.Ring.Reserved
use lbu.Ring.Reserved.{reserved_slot}
use lbu.Ring.Reserved.Bounds.{reserved_slot_shape, reserved_slot-Laws}
use lbu.Ring.Mirrored.{mirrored_index}
use lbu.Ring.Mirrored.Bounds.{mirrored_index_shape, mirrored_index-Laws}
use lbu.Ring.Handle.{
  reset, ranges, producer_last_available, producer_update_available, publish, producer_ranges,
  consumer_last_available, consumer_update_available, consumer_ranges,
}
use lbu.Ring.System.{
  System, Reach, init, start, next, write_step, publish_step, look_produced_step, read_step, slot,
}
use lbu.Ring.System.Fifo.{reads_in_order, write-ne-unread, available_exact}

abbrev m : ℕ
m = 2 ^ 32

abbrev alg : BufferAlg
alg = mirrored_index m

abbrev input : ℕ → ℕ
input i = 10 * i + 7

abbrev buf : ArrayRef
buf = record { begin = 64; size = 2 }

abbrev blank : ℕ → ℕ
blank _ = 0

abbrev Reached : Type 0
Reached = (s : System ℕ) × Reach m alg input buf blank s

-- Two elements written, one published, seen and read.
abbrev half_way : Reached
unfolding reset producer_last_available consumer_last_available publish consumer_update_available
    Mirrored.producer_free_slots Mirrored.consumer_free_slots Mirrored.new_index add_word sub_word
    mul_word
half_way =
    let r0 : Reached = (init m alg input buf blank, start) in
    (
      _,
      next
          (next
            (next (next (next r0.1 (write_step (omega arith))) (write_step (omega arith)))
              (publish_step 1 (omega arith)))
            look_produced_step)
          (read_step (omega arith)),
    )

mirrored_index-Laws_example : Laws m alg mirrored_index_shape
mirrored_index-Laws_example = mirrored_index-Laws m

reserved_slot-Laws_example : Laws m (reserved_slot m) reserved_slot_shape
reserved_slot-Laws_example = reserved_slot-Laws m

reads_in_order_example :
    (half_way.0.output ≡ prefix input (length half_way.0.output))
    × (length half_way.0.output ≤ half_way.0.produced)
    × (half_way.0.produced ≤ half_way.0.released + 2)
reads_in_order_example =
    reads_in_order (mirrored_index-Laws m) input buf (omega arith) (omega arith) half_way.1

available_exact_example :
    (producer_last_available m alg half_way.0.producer
      ≤ 2 - (half_way.0.produced - half_way.0.released))
    × (consumer_last_available m alg half_way.0.consumer
        ≤ half_way.0.produced - half_way.0.released)
    × ((producer_update_available m alg half_way.0.producer half_way.0.shared).1
        ≡ 2 - (half_way.0.produced - half_way.0.released))
    × ((consumer_update_available m alg half_way.0.consumer half_way.0.shared).1
        ≡ half_way.0.produced - half_way.0.released)
available_exact_example =
    available_exact (mirrored_index-Laws m) input buf (omega arith) (omega arith) half_way.1

-- Before anything is released only one more slot can be written.
abbrev one_written : Reached
unfolding reset producer_last_available consumer_last_available publish consumer_update_available
    Mirrored.producer_free_slots Mirrored.consumer_free_slots Mirrored.new_index add_word sub_word
    mul_word
one_written =
    let r0 : Reached = (init m alg input buf blank, start) in
    (_, next r0.1 (write_step (omega arith)))

write-ne-unread_example :
    slot (producer_ranges m alg one_written.0.producer) one_written.0.filled ≢ 64 + 0 % 2
unfolding reset producer_last_available consumer_last_available publish consumer_update_available
    Mirrored.producer_free_slots Mirrored.consumer_free_slots Mirrored.new_index add_word sub_word
    mul_word
write-ne-unread_example =
    write-ne-unread (mirrored_index-Laws m) input buf (omega arith) (omega arith) one_written.1 0
      (omega arith) (omega arith) (omega arith)

half_way_output : half_way.0.output ≡ 7 ∷ []
unfolding reset producer_last_available consumer_last_available publish consumer_update_available
    Mirrored.producer_free_slots Mirrored.consumer_free_slots Mirrored.new_index add_word sub_word
    mul_word update ranges continuous_slots producer_ranges consumer_ranges Mirrored.offset
    ℕ_discrete
half_way_output = refl

-- A full ring of the reserved slot kind: three slots, two elements, the indices wrapped.
reserved_wrapped :
    (Reserved.producer_free_slots m 1 2 3 ≡ 0)
    × (Reserved.consumer_free_slots m 1 2 3 ≡ 2)
    × (Reserved.new_index m 2 2 3 ≡ 1)
unfolding Reserved.producer_free_slots Reserved.consumer_free_slots Reserved.new_index add_word
    sub_word
reserved_wrapped = (refl, refl, refl)
