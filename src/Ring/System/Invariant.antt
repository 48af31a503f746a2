-- ===== src/Ring/System/Invariant.antt =====
-- core/lbu/ring_spsc.h: what holds of every reachable state of the ring.
use native.Mathlib.Nat.{mod-eq_of_lt}
use lbu.Common.{ℕ, ◌+◌, ◌-◌, ◌%◌, ◌≤◌, ◌<◌, ◌≡◌, arith, refl, sym, ap, ◌∙◌, dec_lt}
use lbu.Common.Family.{update, update_same, update_ne, prefix, prefix-suc}
use lbu.ArrayRef.{ArrayRef}
use lbu.Ring.Alg.{BufferAlg, Shape, Laws}
use lbu.Ring.Handle.{
  reset, producer_last_available, producer_update_available, publish, producer_ranges,
  consumer_last_available, consumer_update_available, release, consumer_ranges,
}
use lbu.Ring.System.{
  System, slot, init, look_released, write_slot, publish_slots, look_produced, read_slot,
  release_slots, Step, look_released_step, write_step, publish_step, look_produced_step, read_step,
  release_step, Reach, start, next,
}
use lbu.Ring.System.Window.{slot-total, slots_differ}

-- The totals are in order, and the slots from the last released to the last written hold input.
pub record Inv (shape : Shape) {A : Type 0} (input : ℕ → A) (buf : ArrayRef) (s : System A)
    : Type 0 where
  pub producer_buffer : s.producer.buffer ≡ buf
  pub consumer_buffer : s.consumer.buffer ≡ buf
  pub shared_producer : s.shared.producer_index ≡ s.produced % shape.period buf.size
  pub shared_consumer : s.shared.consumer_index ≡ s.released % shape.period buf.size
  pub own_producer : s.producer.local_producer_index ≡ s.produced % shape.period buf.size
  pub other_producer : s.producer.local_consumer_index ≡ s.seen_released % shape.period buf.size
  pub own_consumer : s.consumer.local_consumer_index ≡ s.released % shape.period buf.size
  pub other_consumer : s.consumer.local_producer_index ≡ s.seen_produced % shape.period buf.size
  pub released_seen : s.seen_released ≤ s.released
  pub taken_seen : s.released + s.taken ≤ s.seen_produced
  pub produced_seen : s.seen_produced ≤ s.produced
  pub room : s.produced + s.filled ≤ s.seen_released + shape.capacity buf.size
  pub contents :
      (i : ℕ)
      → s.released ≤ i
      → i < s.produced + s.filled
      → s.memory (buf.begin + i % buf.size) ≡ input i
  pub in_order : s.output ≡ prefix input (s.released + s.taken)

module _ {m : ℕ} {alg : BufferAlg} {shape : Shape} (laws : Laws m alg shape) {A : Type 0}
    (input : ℕ → A) (buf : ArrayRef) (least : shape.min_size ≤ buf.size)
    (most : buf.size ≤ alg.max_size) where
  abbrev Good : System A → Type 0
  Good = Inv shape input buf

  abbrev cap : ℕ
  cap = shape.capacity buf.size

  abbrev per : ℕ
  per = shape.period buf.size

  -- What each handle computes from its copies of the indices.
  pub producer-room :
      {s : System A}
      → Good s
      → producer_last_available m alg s.producer ≡ cap - (s.produced - s.seen_released)
  unfolding producer_last_available
  producer-room {s} v =
      rw (v.own_producer, v.other_producer, v.producer_buffer)
        (laws.producer_free buf.size s.produced s.seen_released least most (omega arith)
          (omega arith))

  pub consumer-room :
      {s : System A}
      → Good s
      → consumer_last_available m alg s.consumer ≡ s.seen_produced - s.released
  unfolding consumer_last_available
  consumer-room {s} v =
      rw (v.own_consumer, v.other_consumer, v.consumer_buffer)
        (laws.consumer_free buf.size s.seen_produced s.released least most (omega arith)
          (omega arith))

  pub size_pos : 0 < buf.size
  size_pos = omega (arith, laws.capacity_bounds buf.size least)

  size_lt : buf.size < m
  size_lt = laws.size_bound buf.size least most

  pub cap_le : cap ≤ buf.size
  cap_le = (laws.capacity_bounds buf.size least).1

  -- The next slot to write, and the next to read.
  pub write_address :
      {s : System A}
      → Good s
      → s.filled < producer_last_available m alg s.producer
      → slot (producer_ranges m alg s.producer) s.filled
        ≡ buf.begin + (s.produced + s.filled) % buf.size
  unfolding producer_ranges
  write_address {s} v h =
      let free =
        laws.producer_free buf.size s.produced s.seen_released least most (omega arith)
          (omega arith) in
      rw
        (
          v.own_producer,
          v.other_producer,
          v.producer_buffer,
          laws.offset_lem buf.size s.produced least most,
          free,
        )
        (slot-total m buf.begin s.produced (cap - (s.produced - s.seen_released)) buf.size s.filled
          size_pos size_lt (omega (arith, cap_le)) (omega (arith, h, producer-room v)))

  pub read_address :
      {s : System A}
      → Good s
      → s.taken < consumer_last_available m alg s.consumer
      → slot (consumer_ranges m alg s.consumer) s.taken
        ≡ buf.begin + (s.released + s.taken) % buf.size
  unfolding consumer_ranges
  read_address {s} v h =
      let free =
        laws.consumer_free buf.size s.seen_produced s.released least most (omega arith)
          (omega arith) in
      rw
        (
          v.own_consumer,
          v.other_consumer,
          v.consumer_buffer,
          laws.offset_lem buf.size s.released least most,
          free,
        )
        (slot-total m buf.begin s.released (s.seen_produced - s.released) buf.size s.taken size_pos
          size_lt (omega (arith, cap_le)) (omega (arith, h, consumer-room v)))

  init-Inv : (memory : ℕ → A) → Good (init m alg input buf memory)
  unfolding reset prefix
  init-Inv memory = record {
    producer_buffer = refl;
    consumer_buffer = refl;
    shared_producer = zero_index;
    shared_consumer = zero_index;
    own_producer = zero_index;
    other_producer = zero_index;
    own_consumer = zero_index;
    other_consumer = zero_index;
    released_seen = omega arith;
    taken_seen = omega arith;
    produced_seen = omega arith;
    room = omega arith;
    contents = λ i lo hi. absurd (omega arith);
    in_order = refl;
  }
    where
      zero_index : 0 ≡ 0 % per
      zero_index = sym (mod-eq_of_lt (laws.period_pos buf.size least))

  pub look_released-Inv : {s : System A} → Good s → Good (look_released m alg input s)
  unfolding producer_update_available
  look_released-Inv v = ground arith

  pub look_produced-Inv : {s : System A} → Good s → Good (look_produced m alg input s)
  unfolding consumer_update_available
  look_produced-Inv v = ground arith

  publish-Inv :
      {s : System A} (count : ℕ)
      → count ≤ s.filled
      → Good s
      → Good (publish_slots m alg input count s)
  unfolding publish
  publish-Inv {s} count le v = ground (arith, laws.advances buf.size s.produced count least most)

  release-Inv :
      {s : System A} (count : ℕ)
      → count ≤ s.taken
      → Good s
      → Good (release_slots m alg input count s)
  unfolding release
  release-Inv {s} count le v = ground (arith, laws.advances buf.size s.released count least most)

  write_kept :
      {s : System A}
      → s.filled < producer_last_available m alg s.producer
      → Good s
      → (i : ℕ) → s.released ≤ i
      → i < s.produced + (s.filled + 1)
      → update s.memory
          (slot (producer_ranges m alg s.producer) s.filled)
          (input (s.produced + s.filled))
          (buf.begin + i % buf.size)
        ≡ input i
  write_kept {s} h v i lo hi = rw (write_address v h) (elim (dec_lt i (s.produced + s.filled)) [
    | yes before ↦
        update_ne s.memory _ _ _ (λ e.
          slots_differ buf.size i (s.produced + s.filled) size_pos before
            (omega (arith, h, producer-room v, cap_le)) (omega (arith, e)))
        ∙ v.contents i lo before
    | no last ↦ let e : i ≡ s.produced + s.filled = omega arith in rw e (update_same s.memory _ _)
  ])

  write-Inv :
      {s : System A}
      → s.filled < producer_last_available m alg s.producer
      → Good s
      → Good (write_slot m alg input s)
  write-Inv {s} h v = record {
    producer_buffer = v.producer_buffer;
    consumer_buffer = v.consumer_buffer;
    shared_producer = v.shared_producer;
    shared_consumer = v.shared_consumer;
    own_producer = v.own_producer;
    other_producer = v.other_producer;
    own_consumer = v.own_consumer;
    other_consumer = v.other_consumer;
    released_seen = v.released_seen;
    taken_seen = v.taken_seen;
    produced_seen = v.produced_seen;
    room = omega (arith, producer-room v);
    contents = write_kept h v;
    in_order = v.in_order;
  }

  -- What `read_slot` appends is the next value of the input.
  pub read_value :
      {s : System A}
      → s.taken < consumer_last_available m alg s.consumer
      → Good s
      → s.memory (slot (consumer_ranges m alg s.consumer) s.taken) ≡ input (s.released + s.taken)
  read_value {s} h v =
      ap s.memory (read_address v h)
      ∙ v.contents (s.released + s.taken) (omega arith) (omega (arith, consumer-room v))

  read-Inv :
      {s : System A}
      → s.taken < consumer_last_available m alg s.consumer
      → Good s
      → Good (read_slot m alg input s)
  read-Inv {s} h v =
      ground (arith, consumer-room v, read_value h v, prefix-suc input (s.released + s.taken))

  pub Step-Inv : {s t : System A} → Step m alg input s t → Good s → Good t
  Step-Inv look_released_step v = look_released-Inv v
  Step-Inv (write_step h) v = write-Inv h v
  Step-Inv (publish_step count le) v = publish-Inv count le v
  Step-Inv look_produced_step v = look_produced-Inv v
  Step-Inv (read_step h) v = read-Inv h v
  Step-Inv (release_step count le) v = release-Inv count le v

  pub Reach-Inv : {memory : ℕ → A} {s : System A} → Reach m alg input buf memory s → Good s
  Reach-Inv {memory} start = init-Inv memory
  Reach-Inv (next r st) = Step-Inv st (Reach-Inv r)
