-- ===== src/Ring/System.antt =====
-- core/lbu/ring_spsc.h: a producer and a consumer on one buffer, their steps interleaved in any
-- order. One step is one access of a slot or one call of a handle; each call loads or stores one
-- shared index, so a release store and the acquire load that sees it order the slot accesses.
pub mod Window
pub mod Invariant
pub mod Fifo
use lbu.Common.{ℕ, ◌+◌, ◌-◌, ◌≤◌, ◌<◌, List, [], ◌∷◌, ◌++◌, ltb, if◌then◌else◌}
use lbu.Common.Family.{update}
use lbu.ArrayRef.{ArrayRef}
use lbu.Ring.Alg.{BufferAlg}
use lbu.Ring.Handle.{
  Shared, Local, reset, producer_last_available, producer_update_available, publish,
  producer_ranges, consumer_last_available, consumer_update_available, release, consumer_ranges,
}

-- The address of the `j`th element of a pair of ranges.
abbrev pub slot : ArrayRef × ArrayRef → ℕ → ℕ
slot (first, second) j =
    if ltb j first.size then first.begin + j else second.begin + (j - first.size)

-- `filled` slots are written and not published, `taken` slots are read and not released. The four
-- totals from `produced` on are history: no step looks at them.
pub record System (A : Type 0) : Type 0 where
  pub memory : ℕ → A
  pub shared : Shared
  pub producer : Local
  pub consumer : Local
  pub filled : ℕ
  pub taken : ℕ
  pub output : List A
  pub produced : ℕ
  pub released : ℕ
  pub seen_produced : ℕ
  pub seen_released : ℕ

module _ (m : ℕ) (alg : BufferAlg) {A : Type 0} (input : ℕ → A) where
  -- `pair_producer_consumer` on fresh indices.
  abbrev pub init : ArrayRef → (ℕ → A) → System A
  init buf memory =
      let s : Shared = record { producer_index = 0; consumer_index = 0 } in
      record {
        memory = memory;
        shared = s;
        producer = reset buf s;
        consumer = reset buf s;
        filled = 0;
        taken = 0;
        output = [];
        produced = 0;
        released = 0;
        seen_produced = 0;
        seen_released = 0;
      }

  abbrev pub look_released : System A → System A
  look_released s = record s {
    producer = (producer_update_available m alg s.producer s.shared).0;
    seen_released = s.released;
  }

  abbrev pub write_slot : System A → System A
  write_slot s = record s {
    memory =
        update s.memory (slot (producer_ranges m alg s.producer) s.filled)
          (input (s.produced + s.filled));
    filled = s.filled + 1;
  }

  abbrev pub publish_slots : ℕ → System A → System A
  publish_slots count s = record s {
    producer = (publish m alg s.producer s.shared count).0;
    shared = (publish m alg s.producer s.shared count).1;
    filled = s.filled - count;
    produced = s.produced + count;
  }

  abbrev pub look_produced : System A → System A
  look_produced s = record s {
    consumer = (consumer_update_available m alg s.consumer s.shared).0;
    seen_produced = s.produced;
  }

  abbrev pub read_slot : System A → System A
  read_slot s = record s {
    output = s.output ++ s.memory (slot (consumer_ranges m alg s.consumer) s.taken) ∷ [];
    taken = s.taken + 1;
  }

  abbrev pub release_slots : ℕ → System A → System A
  release_slots count s = record s {
    consumer = (release m alg s.consumer s.shared count).0;
    shared = (release m alg s.consumer s.shared count).1;
    taken = s.taken - count;
    released = s.released + count;
  }

  -- A slot is only touched inside the ranges that the handle gives, and no more slots are passed
  -- on than were touched.
  pub data Step (s : System A) : System A → Type 0 where
    look_released_step : Step s (look_released s)
    write_step : s.filled < producer_last_available m alg s.producer → Step s (write_slot s)
    publish_step : (count : ℕ) → count ≤ s.filled → Step s (publish_slots count s)
    look_produced_step : Step s (look_produced s)
    read_step : s.taken < consumer_last_available m alg s.consumer → Step s (read_slot s)
    release_step : (count : ℕ) → count ≤ s.taken → Step s (release_slots count s)

  pub data Reach (buf : ArrayRef) (memory : ℕ → A) : System A → Type 0 where
    start : Reach buf memory (init buf memory)
    next : {s t : System A} → Reach buf memory s → Step s t → Reach buf memory t
