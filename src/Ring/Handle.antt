-- ===== src/Ring/Handle.antt =====
-- core/lbu/ring_spsc.h: `handle<T, SizeType, BufferAlg>` with its producer and its consumer.
use lbu.Common.{ℕ, ◌+◌}
use lbu.Common.Words.{sub_word}
use lbu.ArrayRef.{ArrayRef}
use lbu.Ring.Alg.{BufferAlg, continuous_slots}

-- The two atomic indices that both handles point to.
pub record Shared : Type 0 where
  pub producer_index : ℕ
  pub consumer_index : ℕ

-- `handle::data`; the pointers to the shared indices are the `Shared` that each call is given.
pub record Local : Type 0 where
  pub buffer : ArrayRef
  pub local_producer_index : ℕ
  pub local_consumer_index : ℕ

-- `data::reset`, which the constructors and the `reset` of both handles call.
unfoldable pub reset : ArrayRef → Shared → Local
reset buf s = record {
  buffer = buf;
  local_producer_index = s.producer_index;
  local_consumer_index = s.consumer_index;
}

unfoldable pub pair_producer_consumer : ArrayRef → Shared → Local × Local
pair_producer_consumer buf s = (reset buf s, reset buf s)

-- `algorithm::ranges`: the available slots from `offset` on, and those after the wrap.
unfoldable pub ranges : ℕ → ℕ → ℕ → ℕ → ℕ → ArrayRef × ArrayRef
ranges m begin offset available n =
    let first = continuous_slots m offset available n in
    (
      record { begin = begin + offset; size = first },
      record { begin = begin; size = sub_word m available first },
    )

module _ (m : ℕ) (alg : BufferAlg) where
  unfoldable pub producer_last_available : Local → ℕ
  producer_last_available d =
      alg.producer_free_slots d.local_producer_index d.local_consumer_index d.buffer.size

  unfoldable pub producer_update_available : Local → Shared → Local × ℕ
  unfolding producer_last_available
  producer_update_available d s =
      let d' = record d { local_consumer_index = s.consumer_index } in
      (d', producer_last_available d')

  unfoldable pub publish : Local → Shared → ℕ → Local × Shared
  publish d s count =
      let i = alg.new_index d.local_producer_index count d.buffer.size in
      (record d { local_producer_index = i }, record s { producer_index = i })

  unfoldable pub producer_continuous_range : Local → ArrayRef
  unfolding producer_last_available
  producer_continuous_range d =
      let off = alg.offset d.local_producer_index d.buffer.size in
      record {
        begin = d.buffer.begin + off;
        size = continuous_slots m off (producer_last_available d) d.buffer.size;
      }

  unfoldable pub producer_ranges : Local → ArrayRef × ArrayRef
  unfolding producer_last_available
  producer_ranges d =
      let n = d.buffer.size in
      ranges m d.buffer.begin (alg.offset d.local_producer_index n) (producer_last_available d) n

  unfoldable pub consumer_last_available : Local → ℕ
  consumer_last_available d =
      alg.consumer_free_slots d.local_producer_index d.local_consumer_index d.buffer.size

  unfoldable pub consumer_update_available : Local → Shared → Local × ℕ
  unfolding consumer_last_available
  consumer_update_available d s =
      let d' = record d { local_producer_index = s.producer_index } in
      (d', consumer_last_available d')

  unfoldable pub release : Local → Shared → ℕ → Local × Shared
  release d s count =
      let i = alg.new_index d.local_consumer_index count d.buffer.size in
      (record d { local_consumer_index = i }, record s { consumer_index = i })

  unfoldable pub consumer_continuous_range : Local → ArrayRef
  unfolding consumer_last_available
  consumer_continuous_range d =
      let off = alg.offset d.local_consumer_index d.buffer.size in
      record {
        begin = d.buffer.begin + off;
        size = continuous_slots m off (consumer_last_available d) d.buffer.size;
      }

  unfoldable pub consumer_ranges : Local → ArrayRef × ArrayRef
  unfolding consumer_last_available
  consumer_ranges d =
      let n = d.buffer.size in
      ranges m d.buffer.begin (alg.offset d.local_consumer_index n) (consumer_last_available d) n
