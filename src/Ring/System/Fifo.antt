-- ===== src/Ring/System/Fifo.antt =====
-- core/lbu/ring_spsc.h: what the interleaving of a producer and a consumer promises its clients.
use lbu.Common.{ℕ, ◌+◌, ◌-◌, ◌≤◌, ◌<◌, ◌≡◌, ◌≢◌, length, arith, ◌%◌, ap, ◌∙◌, sym}
use lbu.Common.Family.{prefix, length-prefix}
use lbu.ArrayRef.{ArrayRef}
use lbu.Ring.Alg.{BufferAlg, Shape, Laws}
use lbu.Ring.Handle.{
  producer_last_available, producer_update_available, producer_ranges, consumer_last_available,
  consumer_update_available,
}
use lbu.Ring.System.{System, slot, Reach}
use lbu.Ring.System.Window.{slots_differ}
use lbu.Ring.System.Invariant.{
  Inv, Reach-Inv, producer-room, consumer-room, look_released-Inv, look_produced-Inv, write_address,
  size_pos, cap_le,
}

module _ {m : ℕ} {alg : BufferAlg} {shape : Shape} (laws : Laws m alg shape) {A : Type 0}
    (input : ℕ → A) (buf : ArrayRef) (least : shape.min_size ≤ buf.size)
    (most : buf.size ≤ alg.max_size) {memory : ℕ → A} {s : System A}
    (reached : Reach m alg input buf memory s) where
  inv : Inv shape input buf s
  inv = Reach-Inv laws input buf least most reached

  -- In every reachable state the consumer has read a prefix of what the producer published, in
  -- order and without loss, and at most the capacity lies between the two.
  pub reads_in_order :
      (s.output ≡ prefix input (length s.output))
      × (length s.output ≤ s.produced)
      × (s.produced ≤ s.released + shape.capacity buf.size)
  reads_in_order =
      let e : length s.output ≡ s.released + s.taken =
        ap length inv.in_order ∙ length-prefix input (s.released + s.taken) in
      (inv.in_order ∙ ap (prefix input) (sym e), omega (arith, inv, e), omega (arith, inv))

  -- In every reachable state the slot that the producer may write next is not the slot of any
  -- element that the consumer has not released yet.
  pub write-ne-unread :
      (i : ℕ)
      → s.filled < producer_last_available m alg s.producer
      → s.released ≤ i
      → i < s.produced + s.filled
      → slot (producer_ranges m alg s.producer) s.filled ≢ buf.begin + i % buf.size
  write-ne-unread i h lo hi e =
      slots_differ buf.size i (s.produced + s.filled) (size_pos laws input buf least most) hi
        (omega (
          arith,
          inv,
          h,
          producer-room laws input buf least most inv,
          cap_le laws input buf least most,
        ))
        (omega (arith, e, write_address laws input buf least most inv h))

  -- In every reachable state `last_available` of either handle counts no slot that the other side
  -- still has, and after `update_available` it counts them all.
  pub available_exact :
      (producer_last_available m alg s.producer
        ≤ shape.capacity buf.size - (s.produced - s.released))
      × (consumer_last_available m alg s.consumer ≤ s.produced - s.released)
      × ((producer_update_available m alg s.producer s.shared).1
          ≡ shape.capacity buf.size - (s.produced - s.released))
      × ((consumer_update_available m alg s.consumer s.shared).1 ≡ s.produced - s.released)
  unfolding producer_update_available consumer_update_available
  available_exact = (
    omega (arith, inv, producer-room laws input buf least most inv),
    omega (arith, inv, consumer-room laws input buf least most inv),
    producer-room laws input buf least most (look_released-Inv laws input buf least most inv),
    consumer-room laws input buf least most (look_produced-Inv laws input buf least most inv),
  )
