-- ===== src/Ring/Reserved/Bounds.antt =====
-- core/lbu/ring_spsc.h: the indices with one slot kept free and the running totals behind them.
use lbu.Common.{ℕ, ◌+◌, ◌-◌, ◌%◌, ◌≤◌, ◌<◌, ◌≡◌, ◌↔◌, true, arith, refl}
use lbu.Common.Words.{add_word_exact, sub_word_exact}
use lbu.Common.Order.{Ahead, mod-Ahead, totals-Ahead}
use lbu.Ring.Alg.{Laws, Shape, iff-totals, iff-totals_pos}
use lbu.Ring.Reserved.{
  max_size, producer_has_free_slots, producer_free_slots, consumer_has_free_slots,
  consumer_free_slots, offset, new_index, new_index_increment, reserved_slot,
}

module _ (m n : ℕ) (pos : 2 ≤ n) (fits : n ≤ max_size m) where
  producer_free_at :
      (p c k : ℕ) → k ≤ n - 1 → Ahead n c k p → producer_free_slots m p c n ≡ n - 1 - k
  unfolding producer_free_slots
  producer_free_at p c k hk a = ground (
    arith,
    sub_word_exact m n p,
    add_word_exact m (n - p) c,
    sub_word_exact m c p,
    sub_word_exact m (n - p + c) 1,
    sub_word_exact m (c - p) 1,
  )

  consumer_free_at : (p c k : ℕ) → k ≤ n - 1 → Ahead n c k p → consumer_free_slots m p c n ≡ k
  unfolding consumer_free_slots
  consumer_free_at p c k hk a =
      ground (arith, sub_word_exact m p c, sub_word_exact m n c, add_word_exact m (n - c) p)

  producer_has_free_at :
      (p c k : ℕ)
      → k ≤ n - 1
      → Ahead n c k p
      → (producer_has_free_slots m p c n ≡ true) ↔ (k < n - 1)
  unfolding producer_has_free_slots
  producer_has_free_at p c k hk a = ground (arith, sub_word_exact m n 1, sub_word_exact m c 1)

  consumer_has_free_at :
      (p c k : ℕ) → k ≤ n - 1 → Ahead n c k p → (consumer_has_free_slots m p c n ≡ true) ↔ (0 < k)
  unfolding consumer_has_free_slots
  consumer_has_free_at p c k hk a = ground arith

  new_index_at : (i j k : ℕ) → k ≤ n - 1 → Ahead n i k j → new_index m i k n ≡ j
  unfolding new_index
  new_index_at i j k hk a =
      ground (arith, sub_word_exact m n i, add_word_exact m i k, sub_word_exact m k (n - i))

  new_index_increment_at : (i j : ℕ) → Ahead n i 1 j → new_index_increment m i n ≡ j
  unfolding new_index_increment
  new_index_increment_at i j a = ground (arith, add_word_exact m i 1)

offset_of_total : (m n total : ℕ) → offset m (total % n) n ≡ total % n
unfolding offset
offset_of_total m n total = refl

abbrev pub reserved_slot_shape : Shape
reserved_slot_shape = record { min_size = 2; capacity = λ n. n - 1; period = λ n. n }

pub reserved_slot-Laws : (m : ℕ) → Laws m (reserved_slot m) reserved_slot_shape
reserved_slot-Laws m = record {
  period_pos = λ n h. omega arith;
  capacity_bounds = λ n h. omega arith;
  size_bound = λ n h k. omega arith;
  producer_free = λ n b a h k le room.
      producer_free_at m n h k _ _ (b - a) (omega arith)
        (totals-Ahead n a b (omega arith) le (omega arith));
  producer_has_free = λ n b a h k le room. iff-totals (n - 1) b a le (
      producer_has_free_at m n h k _ _ (b - a) (omega arith)
        (totals-Ahead n a b (omega arith) le (omega arith)));
  consumer_free = λ n b a h k le room.
      consumer_free_at m n h k _ _ (b - a) (omega arith)
        (totals-Ahead n a b (omega arith) le (omega arith));
  consumer_has_free = λ n b a h k le room. iff-totals_pos b a (
      consumer_has_free_at m n h k _ _ (b - a) (omega arith)
        (totals-Ahead n a b (omega arith) le (omega arith)));
  offset_lem = λ n t h k. offset_of_total m n t;
  advances =
      λ n t c h k le. new_index_at m n h k _ _ c le (mod-Ahead n t c (omega arith) (omega arith));
  increments =
      λ n t h k. new_index_increment_at m n h k _ _ (mod-Ahead n t 1 (omega arith) (omega arith));
}
