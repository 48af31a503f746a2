-- ===== src/Ring/Mirrored/Bounds.antt =====
-- core/lbu/ring_spsc.h: the mirrored indices and the running totals behind them.
use native.Mathlib.Nat.{dvd-mul_left, mod-mod_of_dvd, mod-eq_of_lt, mod-eq-sub-mod}
use lbu.Common.{ℕ, ◌+◌, ◌-◌, ◌*◌, ◌%◌, ◌≤◌, ◌<◌, ◌≡◌, ◌↔◌, true, arith, ◌∙◌}
use lbu.Common.Words.{mul_word, add_word_exact, sub_word_exact, mul_word_exact}
use lbu.Common.Order.{Ahead, mod-Ahead, totals-Ahead}
use lbu.Ring.Alg.{Laws, Shape, iff-totals, iff-totals_pos}
use lbu.Ring.Mirrored.{
  max_size, producer_has_free_slots, producer_free_slots, consumer_has_free_slots,
  consumer_free_slots, offset, new_index, new_index_increment, mirrored_index,
}

module _ (m n : ℕ) (pos : 1 ≤ n) (fits : n ≤ max_size m) where
  small : 2 * n < m
  small = omega arith

  double : mul_word m 2 n ≡ 2 * n
  double = mul_word_exact m 2 n small

  producer_free_at : (p c k : ℕ) → k ≤ n → Ahead (2 * n) c k p → producer_free_slots m p c n ≡ n - k
  unfolding producer_free_slots
  producer_free_at p c k hk a = ground (
    arith,
    small,
    sub_word_exact m p c,
    sub_word_exact m n (p - c),
    sub_word_exact m c n,
    sub_word_exact m (c - n) p,
  )

  consumer_free_at : (p c k : ℕ) → k ≤ n → Ahead (2 * n) c k p → consumer_free_slots m p c n ≡ k
  unfolding consumer_free_slots
  consumer_free_at p c k hk a = ground (
    arith,
    small,
    double,
    sub_word_exact m p c,
    sub_word_exact m (2 * n) c,
    add_word_exact m (2 * n - c) p,
  )

  producer_has_free_at :
      (p c k : ℕ) → k ≤ n → Ahead (2 * n) c k p → (producer_has_free_slots m p c n ≡ true) ↔ (k < n)
  unfolding producer_has_free_slots
  producer_has_free_at p c k hk a =
      ground (arith, small, sub_word_exact m p c, sub_word_exact m c p)

  consumer_has_free_at :
      (p c k : ℕ) → k ≤ n → Ahead (2 * n) c k p → (consumer_has_free_slots m p c n ≡ true) ↔ (0 < k)
  unfolding consumer_has_free_slots
  consumer_has_free_at p c k hk a = ground (arith, small)

  new_index_at : (i j k : ℕ) → k ≤ n → Ahead (2 * n) i k j → new_index m i k n ≡ j
  unfolding new_index
  new_index_at i j k hk a = ground (
    arith,
    small,
    double,
    sub_word_exact m (2 * n) i,
    add_word_exact m i k,
    sub_word_exact m i n,
    add_word_exact m (i - n) k,
    sub_word_exact m (i - n + k) n,
  )

  new_index_increment_at : (i j : ℕ) → Ahead (2 * n) i 1 j → new_index_increment m i n ≡ j
  unfolding new_index_increment
  new_index_increment_at i j a = ground (arith, small, double, add_word_exact m i 1)

  offset_at : (i : ℕ) → i < 2 * n → offset m i n ≡ i % n
  unfolding offset
  offset_at i hi = ground (
    arith,
    small,
    sub_word_exact m i n,
    mod-eq_of_lt {n = i} {m = n},
    mod-eq-sub-mod {n = i} {m = n},
    mod-eq_of_lt {n = i - n} {m = n},
  )

  offset_of_total : (total : ℕ) → offset m (total % (2 * n)) n ≡ total % n
  offset_of_total total =
      offset_at (total % (2 * n)) (omega arith)
      ∙ mod-mod_of_dvd n {b = 2 * n} total (dvd-mul_left n 2)

abbrev pub mirrored_index_shape : Shape
mirrored_index_shape = record { min_size = 1; capacity = λ n. n; period = λ n. 2 * n }

pub mirrored_index-Laws : (m : ℕ) → Laws m (mirrored_index m) mirrored_index_shape
mirrored_index-Laws m = record {
  period_pos = λ n h. omega arith;
  capacity_bounds = λ n h. omega arith;
  size_bound = λ n h k. omega arith;
  producer_free = λ n b a h k le room.
      producer_free_at m n h k _ _ (b - a) (omega arith)
        (totals-Ahead (2 * n) a b (omega arith) le (omega arith));
  producer_has_free = λ n b a h k le room. iff-totals n b a le (
      producer_has_free_at m n h k _ _ (b - a) (omega arith)
        (totals-Ahead (2 * n) a b (omega arith) le (omega arith)));
  consumer_free = λ n b a h k le room.
      consumer_free_at m n h k _ _ (b - a) (omega arith)
        (totals-Ahead (2 * n) a b (omega arith) le (omega arith));
  consumer_has_free = λ n b a h k le room. iff-totals_pos b a (
      consumer_has_free_at m n h k _ _ (b - a) (omega arith)
        (totals-Ahead (2 * n) a b (omega arith) le (omega arith)));
  offset_lem = λ n t h k. offset_of_total m n h k t;
  advances = λ n t c h k le.
      new_index_at m n h k _ _ c le (mod-Ahead (2 * n) t c (omega arith) (omega arith));
  increments = λ n t h k.
      new_index_increment_at m n h k _ _ (mod-Ahead (2 * n) t 1 (omega arith) (omega arith));
}
