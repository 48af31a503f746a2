-- ===== src/Ring/Alg.antt =====
-- core/lbu/ring_spsc.h: what a `BufferAlg` template argument provides, and what the handles rely
-- on. The laws speak of the two running totals behind the indices: all that the producer ever
-- published, and all that the consumer ever released.
use lbu.Common.{ℕ, ◌+◌, ◌-◌, ◌%◌, ◌≤◌, ◌<◌, ◌≡◌, ◌↔◌, Bool, true, min, arith}
use lbu.Common.Words.{sub_word, sub_word_exact}

-- `continuous_slots`; the modulus stands for `SizeType`.
unfoldable pub continuous_slots : ℕ → ℕ → ℕ → ℕ → ℕ
continuous_slots m offset count n = min count (sub_word m n offset)

pub continuous_slots_lem :
    (m offset count n : ℕ)
    → offset < n
    → n < m
    → continuous_slots m offset count n ≡ min count (n - offset)
unfolding continuous_slots
continuous_slots_lem m offset count n h k = omega (arith, sub_word_exact m n offset)

-- The static members of `algorithm::reserved_slot` and `algorithm::mirrored_index`.
pub record BufferAlg : Type 0 where
  pub producer_has_free_slots : ℕ → ℕ → ℕ → Bool
  pub producer_free_slots : ℕ → ℕ → ℕ → ℕ
  pub consumer_has_free_slots : ℕ → ℕ → ℕ → Bool
  pub consumer_free_slots : ℕ → ℕ → ℕ → ℕ
  pub offset : ℕ → ℕ → ℕ
  pub new_index : ℕ → ℕ → ℕ → ℕ
  pub new_index_increment : ℕ → ℕ → ℕ
  pub max_size : ℕ

-- A buffer of `n` slots (at least `min_size`) holds `capacity n` elements at once, and the index of a running total is
-- its remainder by `period n`.
pub record Shape : Type 0 where
  pub min_size : ℕ
  pub capacity : ℕ → ℕ
  pub period : ℕ → ℕ

pub record Laws (m : ℕ) (alg : BufferAlg) (shape : Shape) : Type 0 where
  pub period_pos : (n : ℕ) → shape.min_size ≤ n → 0 < shape.period n
  pub capacity_bounds :
      (n : ℕ) → shape.min_size ≤ n → (0 < shape.capacity n) × (shape.capacity n ≤ n)
  pub size_bound : (n : ℕ) → shape.min_size ≤ n → n ≤ alg.max_size → n < m
  pub producer_free :
      (n produced consumed : ℕ)
      → shape.min_size ≤ n
      → n ≤ alg.max_size
      → consumed ≤ produced
      → produced ≤ consumed + shape.capacity n
      → alg.producer_free_slots (produced % shape.period n) (consumed % shape.period n) n
        ≡ shape.capacity n - (produced - consumed)
  pub producer_has_free :
      (n produced consumed : ℕ)
      → shape.min_size ≤ n
      → n ≤ alg.max_size
      → consumed ≤ produced
      → produced ≤ consumed + shape.capacity n
      → (alg.producer_has_free_slots (produced % shape.period n) (consumed % shape.period n) n
          ≡ true)
        ↔ (produced < consumed + shape.capacity n)
  pub consumer_free :
      (n produced consumed : ℕ)
      → shape.min_size ≤ n
      → n ≤ alg.max_size
      → consumed ≤ produced
      → produced ≤ consumed + shape.capacity n
      → alg.consumer_free_slots (produced % shape.period n) (consumed % shape.period n) n
        ≡ produced - consumed
  pub consumer_has_free :
      (n produced consumed : ℕ)
      → shape.min_size ≤ n
      → n ≤ alg.max_size
      → consumed ≤ produced
      → produced ≤ consumed + shape.capacity n
      → (alg.consumer_has_free_slots (produced % shape.period n) (consumed % shape.period n) n
          ≡ true)
        ↔ (consumed < produced)
  pub offset_lem :
      (n total : ℕ)
      → shape.min_size ≤ n
      → n ≤ alg.max_size
      → alg.offset (total % shape.period n) n ≡ total % n
  pub advances :
      (n total count : ℕ)
      → shape.min_size ≤ n
      → n ≤ alg.max_size
      → count ≤ shape.capacity n
      → alg.new_index (total % shape.period n) count n ≡ (total + count) % shape.period n
  pub increments :
      (n total : ℕ)
      → shape.min_size ≤ n
      → n ≤ alg.max_size
      → alg.new_index_increment (total % shape.period n) n ≡ (total + 1) % shape.period n

-- A test read as an order between a difference and a bound, as one between the totals.
pub iff-totals :
    {b : Bool} (cap produced consumed : ℕ)
    → consumed ≤ produced
    → (b ≡ true) ↔ (produced - consumed < cap)
    → (b ≡ true) ↔ (produced < consumed + cap)
iff-totals cap produced consumed le (f, g) = (λ e. omega (arith, f e), λ l. g (omega arith))

pub iff-totals_pos :
    {b : Bool} (produced consumed : ℕ)
    → (b ≡ true) ↔ (0 < produced - consumed)
    → (b ≡ true) ↔ (consumed < produced)
iff-totals_pos produced consumed (f, g) = (λ e. omega (arith, f e), λ l. g (omega arith))
