-- ===== src/Ring/Reserved.antt =====
-- core/lbu/ring_spsc.h: `algorithm::reserved_slot`, which leaves one slot of the buffer free.
pub mod Bounds
use lbu.Common.{ℕ, ◌+◌, ◌-◌, Bool, not, ltb, leb, ◌==◌, if◌then◌else◌}
use lbu.Common.Words.{add_word, sub_word}
use lbu.Ring.Alg.{BufferAlg}

-- The modulus `m` stands for `SizeType`: its values are the numbers below `m`.
module _ (m : ℕ) where
  abbrev pub max_size : ℕ
  max_size = m - 1

  unfoldable pub producer_has_free_slots : ℕ → ℕ → ℕ → Bool
  producer_has_free_slots p c n =
      if c == 0 then not (p == sub_word m n 1) else not (p == sub_word m c 1)

  unfoldable pub producer_free_slots : ℕ → ℕ → ℕ → ℕ
  producer_free_slots p c n =
      sub_word m (if leb c p then add_word m (sub_word m n p) c else sub_word m c p) 1

  unfoldable pub consumer_has_free_slots : ℕ → ℕ → ℕ → Bool
  consumer_has_free_slots p c n = not (p == c)

  unfoldable pub consumer_free_slots : ℕ → ℕ → ℕ → ℕ
  consumer_free_slots p c n = if leb c p then sub_word m p c else add_word m (sub_word m n c) p

  unfoldable pub offset : ℕ → ℕ → ℕ
  offset idx n = idx

  unfoldable pub new_index : ℕ → ℕ → ℕ → ℕ
  new_index idx cnt n =
      if ltb cnt (sub_word m n idx) then add_word m idx cnt else sub_word m cnt (sub_word m n idx)

  unfoldable pub new_index_increment : ℕ → ℕ → ℕ
  new_index_increment idx n = let i = add_word m idx 1 in if i == n then 0 else i

  abbrev pub reserved_slot : BufferAlg
  reserved_slot = record {
    producer_has_free_slots = producer_has_free_slots;
    producer_free_slots = producer_free_slots;
    consumer_has_free_slots = consumer_has_free_slots;
    consumer_free_slots = consumer_free_slots;
    offset = offset;
    new_index = new_index;
    new_index_increment = new_index_increment;
    max_size = max_size;
  }
