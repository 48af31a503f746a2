-- ===== src/Ring/Mirrored.antt =====
-- core/lbu/ring_spsc.h: `algorithm::mirrored_index`, whose indices run through twice the buffer.
pub mod Bounds
use lbu.Common.{ℕ, ◌+◌, ◌-◌, ◌*◌, ◌/◌, Bool, not, ltb, leb, ◌==◌, if◌then◌else◌}
use lbu.Common.Words.{add_word, sub_word, mul_word}
use lbu.Ring.Alg.{BufferAlg}

-- The modulus `m` stands for `SizeType`: its values are the numbers below `m`.
module _ (m : ℕ) where
  abbrev pub max_size : ℕ
  max_size = (m - 1) / 2

  unfoldable pub producer_has_free_slots : ℕ → ℕ → ℕ → Bool
  producer_has_free_slots p c n = not ((if ltb c p then sub_word m p c else sub_word m c p) == n)

  unfoldable pub producer_free_slots : ℕ → ℕ → ℕ → ℕ
  producer_free_slots p c n =
      if leb c p then sub_word m n (sub_word m p c) else sub_word m (sub_word m c n) p

  unfoldable pub consumer_has_free_slots : ℕ → ℕ → ℕ → Bool
  consumer_has_free_slots p c n = not (p == c)

  unfoldable pub consumer_free_slots : ℕ → ℕ → ℕ → ℕ
  consumer_free_slots p c n =
      if leb c p then sub_word m p c else add_word m (sub_word m (mul_word m 2 n) c) p

  unfoldable pub offset : ℕ → ℕ → ℕ
  offset idx n = if leb n idx then sub_word m idx n else idx

  unfoldable pub new_index : ℕ → ℕ → ℕ → ℕ
  new_index idx cnt n =
      if ltb cnt (sub_word m (mul_word m 2 n) idx)
      then add_word m idx cnt
      else sub_word m (add_word m (sub_word m idx n) cnt) n

  unfoldable pub new_index_increment : ℕ → ℕ → ℕ
  new_index_increment idx n = let i = add_word m idx 1 in if i == mul_word m 2 n then 0 else i

  abbrev pub mirrored_index : BufferAlg
  mirrored_index = record {
    producer_has_free_slots = producer_has_free_slots;
    producer_free_slots = producer_free_slots;
    consumer_has_free_slots = consumer_has_free_slots;
    consumer_free_slots = consumer_free_slots;
    offset = offset;
    new_index = new_index;
    new_index_increment = new_index_increment;
    max_size = max_size;
  }
