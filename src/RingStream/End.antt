-- ===== src/RingStream/End.antt =====
-- core/ring_spsc_stream.cpp: the end of a stream that is set between the two loads of the reader.
use lbu.Common.{ℕ, ◌+◌, ◌*◌, ◌%◌, ◌≤◌, ◌<◌, ◌≡◌, Bool, true, false, min, arith, refl, ap, ◌∙◌}
use lbu.Common.Words.{sub_word, sub_word_exact}
use lbu.Ring.Alg.{Laws, continuous_slots}
use lbu.Ring.Mirrored.{mirrored_index, max_size, offset, new_index, consumer_free_slots}
use lbu.Ring.Mirrored.Bounds.{mirrored_index-Laws, mirrored_index_shape}
use lbu.RingStream.{m, SharedData, input_update_buffer_size, RingOutputStream, set_end_of_stream}

-- The reader and the writer agree that everything published before has been read, and `count` bytes
-- are written behind, not yet published.
pub record Written (s : RingOutputStream) (shared : SharedData) (total count : ℕ) : Type 0 where
  pub sized : (1 ≤ s.ring_size) × (s.ring_size ≤ max_size m)
  pub last : s.last_index ≡ total % (2 * s.ring_size)
  pub published : shared.producer_index ≡ total % (2 * s.ring_size)
  pub consumed : shared.consumer_index ≡ total % (2 * s.ring_size)
  pub behind : s.buffer_offset ≡ total % s.ring_size + count
  pub inside : s.buffer_offset ≤ s.ring_size
  pub running : (s.has_error ≡ false) × (s.at_end ≡ false)

laws : Laws m (mirrored_index m) mirrored_index_shape
laws = mirrored_index-Laws m

ended_shared :
    (s : RingOutputStream) (shared : SharedData) (total count : ℕ)
    → Written s shared total count
    → ((set_end_of_stream s shared true).2.eos ≡ true)
      × ((set_end_of_stream s shared true).2.producer_index ≡ (total + count) % (2 * s.ring_size))
unfolding set_end_of_stream
ended_shared s shared total count w =
    let n = s.ring_size in
    let o : offset m s.last_index n ≡ total % n =
      ap (λ i. offset m i n) w.last ∙ laws.offset_lem n total (w.sized.0) (w.sized.1) in
    let c : sub_word m s.buffer_offset (offset m s.last_index n) ≡ count =
      sub_word_exact m s.buffer_offset (offset m s.last_index n) (omega (arith, o, w.behind))
        (omega (arith, w.inside, w.sized))
      ∙ omega (arith, o, w.behind) in
    let p : new_index m s.last_index (sub_word m s.buffer_offset (offset m s.last_index n)) n
        ≡ (total + count) % (2 * n) =
      ap (λ k. new_index m s.last_index k n) c
      ∙ ap (λ i. new_index m i count n) w.last
      ∙ laws.advances n total count (w.sized.0) (w.sized.1) (omega (arith, w.behind, w.inside)) in
    rw (w.running.0, w.running.1) (refl, p)

nothing_there :
    (s : RingOutputStream) (shared : SharedData) (total count limit : ℕ) (eos : Bool)
    → Written s shared total count
    → eos ≡ true
    → input_update_buffer_size shared.producer_index eos shared.consumer_index limit s.ring_size
      ≡ record { buffer_available = 0; ended = true; result = true }
unfolding input_update_buffer_size continuous_slots
nothing_there s shared total count limit eos w e =
    let n = s.ring_size in
    let f : consumer_free_slots m shared.producer_index shared.consumer_index n ≡ 0 =
      ap (λ p. consumer_free_slots m p shared.consumer_index n) w.published
      ∙ ap (λ c. consumer_free_slots m (total % (2 * n)) c n) w.consumed
      ∙ laws.consumer_free n total total (w.sized.0) (w.sized.1) (omega arith) (omega arith)
      ∙ omega arith in
    let z : min limit (min 0 (sub_word m n (offset m shared.consumer_index n))) ≡ 0 = omega arith in
    rw (f, z, e) refl

-- The reader loads the index, the writer publishes `count` bytes and sets the end, and the reader
-- loads the end: where everything published before has been read, the reader takes the stream for
-- ended, although `count` bytes, at least one, are there for it to read.
pub update_buffer_size_ended-unread :
    (s : RingOutputStream) (shared : SharedData) (total count limit : ℕ)
    → Written s shared total count
    → 0 < count
    → (input_update_buffer_size shared.producer_index
          (set_end_of_stream s shared true).2.eos
          shared.consumer_index
          limit
          s.ring_size
        ≡ record { buffer_available = 0; ended = true; result = true })
      × (consumer_free_slots m
            (set_end_of_stream s shared true).2.producer_index
            shared.consumer_index
            s.ring_size
          ≡ count)
update_buffer_size_ended-unread s shared total count limit w pos =
    let n = s.ring_size in
    let (e, p) = ended_shared s shared total count w in
    let q : consumer_free_slots m (set_end_of_stream s shared true).2.producer_index
          shared.consumer_index n
        ≡ count =
      ap (λ i. consumer_free_slots m i shared.consumer_index n) p
      ∙ ap (λ c. consumer_free_slots m ((total + count) % (2 * n)) c n) w.consumed
      ∙ laws.consumer_free n (total + count) total (w.sized.0) (w.sized.1) (omega arith)
          (omega (arith, w.behind, w.inside))
      ∙ omega arith in
    (nothing_there s shared total count limit (set_end_of_stream s shared true).2.eos w e, q)
