-- ===== src/RingStream/Room.antt =====
-- core/ring_spsc_stream.cpp: the room that `output_stream::next_buffer` offers.
use lbu.Common.{
  if_false, ◌||◌, take, ℕ, ◌+◌, ◌-◌, ◌*◌, ◌%◌, ◌≤◌, ◌≡◌, ◌⊎◌, inl, inr, List, Option, none, some,
  Bool, true, false, min, [], ◌∷◌, arith, refl, ap, ◌∙◌,
}
use lbu.Common.Words.{sub_word_exact}
use lbu.FdStream.{Mode}
use lbu.Ring.Alg.{Laws, continuous_slots, continuous_slots_lem}
use lbu.Ring.Mirrored.{mirrored_index, max_size, offset, new_index, producer_free_slots}
use lbu.Ring.Mirrored.Bounds.{mirrored_index-Laws, mirrored_index_shape}
use lbu.RingStream.{
  m, RingOutputStream, Access, store_index, exchange_wake, load_index, load_eos, access_event,
  store_wake, poll_event, copy_bytes, Seen, note, done, output_update_buffer_size,
}
use lbu.RingStream.Output.{
  publish, unpublished, look, Offer, current_buffer, fail, publish_and_look, next_buffer,
}
use lbu.RingStream.Offers.{Cases, sleep-cases, publish_and_look-cases}

-- `total` bytes are published and `written` more are in the buffer; the reader has released
-- `consumed` at least. What is available lies in one piece inside the buffer, and holds no byte that
-- has not been released.
pub record Room (s : RingOutputStream) (total written consumed : ℕ) : Type 0 where
  pub sized : (1 ≤ s.ring_size) × (s.ring_size ≤ max_size m)
  pub last : s.last_index ≡ total % (2 * s.ring_size)
  pub behind : s.buffer_offset ≡ total % s.ring_size + written
  pub inside : s.buffer_offset + s.buffer_available ≤ s.ring_size
  pub released : consumed ≤ total
  pub room : total + written + s.buffer_available ≤ consumed + s.ring_size

pub laws : Laws m (mirrored_index m) mirrored_index_shape
laws = mirrored_index-Laws m

-- The index that a look finds is that of a total between what was released and what is published.
unfoldable pub SeenBetween : ℕ → ℕ → ℕ → Seen → Type 0
SeenBetween n low high seen =
    (k : ℕ) → (c : ℕ) × (low ≤ c) × (c ≤ high) × (seen.index k ≡ c % (2 * n))

module _ (s : RingOutputStream) (total written consumed : ℕ)
    (r : Room s total written consumed) where
  offset_last : offset m s.last_index s.ring_size ≡ total % s.ring_size
  offset_last =
      ap (λ i. offset m i s.ring_size) r.last
      ∙ laws.offset_lem s.ring_size total (r.sized.0) (r.sized.1)

  pub unpublished_lem : unpublished s ≡ written
  unfolding unpublished
  unpublished_lem =
      sub_word_exact m s.buffer_offset (offset m s.last_index s.ring_size)
        (omega (arith, offset_last, r.behind)) (omega (arith, r.inside, r.sized))
      ∙ omega (arith, offset_last, r.behind)

  pub publish_last : (publish s).last_index ≡ (total + written) % (2 * s.ring_size)
  unfolding publish
  publish_last =
      ap (λ k. new_index m s.last_index k s.ring_size) unpublished_lem
      ∙ ap (λ i. new_index m i written s.ring_size) r.last
      ∙ laws.advances s.ring_size total written (r.sized.0) (r.sized.1)
          (omega (arith, r.behind, r.inside))

  pub publish_offset : (publish s).buffer_offset ≡ (total + written) % s.ring_size
  unfolding publish
  publish_offset =
      ap (λ i. offset m i s.ring_size) publish_last
      ∙ laws.offset_lem s.ring_size (total + written) (r.sized.0) (r.sized.1)

  module _ (c : ℕ) (above : consumed ≤ c) (below : c ≤ total + written) (i : ℕ)
      (found : i ≡ c % (2 * s.ring_size)) where
    free_lem :
        producer_free_slots m (publish s).last_index i s.ring_size
        ≡ s.ring_size - (total + written - c)
    free_lem =
        ap (λ p. producer_free_slots m p i s.ring_size) publish_last
        ∙ ap (λ j. producer_free_slots m ((total + written) % (2 * s.ring_size)) j s.ring_size)
            found
        ∙ laws.producer_free s.ring_size (total + written) c (r.sized.0) (r.sized.1) below
            (omega (arith, r.room))

    looked_lem :
        (look (publish s) i).buffer_available
        ≡ min s.segment_limit (
            min
              (s.ring_size - (total + written - c))
              (s.ring_size - (total + written) % s.ring_size))
    unfolding look publish output_update_buffer_size
    looked_lem =
        ap
          (λ f.
            min s.segment_limit
              (continuous_slots m (offset m (publish s).last_index s.ring_size) f s.ring_size))
          free_lem
        ∙ ap
            (λ o.
              min s.segment_limit
                (continuous_slots m o (s.ring_size - (total + written - c)) s.ring_size))
            publish_offset
        ∙ ap (min s.segment_limit) (
            continuous_slots_lem m ((total + written) % s.ring_size)
              (s.ring_size - (total + written - c)) s.ring_size (omega (arith, r.sized.0))
              (omega (arith, r.sized.1)))

    look-Room : Room (look (publish s) i) (total + written) 0 c
    unfolding look publish
    look-Room = record {
      sized = r.sized;
      last = publish_last;
      behind = omega (arith, publish_offset);
      inside = omega (arith, looked_lem, publish_offset, r.sized.0);
      released = below;
      room = omega (arith, looked_lem, r.room, r.sized.0);
    }

  fail-Room :
      Room
        (record (publish s) { has_error = true; at_end = false; buffer_available = 0 })
        (total + written)
        0
        consumed
  unfolding publish
  fail-Room = record {
    sized = r.sized;
    last = publish_last;
    behind = omega (arith, publish_offset);
    inside = omega (arith, publish_offset, r.sized.0);
    released = omega (arith, r.released);
    room = omega (arith, r.room);
  }

pub running_tests : {a b : Bool} → a ≡ false → b ≡ false → (a || b) ≡ false
running_tests e f = rw (e, f) refl

-- Look `k` finds the index of `released k`, what the reader has released by then.
abbrev pub SeenReleased : ℕ → ℕ → ℕ → (ℕ → ℕ) → Seen → Type 0
SeenReleased n low high released seen =
    (k : ℕ) → (low ≤ released k) × (released k ≤ high) × (seen.index k ≡ released k % (2 * n))

unfoldable pub loaded : Access → Option ℕ
loaded (load_index i) = some i
loaded (store_index i) = none
loaded (exchange_wake b) = none
loaded (load_eos b) = none
loaded (access_event r) = none
loaded store_wake = none
loaded poll_event = none
loaded (copy_bytes o bytes) = none

-- The index of the reader that was loaded last.
unfoldable pub last_load : List Access → Option ℕ
unfolding loaded
last_load [] = none
last_load (a ∷ rest) = elim (last_load rest) [ none ↦ loaded a | some i ↦ some i ]

-- What is offered is all that is available then. Either a call on the event descriptor failed and
-- it is nothing, or it is as much as the limit allows of the room in one piece that the reader had
-- released at the last look.
abbrev pub Offered : RingOutputStream → ℕ → ℕ → (ℕ → ℕ) → Seen → Offer → Type 0
Offered s total consumed released seen (accesses, none) = Unit
Offered s total consumed released seen (accesses, some (size, t)) =
    (size ≡ t.buffer_available)
    × (((t.has_error ≡ true) × (size ≡ 0) × Room t total 0 consumed)
        ⊎ ((k : ℕ) × (last_load accesses ≡ some (seen.index k))
            × Room t total 0 (released k)
            × (size
                ≡ min s.segment_limit (
                    min (s.ring_size - (total - released k)) (s.ring_size - total % s.ring_size)))))

noted-Offered :
    (s : RingOutputStream) (total consumed : ℕ) (released : ℕ → ℕ) (seen : Seen) (a : Access)
    (x : Offer)
    → Offered s total consumed released seen x
    → Offered s total consumed released seen (note a x)
unfolding note last_load
noted-Offered s total consumed released seen a (accesses, none) h = tt
noted-Offered s total consumed released seen a (accesses, some (size, t)) (e, inl failed) =
    (e, inl failed)
noted-Offered s total consumed released seen a (accesses, some (size, t)) (e, inr (k, l, r, o)) =
    (e, inr (k, rw l refl, r, o))

Room-Cases :
    (s : RingOutputStream) (total written consumed : ℕ) (released : ℕ → ℕ) (seen : Seen)
    → Room s total written consumed
    → SeenReleased s.ring_size consumed (total + written) released seen
    → Cases (Offered s (total + written) consumed released seen) (publish s) seen
unfolding note done current_buffer fail last_load loaded
Room-Cases s total written consumed released seen r between = record {
  noted = λ a x q h. noted-Offered s (total + written) consumed released seen a x h;
  looked = λ k.
      let (above, below, e) = between k in
      (
        refl,
        inr (
          k,
          refl,
          look-Room s total written consumed r (released k) above below (seen.index k) e,
          looked_lem s total written consumed r (released k) above below (seen.index k) e,
        ),
      );
  failed = (refl, inl (refl, refl, fail-Room s total written consumed r));
}

publish_first :
    (mode : Mode) (s : RingOutputStream) (total written consumed : ℕ) (seen : Seen)
    → Room s total written consumed
    → take 1 (publish_and_look mode s seen).0
      ≡ store_index ((total + written) % (2 * s.ring_size)) ∷ []
unfolding publish_and_look note
publish_first mode s total written consumed seen r =
    ap (λ i. store_index i ∷ []) (publish_last s total written consumed r)

pub next_buffer-runs :
    (mode : Mode) (s : RingOutputStream) (seen : Seen)
    → s.has_error ≡ false
    → s.at_end ≡ false
    → next_buffer mode s seen ≡ publish_and_look mode s seen
unfolding next_buffer
next_buffer-runs mode s seen running unended = if_false (running_tests running unended) _ _

-- For a stream that runs, with `written` bytes in the buffer behind `total` published ones, in either
-- mode: `next_buffer` stores the index of all that is written before anything else. Where each look
-- at the reader's index finds that of what the reader has released by then, between `consumed` and
-- all that is written, and `next_buffer` returns: either it has failed and offers nothing, or it
-- offers as much as the segment limit allows of the room that lies in one piece behind what is
-- written and that the reader had released at the last look.
pub next_buffer-Offered :
    (mode : Mode) (s : RingOutputStream) (total written consumed : ℕ) (released : ℕ → ℕ)
    (seen : Seen)
    → Room s total written consumed
    → SeenReleased s.ring_size consumed (total + written) released seen
    → s.has_error ≡ false
    → s.at_end ≡ false
    → Offered s (total + written) consumed released seen (next_buffer mode s seen)
      × (take 1 (next_buffer mode s seen).0
          ≡ store_index ((total + written) % (2 * s.ring_size)) ∷ [])
next_buffer-Offered mode s total written consumed released seen r between running unended =
    let c = Room-Cases s total written consumed released seen r between in
    let P : Offer → Type 0 = Offered s (total + written) consumed released seen in
    rw (next_buffer-runs mode s seen running unended) (
      publish_and_look-cases P mode s seen c (sleep-cases P (publish s) seen c tt mode),
      publish_first mode s total written consumed seen r,
    )
