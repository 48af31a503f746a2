-- ===== src/RingStream/Arrives.antt =====
-- core/ring_spsc_stream.cpp: what `input_stream::next_buffer` offers.
use lbu.Common.{
  if_false, ltb, sym, subst, ℕ, ◌+◌, ◌-◌, ◌*◌, ◌%◌, ◌≤◌, ◌≡◌, none, some, Bool, true, false, min,
  arith, refl, ap, ◌∙◌, if◌then◌else◌,
}
use lbu.Common.Words.{sub_word_exact}
use lbu.FdStream.{Mode}
use lbu.Ring.Alg.{continuous_slots, continuous_slots_lem}
use lbu.Ring.Mirrored.{max_size, offset, new_index, consumer_free_slots}
use lbu.RingStream.{m, Update, Seen, note, done, input_update_buffer_size}
use lbu.RingStream.Input.{
  RingInputStream, release, unreleased, update, look, Offer, current_buffer, fail, next_buffer,
}
use lbu.RingStream.Takes.{Cases, sleep-cases, release_and_look-cases}
use lbu.RingStream.Room.{laws, running_tests, SeenBetween}

-- `total` bytes are released and `got` more are read; the writer has published `produced` at least.
-- What is available lies in one piece inside the buffer, and has been published.
pub record Ready (s : RingInputStream) (total got produced : ℕ) : Type 0 where
  pub sized : (1 ≤ s.ring_size) × (s.ring_size ≤ max_size m)
  pub last : s.last_index ≡ total % (2 * s.ring_size)
  pub behind : s.buffer_offset ≡ total % s.ring_size + got
  pub inside : s.buffer_offset + s.buffer_available ≤ s.ring_size
  pub published : total + got + s.buffer_available ≤ produced

module _ (s : RingInputStream) (total got produced : ℕ) (r : Ready s total got produced) where
  offset_last : offset m s.last_index s.ring_size ≡ total % s.ring_size
  offset_last =
      ap (λ i. offset m i s.ring_size) r.last
      ∙ laws.offset_lem s.ring_size total (r.sized.0) (r.sized.1)

  pub unreleased_lem : unreleased s ≡ got
  unfolding unreleased
  unreleased_lem =
      sub_word_exact m s.buffer_offset (offset m s.last_index s.ring_size)
        (omega (arith, offset_last, r.behind)) (omega (arith, r.inside, r.sized))
      ∙ omega (arith, offset_last, r.behind)

  release_last : (release s).last_index ≡ (total + got) % (2 * s.ring_size)
  unfolding release
  release_last =
      ap (λ k. new_index m s.last_index k s.ring_size) unreleased_lem
      ∙ ap (λ i. new_index m i got s.ring_size) r.last
      ∙ laws.advances s.ring_size total got (r.sized.0) (r.sized.1)
          (omega (arith, r.behind, r.inside))

  release_offset : (release s).buffer_offset ≡ (total + got) % s.ring_size
  unfolding release
  release_offset =
      ap (λ i. offset m i s.ring_size) release_last
      ∙ laws.offset_lem s.ring_size (total + got) (r.sized.0) (r.sized.1)

  module _ (p : ℕ) (above : produced ≤ p) (fits : p ≤ total + got + s.ring_size) (i : ℕ)
      (found : i ≡ p % (2 * s.ring_size)) (eos : Bool) where
    free_lem : consumer_free_slots m i (release s).last_index s.ring_size ≡ p - (total + got)
    free_lem =
        ap (λ c. consumer_free_slots m i c s.ring_size) release_last
        ∙ ap (λ j. consumer_free_slots m j ((total + got) % (2 * s.ring_size)) s.ring_size) found
        ∙ laws.consumer_free s.ring_size p (total + got) (r.sized.0) (r.sized.1)
            (omega (arith, r.published)) fits

    available_lem :
        (b : Bool) (a : ℕ)
        → (let u : Update =
              if b
              then record { buffer_available = a; ended = true; result = true }
              else record { buffer_available = a; ended = false; result = ltb 0 a } in
            u.buffer_available)
          ≡ a
    available_lem true a = refl
    available_lem false a = refl

    looked_lem :
        (look (release s) i eos).buffer_available
        ≡ min s.segment_limit (min (p - (total + got)) (s.ring_size - (total + got) % s.ring_size))
    unfolding look update release input_update_buffer_size
    looked_lem =
        available_lem _ _
        ∙ ap
            (λ f.
              min s.segment_limit
                (continuous_slots m (offset m (release s).last_index s.ring_size) f s.ring_size))
            free_lem
        ∙ ap (λ o. min s.segment_limit (continuous_slots m o (p - (total + got)) s.ring_size))
            release_offset
        ∙ ap (min s.segment_limit) (
            continuous_slots_lem m ((total + got) % s.ring_size) (p - (total + got)) s.ring_size
              (omega (arith, r.sized.0)) (omega (arith, r.sized.1)))

    look-Ready : Ready (look (release s) i eos) (total + got) 0 p
    unfolding look release
    look-Ready = record {
      sized = r.sized;
      last = release_last;
      behind = omega (arith, release_offset);
      inside = omega (arith, looked_lem, release_offset, r.sized.0);
      published = omega (arith, looked_lem, r.published, above);
    }

  fail-Ready :
      s.buffer_available ≡ 0
      → Ready (record (release s) { has_error = true; at_end = false }) (total + got) 0 produced
  unfolding release
  fail-Ready used = record {
    sized = r.sized;
    last = release_last;
    behind = omega (arith, release_offset);
    inside = omega (arith, release_offset, r.sized.0);
    published = omega (arith, r.published);
  }

-- What is offered is all that is available then, and has been published.
unfoldable pub Brought : ℕ → ℕ → ℕ → ℕ → Offer → Type 0
Brought n total produced high (accesses, none) = Unit
Brought n total produced high (accesses, some (size, t)) =
    (size ≡ t.buffer_available)
    × (t.ring_size ≡ n)
    × ((p : ℕ) × (produced ≤ p) × (p ≤ high) × Ready t total 0 p)

Brought-Cases :
    (s : RingInputStream) (total got produced high : ℕ) (seen : Seen)
    → Ready s total got produced
    → s.buffer_available ≡ 0
    → high ≤ total + got + s.ring_size
    → SeenBetween s.ring_size produced high seen
    → Cases (Brought s.ring_size (total + got) produced high) (release s) seen
unfolding Brought SeenBetween note done current_buffer fail look release
Brought-Cases s total got produced high seen r used fits between = record {
  noted = λ a x q h. h;
  looked = λ k.
      let (p, above, below, e) = between k in
      (
        refl,
        refl,
        (
          p,
          above,
          below,
          look-Ready s total got produced r p above (omega arith) (seen.index k) e (seen.eos k),
        ),
      );
  failed =
      let (p, above, below, e) = between 0 in
      (
        sym used,
        refl,
        (produced, omega arith, omega arith, fail-Ready s total got produced r used),
      );
}

-- For a stream that runs and has used up what was available, `got` bytes behind `total` released ones,
-- in either mode: where every index that `next_buffer` finds is that of a total that the writer has
-- published, from `produced` up to `high`, which fits the buffer, what it offers, if it returns, lies in one
-- piece inside the buffer and has been published; the bytes read are released.
pub next_buffer-Brought :
    (mode : Mode) (s : RingInputStream) (total got produced high : ℕ) (seen : Seen)
    → Ready s total got produced
    → s.buffer_available ≡ 0
    → high ≤ total + got + s.ring_size
    → SeenBetween s.ring_size produced high seen
    → s.has_error ≡ false
    → s.at_end ≡ false
    → Brought s.ring_size (total + got) produced high (next_buffer mode s seen)
unfolding next_buffer Brought
next_buffer-Brought mode s total got produced high seen r used fits between running unended =
    let c = Brought-Cases s total got produced high seen r used fits between in
    subst (Brought s.ring_size (total + got) produced high)
      (sym (if_false (running_tests running unended) _ _))
      (release_and_look-cases (Brought s.ring_size (total + got) produced high) mode s seen c
        (sleep-cases (Brought s.ring_size (total + got) produced high) (release s) seen c tt mode))
