-- ===== src/RingStream/Takes.antt =====
-- core/ring_spsc_stream.cpp: what holds of every way through `input_stream::next_buffer`.
use lbu.Common.{either, Option, none, Bool, [], ◌∷◌, ◌≡◌, refl, ℕ}
use lbu.FdStream.{Mode}
use lbu.Poll.{flags_read_ready}
use lbu.RingStream.{
  Access, store_index, exchange_wake, load_index, load_eos, access_event, store_wake, poll_event,
  Seen, wait, note, waited,
}
use lbu.RingStream.Input.{
  RingInputStream, release, look, Offer, current_buffer, fail, note_loads, look_or, read_or_fail,
  sleep, release_and_look,
}
use lbu.RingStream.Offers.{bytes_of, waited_cases}

-- What is to be shown of the accesses and of the two ways to return.
pub record Cases (P : Offer → Type 0) (p : RingInputStream) (seen : Seen) : Type 0 where
  pub noted : (a : Access) (x : Offer) → bytes_of a ≡ [] → P x → P (note a x)
  pub looked : (k : ℕ) → P (current_buffer (look p (seen.index k) (seen.eos k)))
  pub failed : P (fail p)

module _ (P : Offer → Type 0) (p : RingInputStream) (seen : Seen) (c : Cases P p seen) where
  at_loads : (k : ℕ) (rest : Offer) → P rest → P (note_loads p (seen.index k) (seen.eos k) rest)
  unfolding note_loads bytes_of
  at_loads k rest h =
      c.noted (load_index (seen.index k)) _ refl
        (either P _ _ _ (c.noted (load_eos (seen.eos k)) _ refl h) h)

  at_look : (k : ℕ) (rest : Offer) → P rest → P (look_or p (seen.index k) (seen.eos k) rest)
  unfolding look_or
  at_look k rest h = at_loads k _ (either P _ _ _ (c.looked k) h)

  at_read : (r : ℕ) (rest : Offer) → P rest → P (read_or_fail p r rest)
  unfolding read_or_fail bytes_of
  at_read r rest h = c.noted (access_event r) _ refl (either P _ _ _ h c.failed)

  at_wait :
      P (poll_event ∷ [], none)
      → (w : Option Bool) (rest : Offer) → P rest
      → P (waited w (fail p) rest)
  unfolding bytes_of
  at_wait waiting w rest h =
      waited_cases P w (fail p) rest waiting (c.noted poll_event _ refl c.failed)
        (c.noted poll_event _ refl h)

  pub sleep-cases : P (poll_event ∷ [], none) → (mode : Mode) → P (sleep mode p seen)
  unfolding sleep bytes_of
  sleep-cases waiting mode = c.noted store_wake _ refl (
      at_loads 2 _ (
        either P _ _ _ (c.looked 2) (
          at_wait waiting (wait flags_read_ready (seen.answers 0)) _ (
            at_look 3 _ (
              at_read (seen.event 2) _ (
                at_look 4 _ (
                  at_wait waiting (wait flags_read_ready (seen.answers 1)) _
                    (at_loads 5 _ (c.looked 5)))))))))

pub release_and_look-cases :
    (P : Offer → Type 0) (mode : Mode) (s : RingInputStream) (seen : Seen)
    → Cases P (release s) seen
    → P (sleep mode (release s) seen)
    → P (release_and_look mode s seen)
unfolding release_and_look bytes_of
release_and_look-cases P mode s seen c asleep =
    let p = release s in
    let quiet =
      at_look P p seen c 0 _
        (at_read P p seen c (seen.event 1) _ (at_look P p seen c 1 _ asleep)) in
    let awake = at_read P p seen c (seen.event 0) _ (at_look P p seen c 0 _ asleep) in
    c.noted (store_index p.last_index) _ refl
      (either P _ _ _ (c.noted (exchange_wake seen.wake) _ refl (either P _ _ _ awake quiet)) quiet)
