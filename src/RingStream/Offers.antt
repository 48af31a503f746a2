-- ===== src/RingStream/Offers.antt =====
-- core/ring_spsc_stream.cpp: what holds of every way through `output_stream::next_buffer`.
use lbu.Common.{either, ℕ, Option, none, some, Bool, true, false, List, [], ◌∷◌, ◌++◌, ◌≡◌, refl}
use lbu.FdStream.{Mode}
use lbu.Poll.{flags_write_ready}
use lbu.RingStream.{
  RingOutputStream, Access, store_index, exchange_wake, load_index, load_eos, access_event,
  store_wake, poll_event, copy_bytes, Seen, wait, Run, note, waited,
}
use lbu.RingStream.Output.{
  publish, look, Offer, current_buffer, fail, look_or, write_or_fail, sleep, publish_and_look,
}

-- The bytes that an access copies.
unfoldable pub bytes_of : Access → List ℕ
bytes_of (copy_bytes o bytes) = bytes
bytes_of (store_index i) = []
bytes_of (exchange_wake b) = []
bytes_of (load_index i) = []
bytes_of (load_eos b) = []
bytes_of (access_event r) = []
bytes_of store_wake = []
bytes_of poll_event = []

unfoldable pub copied : List Access → List ℕ
unfolding bytes_of
copied [] = []
copied (a ∷ rest) = bytes_of a ++ copied rest

pub waited_cases :
    {A : Type 0} (P : Run A → Type 0) (w : Option Bool) (x y : Run A)
    → P (poll_event ∷ [], none)
    → P (note poll_event x)
    → P (note poll_event y)
    → P (waited w x y)
unfolding waited
waited_cases P none x y o p q = o
waited_cases P (some false) x y o p q = p
waited_cases P (some true) x y o p q = q

-- What is to be shown of the accesses and of the two ways to return.
pub record Cases (P : Offer → Type 0) (p : RingOutputStream) (seen : Seen) : Type 0 where
  pub noted : (a : Access) (x : Offer) → bytes_of a ≡ [] → P x → P (note a x)
  pub looked :
      (k : ℕ) → P (note (load_index (seen.index k)) (current_buffer (look p (seen.index k))))
  pub failed : P (fail p)

module _ (P : Offer → Type 0) (p : RingOutputStream) (seen : Seen) (c : Cases P p seen) where
  at_look : (k : ℕ) (rest : Offer) → P rest → P (look_or p (seen.index k) rest)
  unfolding look_or bytes_of
  at_look k rest h =
      either (λ r. P (note (load_index (seen.index k)) r)) _ _ _ (c.looked k)
        (c.noted (load_index (seen.index k)) _ refl h)

  at_write : (r : ℕ) (rest : Offer) → P rest → P (write_or_fail p r rest)
  unfolding write_or_fail bytes_of
  at_write r rest h = c.noted (access_event r) _ refl (either P _ _ _ h c.failed)

  at_wait :
      P (poll_event ∷ [], none)
      → (w : Option Bool) (rest : Offer) → P rest
      → P (waited w (fail p) rest)
  unfolding bytes_of
  at_wait waiting w rest h =
      waited_cases P w (fail p) rest waiting (c.noted poll_event _ refl c.failed)
        (c.noted poll_event _ refl h)

  pub sleep-cases : P (poll_event ∷ [], none) → (mode : Mode) → P (sleep mode p seen)
  unfolding sleep bytes_of
  sleep-cases waiting mode = c.noted store_wake _ refl (
      either (λ r. P (note (load_index (seen.index 2)) r)) _ _ _ (c.looked 2)
        (c.noted (load_index (seen.index 2)) _ refl (
          at_wait waiting (wait flags_write_ready (seen.answers 0)) _ (
            at_look 3 _ (
              at_write (seen.event 2) _ (
                at_look 4 _
                  (at_wait waiting (wait flags_write_ready (seen.answers 1)) _ (c.looked 5))))))))

pub publish_and_look-cases :
    (P : Offer → Type 0) (mode : Mode) (s : RingOutputStream) (seen : Seen)
    → Cases P (publish s) seen
    → P (sleep mode (publish s) seen)
    → P (publish_and_look mode s seen)
unfolding publish_and_look bytes_of
publish_and_look-cases P mode s seen c asleep =
    let p = publish s in
    let quiet =
      at_look P p seen c 0 _
        (at_write P p seen c (seen.event 1) _ (at_look P p seen c 1 _ asleep)) in
    let awake = at_write P p seen c (seen.event 0) _ (at_look P p seen c 0 _ asleep) in
    c.noted (store_index p.last_index) _ refl
      (either P _ _ _ (c.noted (exchange_wake seen.wake) _ refl (either P _ _ _ awake quiet)) quiet)
