-- ===== src/RingStream/Sleeps.antt =====
-- core/ring_spsc_stream.cpp: when `output_stream::next_buffer` waits.
use lbu.Common.{
  either, either_when, ℕ, ◌≡◌, Option, Bool, true, false, not, ltb, ◌||◌, ◌&&◌, List, [], ◌∷◌, refl,
  ap, ◌∙◌,
}
use lbu.FdStream.{Mode}
use lbu.Poll.{flags_write_ready}
use lbu.RingStream.{
  RingOutputStream, Access, store_index, exchange_wake, load_index, load_eos, access_event,
  store_wake, poll_event, copy_bytes, Seen, note, done, waited, is_non_blocking, wait,
  producer_write,
}
use lbu.RingStream.Output
use lbu.RingStream.Output.{
  publish, fail, sleep, publish_and_look, next_buffer, look_or, write_or_fail, current_buffer,
}
use lbu.RingStream.Offers.{waited_cases}

-- Each access to poll comes behind the store of the flag, and behind a look that is later than both
-- that and the last poll and has found nothing. `found` tells what a look finds of an index.
unfoldable pub asks_first : (ℕ → Bool) → Bool → Bool → List Access → Bool
asks_first found asked vain [] = true
asks_first found asked vain (store_wake ∷ rest) = asks_first found true false rest
asks_first found asked vain (load_index i ∷ rest) =
    asks_first found asked (asked && not (found i)) rest
asks_first found asked vain (load_eos e ∷ rest) = asks_first found asked (vain && not e) rest
asks_first found asked vain (poll_event ∷ rest) = vain && asks_first found asked false rest
asks_first found asked vain (store_index i ∷ rest) = asks_first found asked vain rest
asks_first found asked vain (exchange_wake b ∷ rest) = asks_first found asked vain rest
asks_first found asked vain (access_event r ∷ rest) = asks_first found asked vain rest
asks_first found asked vain (copy_bytes o bytes ∷ rest) = asks_first found asked vain rest

or-false : (a b : Bool) → (a || b) ≡ false → a ≡ false
or-false true b e = e
or-false false b e = refl

module _ (p : RingOutputStream) (seen : Seen) where
  abbrev room : ℕ → Bool
  room i = ltb 0 (Output.look p i).buffer_available

  record Asks (asked vain : Bool) (r : Output.Offer) : Type 0 where
    holds : asks_first room asked vain r.0 ≡ true

  returns : (asked vain : Bool) (s : RingOutputStream) → Asks asked vain (current_buffer s)
  unfolding current_buffer done asks_first
  returns asked vain s = record { holds = refl }

  fails : (asked vain : Bool) → Asks asked vain (fail p)
  unfolding fail done asks_first
  fails asked vain = record { holds = refl }

  at_write :
      (asked vain : Bool) (r : ℕ) (rest : Output.Offer)
      → Asks asked vain rest
      → Asks asked vain (write_or_fail p r rest)
  unfolding write_or_fail note asks_first
  at_write asked vain r rest h = record {
    holds = (either (Asks asked vain) (producer_write r) rest (fail p) h (fails asked vain)).holds;
  }

  at_load :
      (asked vain : Bool) (i : ℕ) (r : Output.Offer)
      → (b : Bool) → room i ≡ b
      → Asks asked (asked && not b) r
      → Asks asked vain (note (load_index i) r)
  unfolding note asks_first
  at_load asked vain i r b e h = record {
    holds = ap (λ c. asks_first room asked (asked && not c) r.0) e ∙ h.holds;
  }

  -- A look goes on only when it was in vain.
  at_look :
      (asked vain : Bool) (i : ℕ) (rest : Output.Offer)
      → Asks asked asked rest
      → Asks asked vain (look_or p i rest)
  unfolding look_or
  at_look asked vain i rest h =
      either_when (λ r. Asks asked vain (note (load_index i) r)) (room i)
        (current_buffer (Output.look p i)) rest
        (λ e. at_load asked vain i _ true e (returns asked _ (Output.look p i)))
        (λ e. at_load asked vain i rest false e (shown asked h))
    where
      shown : (asked : Bool) → Asks asked asked rest → Asks asked (asked && true) rest
      shown true h = h
      shown false h = h

  at_wait :
      (w : Option Bool) (rest : Output.Offer)
      → Asks true false rest
      → Asks true true (waited w (fail p) rest)
  unfolding note asks_first
  at_wait w rest h =
      waited_cases (Asks true true) w (fail p) rest (record { holds = refl })
        (record { holds = (fails true false).holds }) (record { holds = h.holds })

  woken : Asks true false (
      look_or p (seen.index 3) (
        write_or_fail p (seen.event 2) (
          look_or p (seen.index 4) (
            waited
              (wait flags_write_ready (seen.answers 1))
              (fail p)
              (note (load_index (seen.index 5)) (current_buffer (Output.look p (seen.index 5))))))))
  woken = at_look true false (seen.index 3) _ (
      at_write true true (seen.event 2) _ (
        at_look true true (seen.index 4) _ (
          at_wait (wait flags_write_ready (seen.answers 1)) _
            (at_load true false (seen.index 5) _ (room (seen.index 5)) refl (returns true _ _)))))

  at_sleep : (mode : Mode) (asked vain : Bool) → Asks asked vain (sleep mode p seen)
  unfolding sleep note asks_first
  at_sleep mode asked vain = record {
    holds =
        (either_when (λ r. Asks true false (note (load_index (seen.index 2)) r))
          (room (seen.index 2) || is_non_blocking mode)
          (current_buffer (Output.look p (seen.index 2))) _
          (λ e. at_load true false (seen.index 2) _ (room (seen.index 2)) refl (returns true _ _))
          (λ e.
            at_load true false (seen.index 2) _ false
              (or-false (room (seen.index 2)) (is_non_blocking mode) e)
              (at_wait (wait flags_write_ready (seen.answers 0)) _ woken))).holds;
  }

  at_quiet :
      (mode : Mode)
      → Asks false false (
          look_or p
            (seen.index 0)
            (write_or_fail p (seen.event 1) (look_or p (seen.index 1) (sleep mode p seen))))
  at_quiet mode = at_look false false (seen.index 0) _ (
      at_write false false (seen.event 1) _
        (at_look false false (seen.index 1) _ (at_sleep mode false false)))

  at_note :
      (r : Output.Offer)
      → Asks false false r
      → (b : Bool) → Asks false false (note (exchange_wake b) r)
  unfolding note asks_first
  at_note r h b = record { holds = h.holds }

publish_and_look-Asks :
    (mode : Mode) (s : RingOutputStream) (seen : Seen)
    → Asks (publish s) seen false false (publish_and_look mode s seen)
unfolding publish_and_look note asks_first
publish_and_look-Asks mode s seen =
    let p = publish s in
    let quiet = at_quiet p seen mode in
    let awake =
      at_write p seen false false (seen.event 0) _
        (at_look p seen false false (seen.index 0) _ (at_sleep p seen mode false false)) in
    record {
      holds =
          (either (Asks p seen false false) (ltb 0 (Output.unpublished s)) _ _
            (at_note p seen _ (either (Asks p seen false false) seen.wake _ _ awake quiet)
              seen.wake)
            quiet).holds;
    }

-- In either mode, whatever the reader and the calls on the event descriptor do: `next_buffer` of the
-- output stream polls only behind the store of `producer_wake`, and each time behind a look at the
-- index of the reader, later than that store and than the poll before, that has found no room.
pub next_buffer-asks_first :
    (mode : Mode) (s : RingOutputStream) (seen : Seen)
    → asks_first
        (λ i. ltb 0 (Output.look (publish s) i).buffer_available)
        false
        false
        (next_buffer mode s seen).0
      ≡ true
unfolding next_buffer done asks_first
next_buffer-asks_first mode s seen =
    either
      (λ (r : Output.Offer).
        asks_first (λ i. ltb 0 (Output.look (publish s) i).buffer_available) false false r.0 ≡ true)
      (s.has_error || s.at_end) _ _ refl (publish_and_look-Asks mode s seen).holds
