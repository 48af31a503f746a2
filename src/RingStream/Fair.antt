-- ===== src/RingStream/Fair.antt =====
-- core/ring_spsc_stream.cpp: what the reader relies on, and what an offer then holds.
use lbu.Common.{
  if_true, ℕ, zero, suc, ◌+◌, ◌-◌, ◌%◌, ◌≤◌, ◌<◌, ◌≡◌, Option, none, some, Bool, true, false, ltb,
  ◌||◌, min, List, [], ◌∷◌, map, arith, refl, sym, subst, ap, ap₂, ◌∙◌, if◌then◌else◌,
}
use native.Mathlib.Nat.{mod-eq_of_lt, mod-add-mod}
use lbu.Common.Words.{add_word_exact, sub_word_exact}
use lbu.Io.{range}
use lbu.FdStream.{Mode}
use lbu.RingStream.{m, Seen, done}
use lbu.RingStream.Input.{RingInputStream, Offer, next_buffer, advance, Moment}
use lbu.RingStream.Room.{SeenBetween}
use lbu.RingStream.Arrives.{Ready, Brought, next_buffer-Brought}

map-range_eq :
    (f g : ℕ → ℕ) (o p c : ℕ)
    → ((j : ℕ) → j < c → f (o + j) ≡ g (p + j))
    → map f (range o c) ≡ map g (range p c)
map-range_eq f g o p zero h = refl
map-range_eq f g o p (suc c) h =
    ap₂ ◌∷◌ (ap f (omega arith) ∙ h 0 (omega arith) ∙ ap g (omega arith)) (
      map-range_eq f g (suc o) (suc p) c
        (λ j l. ap f (omega arith) ∙ h (suc j) (omega arith) ∙ ap g (omega arith)))

assoc : (x y z : ℕ) → x + (y + z) ≡ x + y + z
assoc x y z = omega arith

or-false : (x y : Bool) → (x || y) ≡ false → (x ≡ false) × (y ≡ false)
or-false true y e = absurd (ground arith)
or-false false y e = (refl, e)

-- The stream when the bytes that were available have been read.
unfoldable pub emptied : RingInputStream → RingInputStream
emptied s = if ltb 0 s.buffer_available then advance s s.buffer_available else s

pub advance-Ready :
    (s : RingInputStream) (total got produced c : ℕ)
    → Ready s total got produced
    → c ≤ s.buffer_available
    → Ready (advance s c) total (got + c) produced
unfolding advance
advance-Ready s total got produced c r le =
    let e = add_word_exact m s.buffer_offset c (omega (arith, r.inside, r.sized)) in
    let f = sub_word_exact m s.buffer_available c le (omega (arith, r.inside, r.sized)) in
    record {
      sized = r.sized;
      last = r.last;
      behind = omega (arith, e, r.behind);
      inside = omega (arith, e, f, r.inside);
      published = omega (arith, f, r.published);
    }

pub advance_available :
    (s : RingInputStream) (total got produced c : ℕ)
    → Ready s total got produced
    → c ≤ s.buffer_available
    → (advance s c).buffer_available ≡ s.buffer_available - c
unfolding advance
advance_available s total got produced c r le =
    sub_word_exact m s.buffer_available c le (omega (arith, r.inside, r.sized))

pub used-Ready :
    (s : RingInputStream) (total got produced pos : ℕ)
    → Ready s total got produced
    → s.buffer_available ≡ 0
    → pos ≡ total + got
    → Ready s total got pos
used-Ready s total got produced pos r u at = record {
  sized = r.sized;
  last = r.last;
  behind = r.behind;
  inside = r.inside;
  published = omega (arith, u, at);
}

-- What `next_buffer` has offered, when it has offered anything.
pub record Offered (n pos high size : ℕ) (t : RingInputStream) : Type 0 where
  pub sized : t.ring_size ≡ n
  pub size_lem : size ≡ t.buffer_available
  pub top : ℕ
  pub below : top ≤ high
  pub ready : Ready t pos 0 top

pub offered :
    (mode : Mode) (s : RingInputStream) (total got pos high : ℕ) (seen : Seen)
    → Ready s total got pos
    → pos ≡ total + got
    → s.buffer_available ≡ 0
    → high ≤ pos + s.ring_size
    → SeenBetween s.ring_size pos high seen
    → (stopped : Bool) → (s.has_error || s.at_end) ≡ stopped
    → (size : ℕ) (t : RingInputStream) → (next_buffer mode s seen).1 ≡ some (size, t)
    → 0 < size
    → Offered s.ring_size pos high size t
unfolding next_buffer done Brought
offered mode s total got pos high seen r at used fits between true e size t f positive =
    let z : some (0, s) ≡ some (size, t) = sym (ap (λ (o : Offer). o.1) (if_true e _ _)) ∙ f in
    absurd (ground (arith, z))
offered mode s total got pos high seen r at used fits between false e size t f positive =
    let h =
      next_buffer-Brought mode s total got pos high seen r used (omega (arith, at)) between
        (or-false s.has_error s.at_end e).0 (or-false s.has_error s.at_end e).1 in
    let (g, i, (top, above, below, k)) =
      subst (λ o. Brought s.ring_size (total + got) pos high ((next_buffer mode s seen).0, o)) f
        h in
    record {
      sized = i;
      size_lem = g;
      top = top;
      below = below;
      ready = subst (λ x. Ready t x 0 top) (sym at) k;
    }

module _ (b : ℕ → ℕ) where
  -- The slots hold the bytes of the stream from `low` on and below `high`.
  unfoldable pub Holds : ℕ → (ℕ → ℕ) → ℕ → ℕ → Type 0
  Holds n slots low high = (i : ℕ) → low ≤ i → i < high → slots (i % n) ≡ b i

  -- At a call with all bytes before `pos` read, the writer has published some more, which the ring
  -- has room for and holds, and so at the calls that follow.
  unfoldable pub Fair : Mode → List Moment → RingInputStream → ℕ → ℕ → Type 0
  Fair mode [] s pos left = Unit
  Fair mode ((seen, slots) ∷ moments) s pos left =
      ((high : ℕ) × (high ≤ pos + s.ring_size)
        × SeenBetween s.ring_size pos high seen
        × Holds s.ring_size slots pos high)
      × ((size : ℕ) (t : RingInputStream)
          → (next_buffer mode s seen).1 ≡ some (size, t)
          → Fair mode moments (advance t (min size left)) (pos + min size left)
              (left - min size left))

  -- A result that is a count is that of the bytes stored, which are those of the stream from `pos` on;
  -- with any other result the bytes stored are some of these, and the stream has an error.
  unfoldable pub Delivered : ℕ → Option (Option ℕ × List ℕ × RingInputStream) → Type 0
  Delivered pos none = Unit
  Delivered pos (some (some r, bytes, t)) = bytes ≡ map b (range pos r)
  Delivered pos (some (none, bytes, t)) =
      (k : ℕ) × (bytes ≡ map b (range pos k)) × (t.has_error ≡ true)

  pub chunk_bytes :
      (n total got high c : ℕ) (slots : ℕ → ℕ)
      → Holds n slots (total + got) high
      → total % n + got + c ≤ n
      → total + got + c ≤ high
      → map slots (range (total % n + got) c) ≡ map b (range (total + got) c)
  unfolding Holds
  chunk_bytes n total got high c slots h fits below =
      map-range_eq slots b (total % n + got) (total + got) c (λ j l.
        let e : total % n + got + j ≡ (total + got + j) % n = omega (
          arith,
          ap (λ x. x % n) (assoc total got j),
          mod-add-mod total n (got + j),
          mod-eq_of_lt {n = total % n + (got + j)} {m = n} (omega arith),
        ) in
        ap slots e ∙ h (total + got + j) (omega arith) (omega arith))
