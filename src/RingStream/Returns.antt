-- ===== src/RingStream/Returns.antt =====
-- core/ring_spsc_stream.cpp: when the writes of `output_stream` return.
use lbu.Common.{
  either, either_when, ℕ, ◌+◌, ◌<◌, ◌≡◌, none, some, Bool, true, false, ltb, leb, ◌==◌, ◌||◌, ◌&&◌,
  List, [], ◌∷◌, length, drop, length-drop, arith, refl,
}
use lbu.FdStream.{non_blocking}
use lbu.RingStream.{RingOutputStream, Seen, Run, is_non_blocking, note, done, follow}
use lbu.RingStream.Output.{
  publish, look, current_buffer, fail, sleep, next_buffer, advance, copy_chunk, write_loop,
  write_stream, write,
}
use lbu.RingStream.Offers.{Cases, publish_and_look-cases}

-- There is a result.
abbrev pub Returned : {A : Type 0} → Run A → Type 0
Returned {A} r = (a : A) × (r.1 ≡ some a)

or_true : (b : Bool) → (b || true) ≡ true
or_true true = refl
or_true false = refl

Returned-Cases : (p : RingOutputStream) (seen : Seen) → Cases Returned p seen
unfolding note done current_buffer fail
Returned-Cases p seen = record { noted = λ a x q h. h; looked = λ k. (_, refl); failed = (_, refl) }

sleep-Returned : (p : RingOutputStream) (seen : Seen) → Returned (sleep non_blocking p seen)
unfolding sleep is_non_blocking note done current_buffer
sleep-Returned p seen =
    either_when Returned (ltb 0 (look p (seen.index 2)).buffer_available || true) _ _
      (λ e. (_, refl))
      (λ e. absurd (ground (arith, e, or_true (ltb 0 (look p (seen.index 2)).buffer_available))))

next_buffer-Returned :
    (s : RingOutputStream) (seen : Seen) → Returned (next_buffer non_blocking s seen)
unfolding next_buffer done
next_buffer-Returned s seen =
    either Returned (s.has_error || s.at_end) _ _ (_, refl)
      (publish_and_look-cases Returned non_blocking s seen (Returned-Cases (publish s) seen)
        (sleep-Returned (publish s) seen))

follow-Returned :
    {A B : Type 0} (r : Run A) (k : A → Run B)
    → Returned r
    → ((a : A) → Returned (k a))
    → Returned (follow r k)
unfolding follow
follow-Returned (before, some a) k r h = h a
follow-Returned (before, none) k (a, e) h = absurd (ground arith)

write_loop-Returned :
    (seens : List Seen) (s : RingOutputStream) (src : List ℕ) (count : ℕ)
    → length src < length seens
    → Returned (write_loop non_blocking seens s src count)
unfolding write_loop copy_chunk note done
write_loop-Returned [] s src count h = absurd (omega arith)
write_loop-Returned (seen ∷ seens) s src count h =
    follow-Returned (next_buffer non_blocking s seen) _ (next_buffer-Returned s seen) (λ (size, t).
      either_when Returned (size == 0) _ _ (λ e. (_, refl))
        (λ e.
          either_when Returned (leb (length src) size) _ _ (λ f. (_, refl))
            (λ f.
              write_loop-Returned seens (advance t size) (drop size src) (count + size)
                (ground (arith, length-drop size src)))))

-- In non-blocking mode `write` returns, whatever is found at each of its calls of `next_buffer`, and
-- makes no more of them than there are bytes to write, and one.
pub write-Returned :
    (seens : List Seen) (s : RingOutputStream) (src : List ℕ)
    → length src < length seens
    → Returned (write non_blocking seens s src)
unfolding write write_stream note done
write-Returned seens s src h =
    let n = s.buffer_available in
    either Returned (leb (length src) n && ltb 0 n) _ _ (_, refl)
      (either Returned (s.has_error || s.at_end) _ _ (_, refl)
        (either Returned (length src == 0) _ _ (_, refl)
          (either Returned (ltb 0 n) _ _
            (write_loop-Returned seens (advance s n) (drop n src) n
              (omega (arith, length-drop n src)))
            (write_loop-Returned seens s src n h))))
