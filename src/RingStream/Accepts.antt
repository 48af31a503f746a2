-- ===== src/RingStream/Accepts.antt =====
-- core/ring_spsc_stream.cpp: the bytes that the writes of `output_stream` copy.
use lbu.Common.{
  either, either_when, ltb, ◌&&◌, subst, ℕ, ◌+◌, ◌≤◌, ◌≡◌, Option, none, some, Bool, true, false,
  leb, ◌==◌, ◌||◌, List, [], ◌∷◌, ◌++◌, length, take, take-add, drop, length-drop, append-nil,
  append_assoc, arith, refl, sym, subst, ap, ap₂, ◌∙◌, if◌then◌else◌,
}
use lbu.Common.Bytes.{take_whole}
use lbu.FdStream.{Mode}
use lbu.RingStream.{RingOutputStream, Access, copy_bytes, Seen, note, done, follow-cases}
use lbu.RingStream.Output.{
  publish, Offer, current_buffer, fail, next_buffer, advance, Written, copy_chunk, write_loop,
  write_stream, write,
}
use lbu.RingStream.Offers.{bytes_of, copied, Cases, sleep-cases, publish_and_look-cases}

-- An offer copies nothing.
abbrev Quiet : Offer → Type 0
Quiet r = copied r.0 ≡ []

Quiet-Cases : (p : RingOutputStream) (seen : Seen) → Cases Quiet p seen
unfolding copied bytes_of note done current_buffer fail
Quiet-Cases p seen = record { noted = λ a x q h. ap₂ ◌++◌ q h; looked = λ k. refl; failed = refl }

pub next_buffer-Quiet :
    (mode : Mode) (s : RingOutputStream) (seen : Seen) → copied (next_buffer mode s seen).0 ≡ []
unfolding next_buffer copied done
next_buffer-Quiet mode s seen =
    let c = Quiet-Cases (publish s) seen in
    either Quiet (s.has_error || s.at_end) _ _ refl
      (publish_and_look-cases Quiet mode s seen c (sleep-cases Quiet (publish s) seen c refl mode))

-- The count returned is that of the bytes copied, after `count` before; otherwise the stream
-- waits, or has failed.
abbrev pub Counted : ℕ → ℕ → Option (Option ℕ × RingOutputStream) → Type 0
Counted count k none = Unit
Counted count k (some (none, t)) = t.has_error ≡ true
Counted count k (some (some r, t)) = r ≡ count + k

-- Some first bytes have been copied, in one piece or in several.
abbrev pub Accepted : List ℕ → ℕ → Written → Type 0
Accepted src count w = (k : ℕ) × (k ≤ length src) × (copied w.0 ≡ take k src) × Counted count k w.1

copied-append : (xs ys : List Access) → copied (xs ++ ys) ≡ copied xs ++ copied ys
unfolding copied
copied-append [] ys = refl
copied-append (x ∷ xs) ys =
    ap (λ l. bytes_of x ++ l) (copied-append xs ys)
    ∙ sym (append_assoc (bytes_of x) (copied xs) (copied ys))

behind_quiet :
    (before : List Access) (src : List ℕ) (count : ℕ) (w : Written)
    → copied before ≡ []
    → Accepted src count w
    → Accepted src count (before ++ w.0, w.1)
behind_quiet before src count w q (k, le, e, c) =
    (k, le, copied-append before w.0 ∙ ap (λ l. l ++ copied w.0) q ∙ e, c)

-- The first `n` bytes are copied, and then some of those that follow.
behind_copy :
    (o n : ℕ) (src : List ℕ) (count count' : ℕ) (w : Written)
    → count' ≡ count + n
    → n ≤ length src
    → Accepted (drop n src) count' w
    → Accepted src count (note (copy_bytes o (take n src)) w)
unfolding note copied bytes_of
behind_copy o n src count count' (accesses, result) later le (k, le', e, c) = (
  n + k,
  omega (arith, length-drop n src),
  ap (λ l. take n src ++ l) e ∙ sym (take-add n k src),
  counted result c,
)
  where
    counted :
        (result : Option (Option ℕ × RingOutputStream))
        → Counted count' k result
        → Counted count (n + k) result
    counted none c = tt
    counted (some (none, t)) c = c
    counted (some (some r, t)) c = omega (arith, c, later)

copied_whole :
    (o : ℕ) (src : List ℕ) (count r : ℕ) (t : RingOutputStream)
    → r ≡ count + length src
    → Accepted src count (note (copy_bytes o src) (done (some r, t)))
unfolding note done copied bytes_of
copied_whole o src count r t e =
    (length src, omega arith, append-nil src ∙ sym (take_whole (length src) src (omega arith)), e)

stopped :
    (src : List ℕ) (count : ℕ) (t : RingOutputStream)
    → Accepted src count (done ((if t.has_error then none else some count), t))
unfolding done copied
stopped src count t = (0, omega arith, refl, counted t.has_error refl)
  where
    counted :
        (b : Bool) → t.has_error ≡ b → Counted count 0 (some ((if b then none else some count), t))
    counted true e = e
    counted false e = omega arith

copy_chunk-Accepted :
    (t : RingOutputStream) (size : ℕ) (src : List ℕ) (count : ℕ) (rest : Written)
    → Accepted (drop size src) (count + size) rest
    → Accepted src count (copy_chunk t size src count rest)
unfolding copy_chunk
copy_chunk-Accepted t size src count rest a =
    either (Accepted src count) (size == 0) _ _ (stopped src count t)
      (copied_or_more (leb (length src) size) refl)
  where
    copied_or_more :
        (b : Bool)
        → leb (length src) size ≡ b
        → Accepted src count (
            if b
            then note
                (copy_bytes t.buffer_offset src)
                (done (some (count + length src), advance t (length src)))
            else note (copy_bytes t.buffer_offset (take size src)) rest)
    copied_or_more true e = copied_whole t.buffer_offset src count _ (advance t (length src)) refl
    copied_or_more false e = behind_copy t.buffer_offset size src count _ rest refl (ground arith) a

write_loop-Accepted :
    (mode : Mode) (seens : List Seen) (s : RingOutputStream) (src : List ℕ) (count : ℕ)
    → Accepted src count (write_loop mode seens s src count)
unfolding write_loop copied
write_loop-Accepted mode [] s src count = (0, omega arith, refl, tt)
write_loop-Accepted mode (seen ∷ seens) s src count =
    let r = next_buffer mode s seen in
    follow-cases (Accepted src count) r _ (0, omega arith, next_buffer-Quiet mode s seen, tt)
      (λ (size, t) e. behind_quiet r.0 src count _ (next_buffer-Quiet mode s seen) (
        copy_chunk-Accepted t size src count _
          (write_loop-Accepted mode seens (advance t size) (drop size src) (count + size))))

write_stream-Accepted :
    (mode : Mode) (seens : List Seen) (s : RingOutputStream) (src : List ℕ)
    → s.buffer_available ≤ length src
    → Accepted src 0 (write_stream mode seens s src)
unfolding write_stream done copied
write_stream-Accepted mode seens s src le =
    let n = s.buffer_available in
    either (Accepted src 0) (s.has_error || s.at_end) _ _ (0, omega arith, refl, refl)
      (either (Accepted src 0) (length src == 0) _ _ (0, omega arith, refl, refl)
        (either_when (Accepted src 0) (ltb 0 n) _ _
          (λ e.
            behind_copy s.buffer_offset n src 0 n _ (omega arith) le
              (write_loop-Accepted mode seens (advance s n) (drop n src) n))
          (λ e.
            let z : n ≡ 0 = ground arith in
            subst (λ k. Accepted src k (write_loop mode seens s src n)) z
              (write_loop-Accepted mode seens s src n))))

-- In either mode, and whatever the stream, the reader, the calls on the event descriptor and the
-- waits do: the bytes that `write` copies into the ring are, one after the other, the first ones of
-- the caller's; the value returned is their number, unless it is negative, and then the stream has an
-- error.
pub write-Accepted :
    (mode : Mode) (seens : List Seen) (s : RingOutputStream) (src : List ℕ)
    → Accepted src 0 (write mode seens s src)
unfolding write
write-Accepted mode seens s src =
    let n = s.buffer_available in
    either_when (Accepted src 0) (leb (length src) n && ltb 0 n) _ _
      (λ e. copied_whole s.buffer_offset src 0 _ (advance s (length src)) (omega arith))
      (λ e. write_stream-Accepted mode seens s src (ground arith))
