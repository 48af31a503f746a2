-- ===== src/Ascii/RoundTrip.antt =====
-- core/lbu/ascii.h: what `integer::from_decimal` makes of the text of `integer::decimal`.
use lbu.Common.{
  ℕ, zero, suc, ◌+◌, ◌-◌, ◌*◌, ◌/◌, ◌%◌, ◌^◌, ◌≤◌, ◌<◌, ◌≡◌, List, [], ◌∷◌, some, Bool, true, false,
  not, ◌&&◌, ltb, leb, ◌==◌, Bool-cases, if◌then◌else◌, arith, inl, inr, refl, ap, ◌∙◌, subst,
}
use lbu.Common.Words.{add_word, sub_word, add_word_exact}
use native.Mathlib.Nat.{mod-eq_of_lt}
use lbu.Math.{abs, is_negative, limit_max}
use lbu.Ascii.{is_digit}
use lbu.Ascii.Decimal.{Policy, overflow, stored, rejects, from_decimal, emit, decimal}
use lbu.Ascii.Scan.{Bytes, is_digit_eq, all_digits, spell, within}
use lbu.Ascii.Parse.{
  is_minimum, outcome, limit, unsigned_part, read_decimal, SignAllowed, from_decimal-read_decimal,
}

emit-suc :
    (f u : ℕ) (out : List ℕ)
    → emit (suc f) u out ≡ (if ltb 0 u then emit f (u / 10) ((u % 10 + 0x30) ∷ out) else out)
unfolding emit
emit-suc f u out = refl

pub emit-zero : (f : ℕ) (out : List ℕ) → emit f 0 out ≡ out
unfolding emit
emit-zero zero out = refl
emit-zero (suc f) out = refl

pub emit-positive :
    (f u : ℕ) (out : List ℕ) → 0 < u → emit (suc f) u out ≡ emit f (u / 10) ((u % 10 + 0x30) ∷ out)
emit-positive f u out h = let e : ltb 0 u ≡ true = ground arith in emit-suc f u out ∙ rw e refl

digit_char : (u : ℕ) → is_digit (u % 10 + 0x30) ≡ true
digit_char u = is_digit_eq (u % 10 + 0x30) (omega arith) ∙ ground arith

-- What the digits of a number are, in front of others.
record Printed (u : ℕ) (out text : List ℕ) : Type 0 where
  spells : spell 0 text ≡ spell u out
  digits : all_digits text ≡ all_digits out
  bytes : Bytes out → Bytes text

emit-Printed : (f u : ℕ) (out : List ℕ) → u ≤ f → Printed u out (emit f u out)
emit-Printed f zero out h =
    rw (emit-zero f out) (record { spells = refl; digits = refl; bytes = λ b. b })
emit-Printed zero (suc u) out h = absurd (omega arith)
emit-Printed (suc f) (suc u) out h =
    let n = suc u in
    let p = emit-Printed f (n / 10) ((n % 10 + 0x30) ∷ out) (omega arith) in
    let e : n / 10 * 10 + (n % 10 + 0x30 - 0x30) ≡ n = omega arith in
    rw (emit-positive f n out (omega arith)) (record {
      spells = p.spells ∙ ap (λ k. spell k out) e;
      digits = p.digits ∙ rw (digit_char n) refl;
      bytes = λ b. p.bytes (omega arith, b);
    })

-- The first digit of a positive number is not zero.
emit-first :
    (f u : ℕ) (out : List ℕ)
    → u ≤ f
    → 0 < u
    → (c : ℕ) × (s : List ℕ) × (emit f u out ≡ c ∷ s) × (0x31 ≤ c) × (c ≤ 0x39)
emit-first zero u out h pos = absurd (omega arith)
emit-first (suc f) u out h pos = elim (Bool-cases (ltb 0 (u / 10))) [
  | inl more ↦
      let (c, s, e, lo, hi) =
        emit-first f (u / 10) ((u % 10 + 0x30) ∷ out) (omega arith) (ground arith) in
      (c, s, emit-positive f u out pos ∙ e, lo, hi)
  | inr last ↦
      let z : u / 10 ≡ 0 = ground arith in
      (
        u % 10 + 0x30,
        out,
        emit-positive f u out pos ∙ rw z (emit-zero f ((u % 10 + 0x30) ∷ out)),
        omega arith,
        omega arith,
      )
]

shown :
    (m : ℕ) (signed : Bool) (lz nz : Policy) (neg : Bool) (u c : ℕ) (s : List ℕ)
    → 0 < u
    → u ≤ limit m signed neg
    → 0x31 ≤ c
    → Printed u [] (c ∷ s)
    → unsigned_part m signed lz nz neg (c ∷ s) ≡ some (if neg then sub_word m 0 u else u)
shown m signed lz nz neg u c s pos l lo p =
    let f : (c == 0x30) ≡ false = ground arith in
    let g : leb u (limit m signed neg) ≡ true = ground arith in
    let h : (u == 0) ≡ false = ground arith in
    let w : within (limit m signed neg) 0 (c ∷ s) ≡ some u = rw (p.digits, p.spells, g) refl in
    rw (f, w, h) refl

digits_part :
    (m : ℕ) (signed : Bool) (lz nz : Policy) (neg : Bool) (u : ℕ)
    → 0 < u
    → u ≤ limit m signed neg
    → unsigned_part m signed lz nz neg (emit u u []) ≡ some (if neg then sub_word m 0 u else u)
digits_part m signed lz nz neg u pos l =
    let (c, s, e, lo, hi) = emit-first u u [] (omega arith) pos in
    let p = subst (Printed u []) e (emit-Printed u u [] (omega arith)) in
    rw e (shown m signed lz nz neg u c s pos l lo p)

emit-Bytes : (u : ℕ) → Bytes (emit u u [])
emit-Bytes u = (emit-Printed u u [] (omega arith)).bytes tt

-- Digits carry no sign.
unsigned_read :
    (m : ℕ) (signed : Bool) (lz nz : Policy) (u : ℕ)
    → 0 < u
    → read_decimal m signed lz nz (some (emit u u []))
      ≡ unsigned_part m signed lz nz false (emit u u [])
unsigned_read m signed lz nz u pos =
    let (c, s, e, lo, hi) = emit-first u u [] (omega arith) pos in
    let f : (c == 0x2d) ≡ false = ground arith in rw e (rw f refl)

unsigned_allowed : (signed : Bool) (u : ℕ) → 0 < u → SignAllowed signed (some (emit u u []))
unsigned_allowed signed u pos =
    let (c, s, e, lo, hi) = emit-first u u [] (omega arith) pos in rw e (λ t. absurd (ground arith))

pub decimal-negative :
    (m v : ℕ) → 20 ≤ m → m / 2 ≤ v → v < m → decimal m true v ≡ 0x2d ∷ emit (m - v) (m - v) []
unfolding decimal abs
decimal-negative m v h l k =
    let e : leb (m / 2) v ≡ true = ground arith in
    let f : (v == 0) ≡ false = ground arith in
    let g : add_word m (m - 1 - v) 1 ≡ m - v =
      add_word_exact m (m - 1 - v) 1 (ground arith) ∙ omega arith in
    rw (e, f, g) refl

pub decimal-positive :
    (m : ℕ) (signed : Bool) (v : ℕ)
    → 0 < v
    → is_negative m signed v ≡ false
    → decimal m signed v ≡ emit v v []
unfolding decimal abs
decimal-positive m signed v pos e = let f : (v == 0) ≡ false = ground arith in rw (e, f) refl

pub decimal-zero : (m : ℕ) (signed : Bool) → 20 ≤ m → decimal m signed 0 ≡ 0x30 ∷ []
unfolding decimal abs emit
decimal-zero m true h = let e : leb (m / 2) 0 ≡ false = ground arith in rw e refl
decimal-zero m false h = refl

positive_read :
    (m : ℕ) (signed : Bool) (lz nz : Policy) (v : ℕ)
    → 2 ^ 32 ≤ m
    → m % 2 ≡ 0
    → 0 < v
    → v ≤ limit_max m signed
    → from_decimal m signed lz nz (some (emit v v [])) ≡ outcome m signed (some v)
positive_read m signed lz nz v h e pos l =
    from_decimal-read_decimal m signed lz nz (some (emit v v [])) h e (emit-Bytes v)
      (unsigned_allowed signed v pos)
    ∙ ap (outcome m signed)
        (unsigned_read m signed lz nz v pos ∙ digits_part m signed lz nz false v pos l)

negative_read :
    (m : ℕ) (lz nz : Policy) (u : ℕ)
    → 2 ^ 32 ≤ m
    → m % 2 ≡ 0
    → 0 < u
    → u ≤ m / 2
    → from_decimal m true lz nz (some (0x2d ∷ emit u u [])) ≡ outcome m true (some (sub_word m 0 u))
negative_read m lz nz u h e pos l =
    from_decimal-read_decimal m true lz nz (some (0x2d ∷ emit u u [])) h e
      (omega arith, emit-Bytes u) (λ _. refl)
    ∙ ap (outcome m true) (digits_part m true lz nz true u pos l)

zero_read :
    (m : ℕ) (signed : Bool) (lz nz : Policy)
    → 2 ^ 32 ≤ m
    → m % 2 ≡ 0
    → from_decimal m signed lz nz (some (0x30 ∷ [])) ≡ outcome m signed (some 0)
zero_read m signed lz nz h e =
    let f : (0x30 == 0x30 && rejects lz && not true) ≡ false = elim (Bool-cases (rejects lz)) [
      | inl r ↦ rw r refl
      | inr a ↦ rw a refl
    ] in
    let g : leb 0 (limit_max m signed) ≡ true = ground arith in
    let d : is_digit 0x30 ≡ true = is_digit_eq 0x30 (omega arith) in
    from_decimal-read_decimal m signed lz nz (some (0x30 ∷ [])) h e (omega arith, tt)
      (λ t. absurd (cc t))
    ∙ rw (f, d, g) refl

sub_negated : (m v : ℕ) → 0 < v → v < m → sub_word m 0 (m - v) ≡ v
unfolding sub_word
sub_negated m v pos l =
    let e : 0 + m - (m - v) ≡ v = omega arith in ap (λ k. k % m) e ∙ mod-eq_of_lt l

-- For a type whose modulus is even and at least 2 ^ 32, policies, and a value of it: of what `decimal`
-- has printed, `from_decimal` stores the value, under either policy for leading zeros and for a
-- negative zero, except for the minimum of a signed type, for which its negation overflows.
pub from_decimal-decimal :
    (m : ℕ) (signed : Bool) (lz nz : Policy) (v : ℕ)
    → 2 ^ 32 ≤ m
    → m % 2 ≡ 0
    → v < m
    → from_decimal m signed lz nz (some (decimal m signed v))
      ≡ (if is_minimum m signed v then overflow else stored v)
from_decimal-decimal m signed lz nz zero h e l =
    rw (decimal-zero m signed (omega (arith, h))) (zero_read m signed lz nz h e)
from_decimal-decimal m false lz nz (suc w) h e l =
    rw (decimal-positive m false (suc w) (omega arith) refl)
      (positive_read m false lz nz (suc w) h e (omega arith) (omega arith))
from_decimal-decimal m true lz nz (suc w) h e l = elim (Bool-cases (leb (m / 2) (suc w))) [
  | inl negative ↦ rw (decimal-negative m (suc w) (omega (arith, h)) (ground arith) l) (
      negative_read m lz nz (m - suc w) h e (ground arith) (ground arith)
      ∙ ap (λ x. outcome m true (some x)) (sub_negated m (suc w) (omega arith) l))
  | inr positive ↦
      rw (decimal-positive m true (suc w) (omega arith) positive)
        (positive_read m true lz nz (suc w) h e (omega arith) (ground arith))
]
