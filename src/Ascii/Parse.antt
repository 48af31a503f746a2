-- ===== src/Ascii/Parse.antt =====
-- core/lbu/ascii.h: what `integer::from_decimal` accepts, and the value that it stores.
use lbu.Common.{
  ℕ, ◌+◌, ◌-◌, ◌*◌, ◌/◌, ◌%◌, ◌^◌, ◌≤◌, ◌<◌, ◌≡◌, inl, inr, List, [], ◌∷◌, Option, none, some, Bool,
  true, false, not, ◌&&◌, leb, ◌==◌, Bool-cases, either_when, if◌then◌else◌, arith, refl, sym, ap,
  ◌∙◌,
}
use native.Mathlib.Nat.{mod-eq_of_lt, mod_self}
use lbu.Common.Words.{sub_word, add_word_exact}
use lbu.Math.{abs, limit_max, limit_min}
use lbu.Ascii.{is_digit}
use lbu.Ascii.Decimal.{
  Policy, Outcome, refused, overflow, stored, negated, rejects, is_end, skip_zeros, scan,
  after_sign, from_decimal,
}
use lbu.Ascii.Scan.{is_digit_eq, Bytes, all_digits, spell, within, scan_eq}

skip-spell : (s : List ℕ) → spell 0 (skip_zeros s) ≡ spell 0 s
skip-spell [] = refl
skip-spell (c ∷ s) = elim (Bool-cases (c == 0x30)) [
  | inl zero_digit ↦
      let e : 0 * 10 + (c - 0x30) ≡ 0 = ground arith in rw (zero_digit, e) (skip-spell s)
  | inr other ↦ rw other refl
]

skip-all_digits : (s : List ℕ) → all_digits (skip_zeros s) ≡ all_digits s
skip-all_digits [] = refl
skip-all_digits (c ∷ s) = elim (Bool-cases (c == 0x30)) [
  | inl zero_digit ↦
      let d : is_digit c ≡ true = is_digit_eq c (ground arith) ∙ ground arith in
      rw (zero_digit, d) (skip-all_digits s)
  | inr other ↦ rw other refl
]

skip-Bytes : (s : List ℕ) → Bytes s → Bytes (skip_zeros s)
skip-Bytes [] b = tt
skip-Bytes (c ∷ s) (b, bs) = elim (Bool-cases (c == 0x30)) [
  | inl zero_digit ↦ rw zero_digit (skip-Bytes s bs)
  | inr other ↦ rw other (b, bs)
]

-- The value for the absolute value that was read.
abbrev pub signed_value : ℕ → Policy → Bool → Option ℕ → Option ℕ
signed_value m nz neg none = none
signed_value m nz neg (some a) =
    if a == 0 && neg && rejects nz then none else some (if neg then sub_word m 0 a else a)

-- The greatest absolute value of either sign.
abbrev pub limit : ℕ → Bool → Bool → ℕ
limit m signed neg = if neg then m / 2 else limit_max m signed

skip-within :
    (top c : ℕ) (s : List ℕ)
    → (c == 0x30) ≡ true
    → within top 0 (skip_zeros s) ≡ within top 0 (c ∷ s)
skip-within top c s zero_digit =
    let e : 0 * 10 + (c - 0x30) ≡ 0 = ground arith in
    let d : is_digit c ≡ true = is_digit_eq c (ground arith) ∙ ground arith in
    rw (d, e, skip-spell s, skip-all_digits s) refl

digits_read :
    (m top c : ℕ) (s : List ℕ)
    → 9 ≤ top
    → top < m
    → Bytes (c ∷ s)
    → scan m top (if c == 0x30 then skip_zeros s else c ∷ s) 0 ≡ within top 0 (c ∷ s)
digits_read m top c s h k (b, bs) = elim (Bool-cases (c == 0x30)) [
  | inl zero_digit ↦ rw zero_digit (
      scan_eq m top (skip_zeros s) 0 h k (omega arith) (skip-Bytes s bs)
      ∙ skip-within top c s zero_digit)
  | inr other ↦ rw other (scan_eq m top (c ∷ s) 0 h k (omega arith) (b, bs))
]

-- The minimum of a signed type, as a pattern.
abbrev pub is_minimum : ℕ → Bool → ℕ → Bool
is_minimum m signed v = signed && v == m / 2

-- A value is stored, but not the minimum of a signed type.
abbrev pub outcome : ℕ → Bool → Option ℕ → Outcome
outcome m signed none = refused
outcome m signed (some v) = if is_minimum m signed v then overflow else stored v

-- Only the minimum is negated to itself.
negated_eq :
    (m a : ℕ)
    → 20 ≤ m
    → m % 2 ≡ 0
    → a ≤ m / 2
    → negated m true a ≡ outcome m true (some (sub_word m 0 a))
unfolding negated sub_word
negated_eq m a h e l = elim (Bool-cases (a == m / 2)) [
  | inl least ↦
      let f : ((0 + m - a) % m == m / 2) ≡ true =
        let g : (0 + m - a) % m ≡ m / 2 = mod-eq_of_lt (ground arith) ∙ ground arith in
        ground (arith, g) in
      rw (least, f) refl
  | inr other ↦
      let f : ((0 + m - a) % m == m / 2) ≡ false = elim (Bool-cases (a == 0)) [
        | inl none_left ↦
            let g : 0 + m - a ≡ m = ground arith in
            let z : m % m ≡ 0 = mod_self m in rw (g, z) (ground arith)
        | inr some_left ↦
            let g : (0 + m - a) % m ≡ m - a = mod-eq_of_lt (ground arith) ∙ omega arith in
            ground (arith, g)
      ] in
      rw (other, f) refl
]

abbrev Below : ℕ → Option ℕ → Type 0
Below top none = Unit
Below top (some a) = a ≤ top

within-Below : (top n : ℕ) (s : List ℕ) → Below top (within top n s)
within-Below top n s =
    either_when (Below top) (all_digits s && leb (spell n s) top) _ _
      (λ t. bounded (all_digits s) (spell n s) t) (λ t. tt)
  where
    bounded : (b : Bool) (k : ℕ) → (b && leb k top) ≡ true → k ≤ top
    bounded true k t = ground arith
    bounded false k t = absurd (cc t)

outcome_eq :
    (m : ℕ) (signed : Bool) (nz : Policy) (neg : Bool) (r : Option ℕ)
    → 20 ≤ m
    → m % 2 ≡ 0
    → (neg ≡ true → signed ≡ true)
    → Below (limit m signed neg) r
    → elim r [
      | none ↦ refused
      | some a ↦
          if a == 0 && neg && rejects nz
          then refused
          else if neg
          then negated m signed a
          else stored a
    ]
      ≡ outcome m signed (signed_value m nz neg r)
outcome_eq m signed nz neg none h e allowed below = refl
outcome_eq m signed nz neg (some a) h e allowed below =
    elim (Bool-cases (a == 0 && neg && rejects nz)) [
      | inl minus_zero ↦ rw minus_zero refl
      | inr value ↦ rw value (valued signed neg allowed below)
    ]
  where
    valued :
        (signed neg : Bool)
        → (neg ≡ true → signed ≡ true)
        → a ≤ limit m signed neg
        → (if neg then negated m signed a else stored a)
          ≡ outcome m signed (some (if neg then sub_word m 0 a else a))
    valued true true allowed below = negated_eq m a h e below
    valued false true allowed below = absurd (cc (allowed refl))
    valued false false allowed below = refl
    valued true false allowed below =
        let f : (a == m / 2) ≡ false = ground (arith, h, below) in rw f refl

after_sign_eq :
    (m : ℕ) (signed : Bool) (lz nz : Policy) (neg : Bool) (c : ℕ) (s : List ℕ)
    → 20 ≤ m
    → m % 2 ≡ 0
    → (neg ≡ true → signed ≡ true)
    → (if neg then abs m signed (limit_min m signed) else limit_max m signed) ≡ limit m signed neg
    → 9 ≤ limit m signed neg
    → limit m signed neg < m
    → Bytes (c ∷ s)
    → after_sign m signed lz nz neg (c ∷ s) ≡ (
        if c == 0x30 && rejects lz && not (is_end s)
        then refused
        else outcome m signed (signed_value m nz neg (within (limit m signed neg) 0 (c ∷ s))))
unfolding after_sign
after_sign_eq m signed lz nz neg c s h e allowed t k l b = rw t (
    ap (λ (r : Outcome). if c == 0x30 && rejects lz && not (is_end s) then refused else r)
      (ap
          (λ (r : Option ℕ). elim r as (λ _. Outcome) [
            | none ↦ refused
            | some a ↦
                if a == 0 && neg && rejects nz
                then refused
                else if neg
                then negated m signed a
                else stored a
          ])
          (digits_read m (limit m signed neg) c s k l b)
        ∙ outcome_eq m signed nz neg (within (limit m signed neg) 0 (c ∷ s)) h e allowed
            (within-Below (limit m signed neg) 0 (c ∷ s))))

-- The decimal reader that the code promises: an optional sign, at least one digit, a leading zero
-- only where it is accepted or alone, and a value within the limit of the type.
abbrev pub unsigned_part : ℕ → Bool → Policy → Policy → Bool → List ℕ → Option ℕ
unsigned_part m signed lz nz neg [] = none
unsigned_part m signed lz nz neg (c ∷ s) =
    if c == 0x30 && rejects lz && not (is_end s)
    then none
    else signed_value m nz neg (within (limit m signed neg) 0 (c ∷ s))

abbrev pub read_decimal : ℕ → Bool → Policy → Policy → Option (List ℕ) → Option ℕ
read_decimal m signed lz nz none = none
read_decimal m signed lz nz (some []) = none
read_decimal m signed lz nz (some (c ∷ s)) =
    if c == 0x2d
    then unsigned_part m signed lz nz true s
    else unsigned_part m signed lz nz false (c ∷ s)

-- A minus sign is given for a signed type only.
abbrev pub SignAllowed : Bool → Option (List ℕ) → Type 0
SignAllowed signed none = Unit
SignAllowed signed (some []) = Unit
SignAllowed signed (some (c ∷ s)) = (c == 0x2d) ≡ true → signed ≡ true

abbrev pub Text : Option (List ℕ) → Type 0
Text none = Unit
Text (some s) = Bytes s

minimum_abs : (m : ℕ) → 20 ≤ m → m % 2 ≡ 0 → abs m true (limit_min m true) ≡ m / 2
unfolding abs
minimum_abs m h e =
    let f : leb (m / 2) (m / 2) ≡ true = ground arith in
    rw f (add_word_exact m (m - 1 - m / 2) 1 (ground arith) ∙ omega arith)

after_sign_part :
    (m : ℕ) (signed : Bool) (lz nz : Policy) (neg : Bool) (s : List ℕ)
    → 20 ≤ m
    → m % 2 ≡ 0
    → Bytes s
    → (neg ≡ true → signed ≡ true)
    → after_sign m signed lz nz neg s ≡ outcome m signed (unsigned_part m signed lz nz neg s)
unfolding after_sign
after_sign_part m signed lz nz neg [] h e b allowed = refl
after_sign_part m signed lz nz neg (c ∷ s) h e b allowed =
    after_sign_eq m signed lz nz neg c s h e allowed (limit_eq signed neg allowed)
      (large signed neg) (small signed neg) b
    ∙ sym (outcome-if (c == 0x30 && rejects lz && not (is_end s)))
  where
    limit_eq :
        (signed neg : Bool)
        → (neg ≡ true → signed ≡ true)
        → (if neg then abs m signed (limit_min m signed) else limit_max m signed)
          ≡ limit m signed neg
    limit_eq true true allowed = minimum_abs m h e
    limit_eq false true allowed = absurd (cc (allowed refl))
    limit_eq signed false allowed = refl

    large : (signed neg : Bool) → 9 ≤ limit m signed neg
    large signed true = omega (arith, h)
    large true false = omega (arith, h)
    large false false = omega (arith, h)

    small : (signed neg : Bool) → limit m signed neg < m
    small signed true = omega (arith, h)
    small true false = omega (arith, h)
    small false false = omega (arith, h)

    outcome-if :
        (b : Bool)
        → outcome m signed
            (if b then none else signed_value m nz neg (within (limit m signed neg) 0 (c ∷ s)))
          ≡ (if b
              then refused
              else outcome m signed (signed_value m nz neg (within (limit m signed neg) 0 (c ∷ s))))
    outcome-if true = refl
    outcome-if false = refl

-- For a type whose modulus is even and at least 2 ^ 32, policies, and a text of bytes (or a null
-- pointer) that has a minus sign only if the type is signed, `from_decimal` stores what the decimal
-- reader promises, except the minimum of a signed type, where its negation overflows: it refuses a
-- null pointer, no digits, another character, a leading zero or a negative zero that is rejected,
-- and a value beyond the limit of the type.
pub from_decimal-read_decimal :
    (m : ℕ) (signed : Bool) (lz nz : Policy) (text : Option (List ℕ))
    → 2 ^ 32 ≤ m
    → m % 2 ≡ 0
    → Text text
    → SignAllowed signed text
    → from_decimal m signed lz nz text ≡ outcome m signed (read_decimal m signed lz nz text)
unfolding from_decimal
from_decimal-read_decimal m signed lz nz none h e b allowed = refl
from_decimal-read_decimal m signed lz nz (some []) h e b allowed = refl
from_decimal-read_decimal m signed lz nz (some (c ∷ s)) h e b allowed =
    elim (Bool-cases (c == 0x2d)) [
      | inl minus ↦
          rw minus
            (after_sign_part m signed lz nz true s (omega (arith, h)) e (b.1) (λ _. allowed minus))
      | inr other ↦
          rw other (
            after_sign_part m signed lz nz false (c ∷ s) (omega (arith, h)) e b
              (λ t. absurd (cc t)))
    ]
