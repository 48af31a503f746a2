-- ===== src/Ascii/Scan.antt =====
-- core/lbu/ascii.h: the digits that `integer::from_decimal` scans.
use lbu.Common.{
  ℕ, ◌+◌, ◌-◌, ◌*◌, ◌/◌, ◌≤◌, ◌<◌, ◌≡◌, inl, inr, List, [], ◌∷◌, Option, none, some, Bool, true,
  false, not, ◌&&◌, ltb, leb, Bool-cases, if◌then◌else◌, arith, refl, ◌∙◌, sym,
}
use lbu.Common.Words.{add_word, sub_word, mul_word, add_word_exact, sub_word_exact, mul_word_exact}
use lbu.Ascii.{is_digit}
use lbu.Ascii.Decimal.{scan}

pub is_digit_eq : (c : ℕ) → c < 256 → is_digit c ≡ (leb 0x30 c && leb c 0x39)
unfolding is_digit
is_digit_eq c h = ground arith

-- Characters are bytes.
abbrev pub Bytes : List ℕ → Type 0
Bytes [] = Unit
Bytes (c ∷ s) = (c < 256) × Bytes s

-- The text is all digits.
abbrev pub all_digits : List ℕ → Bool
all_digits [] = true
all_digits (c ∷ s) = is_digit c && all_digits s

-- The number that digits spell behind `n`, with no bound.
abbrev pub spell : ℕ → List ℕ → ℕ
spell n [] = n
spell n (c ∷ s) = spell (n * 10 + (c - 0x30)) s

is_digit_bounds : (c : ℕ) → c < 256 → is_digit c ≡ true → (48 ≤ c) × (c ≤ 57)
is_digit_bounds c h e = ground (arith, is_digit_eq c h)

le-spell : (n : ℕ) (s : List ℕ) → n ≤ spell n s
le-spell n [] = omega arith
le-spell n (c ∷ s) = omega (arith, le-spell (n * 10 + (c - 0x30)) s)

abbrev pub within : ℕ → ℕ → List ℕ → Option ℕ
within top n s = if all_digits s && leb (spell n s) top then some (spell n s) else none

scan-nil : (m top n : ℕ) → n ≤ top → scan m top [] n ≡ within top n []
unfolding scan
scan-nil m top n l = let e : leb n top ≡ true = ground arith in rw e refl

pub scan-cons :
    (m top c : ℕ) (s : List ℕ) (n : ℕ)
    → scan m top (c ∷ s) n ≡ (
        if not (is_digit c)
        then none
        else if ltb (top / 10) n
        then none
        else if ltb (sub_word m top (c - 0x30)) (mul_word m n 10)
        then none
        else scan m top s (add_word m (mul_word m n 10) (c - 0x30)))
unfolding scan
scan-cons m top c s n = refl

pub within_above : (top n : ℕ) (s : List ℕ) → top < n → within top n s ≡ none
within_above top n s h = elim (Bool-cases (all_digits s)) [
  | inl digits ↦
      let e : leb (spell n s) top ≡ false = ground (arith, le-spell n s) in rw (digits, e) refl
  | inr other ↦ rw other refl
]

within-cons :
    (top n c : ℕ) (s : List ℕ)
    → is_digit c ≡ true
    → within top n (c ∷ s) ≡ within top (n * 10 + (c - 0x30)) s
within-cons top n c s digit = rw digit refl

-- A digit is read as the code does, or refused where the value would pass the limit.
digit_step :
    (m top c n : ℕ) (s : List ℕ)
    → 9 ≤ top
    → top < m
    → c ≤ 57
    → (n * 10 + (c - 0x30) ≤ top
        → scan m top s (n * 10 + (c - 0x30)) ≡ within top (n * 10 + (c - 0x30)) s)
    → (if ltb (top / 10) n
        then none
        else if ltb (sub_word m top (c - 0x30)) (mul_word m n 10)
        then none
        else scan m top s (add_word m (mul_word m n 10) (c - 0x30)))
      ≡ within top (n * 10 + (c - 0x30)) s
digit_step m top c n s h k d ih = elim (Bool-cases (ltb (top / 10) n)) [
  | inl large ↦ rw large (sym (within_above top (n * 10 + (c - 0x30)) s (ground arith)))
  | inr small ↦
      let e : mul_word m n 10 ≡ n * 10 = mul_word_exact m n 10 (ground arith) in
      let f : sub_word m top (c - 0x30) ≡ top - (c - 0x30) =
        sub_word_exact m top (c - 0x30) (omega arith) k in
      rw (small, e, f)
        (elim (Bool-cases (ltb (top - (c - 0x30)) (n * 10))) [
          | inl over ↦ rw over (sym (within_above top (n * 10 + (c - 0x30)) s (ground arith)))
          | inr room ↦
              rw (room, add_word_exact m (n * 10) (c - 0x30) (ground arith)) (ih (ground arith))
        ])
]

-- The scan of a text from a value within the limit: the number that it spells, if it is all digits
-- and the number keeps to the limit, and nothing otherwise; no step wraps.
pub scan_eq :
    (m top : ℕ) (s : List ℕ) (n : ℕ)
    → 9 ≤ top
    → top < m
    → n ≤ top
    → Bytes s
    → scan m top s n ≡ within top n s
scan_eq m top [] n h k l b = scan-nil m top n l
scan_eq m top (c ∷ s) n h k l (b, bs) = elim (Bool-cases (is_digit c)) [
  | inl digit ↦
      scan-cons m top c s n
      ∙ rw digit (
          digit_step m top c n s h k ((is_digit_bounds c b digit).1)
            (λ room. scan_eq m top s (n * 10 + (c - 0x30)) h k room bs))
  | inr other ↦ scan-cons m top c s n ∙ rw other refl
]
