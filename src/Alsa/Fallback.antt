-- ===== src/Alsa/Fallback.antt =====
-- alsa/alsa.cpp: the fallback for a format that the device does not have.
use lbu.Common.{
  either_when, ltb, ◌||◌, ℕ, ◌≤◌, ◌<◌, ◌≡◌, ◌⊎◌, inl, inr, Bool, true, false, leb, ◌&&◌, List, [],
  ◌∷◌, arith, refl, ap, ◌∙◌, if◌then◌else◌,
}
use lbu.Alsa.{
  PcmFormat, unknown, s8, s16_le, s16_be, s18_3le, s18_3be, s20_le, s20_be, s20_3le, s20_3be,
  s24_le, s24_be, s24_3le, s24_3be, s32_le, s32_be, float_le, float_be, float64_le, float64_be,
  is_signed_linear_pcm_format_type,
}
use lbu.Alsa.Choice.{fallback, first_in, best_fallback_signed_linear_pcm_format_type}

-- The bits that a sample of the format keeps, for the signed formats that the fallbacks name; those of
-- a float are its significand's. 0 for the others.
unfoldable pub precision : PcmFormat → ℕ
precision s8 = 8
precision s16_le = 16
precision s16_be = 16
precision s18_3le = 18
precision s18_3be = 18
precision s20_3le = 20
precision s20_3be = 20
precision s24_le = 24
precision s24_be = 24
precision s24_3le = 24
precision s24_3be = 24
precision s32_le = 32
precision s32_be = 32
precision float_le = 24
precision float_be = 24
precision float64_le = 53
precision float64_be = 53
precision _ = 0

PcmFormat-discrete : Discrete PcmFormat
PcmFormat-discrete = hlevel

abbrev contains : PcmFormat → List PcmFormat → Bool
contains f [] = false
contains f (x ∷ xs) =
    let rest = contains f xs in elim (PcmFormat-discrete f x) [ yes _ ↦ true | no _ ↦ rest ]

-- Behind a format of a lower precision come none of a higher one.
abbrev all_below : ℕ → List PcmFormat → Bool
all_below b [] = true
all_below b (x ∷ xs) = ltb (precision x) b && all_below b xs

abbrev ordered : ℕ → List PcmFormat → Bool
ordered b [] = true
ordered b (x ∷ xs) = let rest = ordered b xs in if leb b (precision x) then rest else all_below b xs

fallback-contains :
    (type f : PcmFormat)
    → (leb (precision type) 0 || (leb (precision f) 8 || contains f (fallback type))) ≡ true
unfolding precision fallback PcmFormat-discrete
fallback-contains s8 s8 = refl
fallback-contains s8 _ = refl
fallback-contains _ s8 = refl
fallback-contains _ _ = refl

fallback-ordered : (type : PcmFormat) → ordered (precision type) (fallback type) ≡ true
unfolding precision fallback
fallback-ordered s8 = refl
fallback-ordered _ = refl

contains-cons :
    (f x : PcmFormat) (xs : List PcmFormat)
    → contains f (x ∷ xs) ≡ true
    → (f ≡ x) ⊎ (contains f xs ≡ true)
contains-cons f x xs h = split (PcmFormat-discrete f x) h
  where
    split :
        (d : Dec (f ≡ x))
        → (elim d [ yes _ ↦ true | no _ ↦ contains f xs ]) ≡ true
        → (f ≡ x) ⊎ (contains f xs ≡ true)
    split (yes e) h = inl e
    split (no n) h = inr h

below_all :
    (b : ℕ) (f : PcmFormat) (l : List PcmFormat)
    → all_below b l ≡ true
    → contains f l ≡ true
    → precision f < b
below_all b f [] h i = absurd (ground arith)
below_all b f (x ∷ xs) h i = elim (contains-cons f x xs i) [
  | inl e ↦ let g : precision f ≡ precision x = ap precision e in ground (arith, h, g)
  | inr j ↦ below_all b f xs (ground (arith, h)) j
]

ordered-cons :
    (b : ℕ) (x : PcmFormat) (xs : List PcmFormat)
    → ordered b (x ∷ xs) ≡ true
    → ((b ≤ precision x) × (ordered b xs ≡ true)) ⊎ ((precision x < b) × (all_below b xs ≡ true))
ordered-cons b x xs h = split (leb b (precision x)) refl h
  where
    split :
        (c : Bool)
        → leb b (precision x) ≡ c
        → (if c then ordered b xs else all_below b xs) ≡ true
        → ((b ≤ precision x) × (ordered b xs ≡ true))
          ⊎ ((precision x < b) × (all_below b xs ≡ true))
    split true e h = inl (ground arith, h)
    split false e h = inr (ground arith, h)

first_in-keeps :
    (mask : PcmFormat → Bool) (f : PcmFormat) (b : ℕ) (l : List PcmFormat) (otherwise : PcmFormat)
    → mask f ≡ true
    → b ≤ precision f
    → contains f l ≡ true
    → ordered b l ≡ true
    → (mask (first_in mask l otherwise) ≡ true) × (b ≤ precision (first_in mask l otherwise))
unfolding first_in
first_in-keeps mask f b [] otherwise on le i o = absurd (ground arith)
first_in-keeps mask f b (x ∷ xs) otherwise on le i o =
    either_when (λ r. (mask r ≡ true) × (b ≤ precision r)) (mask x) _ _
      (λ e. elim (ordered-cons b x xs o) [
        | inl (l, _) ↦ (e, l)
        | inr (lt, below) ↦ elim (contains-cons f x xs i) [
          | inl g ↦ let k : precision f ≡ precision x = ap precision g in absurd (omega (arith, k))
          | inr j ↦ absurd (omega (arith, below_all b f xs below j))
        ]
      ])
      (λ e. elim (contains-cons f x xs i) [
        | inl g ↦ let k : mask f ≡ false = ap mask g ∙ e in absurd (ground (arith, on, k))
        | inr j ↦ elim (ordered-cons b x xs o) [
          | inl (_, o') ↦ first_in-keeps mask f b xs otherwise on le j o'
          | inr (_, below) ↦ absurd (omega (arith, below_all b f xs below j))
        ]
      ])

ordered_zero : (l : List PcmFormat) → ordered 0 l ≡ true
ordered_zero [] = refl
ordered_zero (x ∷ xs) =
    either_when (λ (c : Bool). c ≡ true) (leb 0 (precision x)) _ _ (λ e. ordered_zero xs)
      (λ e. absurd (ground arith))

-- For a format that the code names, and any set of formats with one of more than eight bits of these:
-- the fallback is in the set; and where a format of the set keeps the precision of the one asked for,
-- so does the fallback.
pub best_fallback_lem :
    (mask : PcmFormat → Bool) (type f : PcmFormat)
    → 0 < precision type
    → 8 < precision f
    → mask f ≡ true
    → (mask (best_fallback_signed_linear_pcm_format_type mask type) ≡ true)
      × (precision type ≤ precision f
          → precision type ≤ precision (best_fallback_signed_linear_pcm_format_type mask type))
unfolding best_fallback_signed_linear_pcm_format_type
best_fallback_lem mask type f known wide on =
    let i : contains f (fallback type) ≡ true = ground (arith, fallback-contains type f) in
    (
      (first_in-keeps mask f 0 (fallback type) _ on (omega arith) i
          (ordered_zero (fallback type))).0,
      λ le.
          (first_in-keeps mask f (precision type) (fallback type) _ on le i
            (fallback-ordered type)).1,
    )

-- A format of 20 bits in four bytes counts as signed and linear, but has no fallbacks: unless the
-- device has `s8`, none is found, whatever else it has.
pub best_fallback-unknown :
    (mask : PcmFormat → Bool)
    → mask s8 ≡ false
    → (is_signed_linear_pcm_format_type s20_le ≡ true)
      × (is_signed_linear_pcm_format_type s20_be ≡ true)
      × (best_fallback_signed_linear_pcm_format_type mask s20_le ≡ unknown)
      × (best_fallback_signed_linear_pcm_format_type mask s20_be ≡ unknown)
unfolding best_fallback_signed_linear_pcm_format_type fallback first_in
    is_signed_linear_pcm_format_type
best_fallback-unknown mask off = rw off (refl, refl, refl, refl)
