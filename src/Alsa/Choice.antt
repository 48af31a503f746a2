-- ===== src/Alsa/Choice.antt =====
-- alsa/alsa.cpp: the format and the rate chosen when the device does not have the one asked for.
use lbu.Common.{ℕ, List, [], ◌∷◌, ◌++◌, Option, none, some, Bool, ltb, if◌then◌else◌}
use lbu.Alsa.{
  PcmFormat, unknown, s8, s16_le, s16_be, s18_3le, s18_3be, s20_3le, s20_3be, s24_le, s24_be,
  s24_3le, s24_3be, s32_le, s32_be, float_le, float_be, float64_le, float64_be,
}

abbrev s16 : List PcmFormat
s16 = s16_le ∷ s16_be ∷ []

abbrev s18 : List PcmFormat
s18 = s18_3le ∷ s18_3be ∷ []

abbrev s20 : List PcmFormat
s20 = s20_3le ∷ s20_3be ∷ []

abbrev s24 : List PcmFormat
s24 = s24_le ∷ s24_be ∷ s24_3le ∷ s24_3be ∷ []

abbrev s32 : List PcmFormat
s32 = s32_le ∷ s32_be ∷ []

abbrev float : List PcmFormat
float = float_le ∷ float_be ∷ []

abbrev f64 : List PcmFormat
f64 = float64_le ∷ float64_be ∷ []

abbrev pub s16_fallback : List PcmFormat
s16_fallback = s16 ++ s24 ++ s32 ++ float ++ f64 ++ s20 ++ s18

abbrev pub s18_fallback : List PcmFormat
s18_fallback = s18 ++ s20 ++ s24 ++ s32 ++ float ++ f64 ++ s16

abbrev pub s20_fallback : List PcmFormat
s20_fallback = s20 ++ s24 ++ s32 ++ float ++ f64 ++ s18 ++ s16

abbrev pub s24_fallback : List PcmFormat
s24_fallback = s24 ++ s32 ++ float ++ f64 ++ s20 ++ s18 ++ s16

abbrev pub s32_fallback : List PcmFormat
s32_fallback = s32 ++ f64 ++ float ++ s24 ++ s20 ++ s18 ++ s16

abbrev pub float_fallback : List PcmFormat
float_fallback = float ++ f64 ++ s32 ++ s24 ++ s20 ++ s18 ++ s16

abbrev pub f64_fallback : List PcmFormat
f64_fallback = f64 ++ float ++ s32 ++ s24 ++ s20 ++ s18 ++ s16

-- The formats tried, in order: none where the code asserts that it is never called.
unfoldable pub fallback : PcmFormat → List PcmFormat
fallback s8 = s16_fallback
fallback s16_le = s16_fallback
fallback s16_be = s16_fallback
fallback s18_3le = s18_fallback
fallback s18_3be = s18_fallback
fallback s20_3le = s20_fallback
fallback s20_3be = s20_fallback
fallback s24_le = s24_fallback
fallback s24_be = s24_fallback
fallback s24_3le = s24_fallback
fallback s24_3be = s24_fallback
fallback s32_le = s32_fallback
fallback s32_be = s32_fallback
fallback float_le = float_fallback
fallback float_be = float_fallback
fallback float64_le = f64_fallback
fallback float64_be = f64_fallback
fallback _ = []

-- The loops over the formats; `mask` is `snd_pcm_format_mask_test`.
unfoldable pub first_in : (PcmFormat → Bool) → List PcmFormat → PcmFormat → PcmFormat
first_in mask [] otherwise = otherwise
first_in mask (f ∷ fs) otherwise =
    let rest = first_in mask fs otherwise in if mask f then f else rest

unfoldable pub best_fallback_signed_linear_pcm_format_type :
    (PcmFormat → Bool) → PcmFormat → PcmFormat
unfolding fallback first_in
best_fallback_signed_linear_pcm_format_type mask type =
    first_in mask (fallback type) (if mask s8 then s8 else unknown)

-- `set_best_signed_linear_pcm_format_type`: the format that is set, or the error. The parameter is
-- `snd_pcm_hw_params_set_format`, which gives an error or none; `err` is that of the first try.
unfoldable pub set_best_signed_linear_pcm_format_type :
    (PcmFormat → Option ℕ) → (PcmFormat → Bool) → PcmFormat → PcmFormat × Option ℕ
unfolding best_fallback_signed_linear_pcm_format_type
set_best_signed_linear_pcm_format_type set_format mask type = elim (set_format type) [
  | none ↦ (type, none)
  | some err ↦
      let f = best_fallback_signed_linear_pcm_format_type mask type in
      let tried : PcmFormat × Option ℕ = elim (set_format f) [
        | none ↦ (f, none)
        | some err' ↦ (unknown, some err')
      ] in
      elim f [ unknown ↦ (unknown, some err) | _ ↦ tried ]
]

-- What the sound library does with the parameters of a device: `set_rate` of a rate and a direction,
-- `get_rate` after it, and the least and the greatest rate with their directions.
pub record RateCalls : Type 0 where
  pub set_rate : ℕ → ℕ → Option ℕ
  pub get_rate : ℕ → ℕ → ℕ × Option ℕ
  pub rate_min : ℕ × ℕ × Option ℕ
  pub rate_max : ℕ × ℕ × Option ℕ

abbrev Rate : Type 0
Rate = ℕ × Option ℕ

-- `if( err = ...; err < 0 ) goto fail;`, and what comes after it
abbrev or_fail : Option ℕ → Rate → Rate
or_fail none rest = rest
or_fail (some err) rest = (0, some err)

-- The rate that is set, or 0 and the error.
unfoldable pub set_best_matching_sample_rate : RateCalls → ℕ → ℕ × Option ℕ
set_best_matching_sample_rate calls rate =
    let (min_rate, dir_min, err_min) = calls.rate_min in
    let (max_rate, dir_max, err_max) = calls.rate_max in
    let (near, err_get) = calls.get_rate rate 1 in
    let chosen : Rate =
      if ltb max_rate rate
      then or_fail (calls.set_rate max_rate dir_max) (max_rate, none)
      else if ltb rate min_rate
      then or_fail (calls.set_rate min_rate dir_min) (min_rate, none)
      else or_fail (calls.set_rate rate 1) (or_fail err_get (near, none)) in
    elim (calls.set_rate rate 0) [
      | none ↦ (rate, none)
      | some err ↦ or_fail err_min (or_fail err_max chosen)
    ]
