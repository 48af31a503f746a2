-- ===== src/Tests/Sound.antt =====
-- alsa/lbu/alsa/alsa.h and alsa/alsa.cpp at concrete formats.
use lbu.Common.{List, ℕ, ◌≤◌, ◌≡◌, Bool, true, false, [], ◌∷◌, arith, refl}
use lbu.Alsa.{
  PcmFormat, s24_3le, s16_le, s32_le, s20_le, s20_be, unknown, is_signed_linear_pcm_format_type,
}
use lbu.Alsa.Choice.{best_fallback_signed_linear_pcm_format_type}
use lbu.Alsa.Fallback.{precision, best_fallback_lem, best_fallback-unknown}
use lbu.Alsa.Devices.{device_flags, direct_hardware, auto_converting, no_flags}

abbrev four : List ℕ
four = 9 ∷ 9 ∷ 9 ∷ 9 ∷ []

-- A device that has 16 and 32 bits.
abbrev mask : PcmFormat → Bool
mask s16_le = true
mask s32_le = true
mask _ = false

best_fallback_lem_example :
    (mask (best_fallback_signed_linear_pcm_format_type mask s24_3le) ≡ true)
    × (precision s24_3le ≤ precision s32_le
        → precision s24_3le ≤ precision (best_fallback_signed_linear_pcm_format_type mask s24_3le))
unfolding precision
best_fallback_lem_example = best_fallback_lem mask s24_3le s32_le (omega arith) (omega arith) refl

best_fallback-unknown_example :
    (is_signed_linear_pcm_format_type s20_le ≡ true)
    × (is_signed_linear_pcm_format_type s20_be ≡ true)
    × (best_fallback_signed_linear_pcm_format_type mask s20_le ≡ unknown)
    × (best_fallback_signed_linear_pcm_format_type mask s20_be ≡ unknown)
best_fallback-unknown_example = best_fallback-unknown mask refl

device_names :
    (device_flags (104 ∷ 119 ∷ 58 ∷ 49 ∷ []) ≡ direct_hardware)
    × (device_flags (112 ∷ 108 ∷ 117 ∷ 103 ∷ 104 ∷ 119 ∷ 58 ∷ []) ≡ auto_converting)
    × (device_flags (104 ∷ 119 ∷ []) ≡ no_flags)
unfolding device_flags
device_names = (refl, refl, refl)
