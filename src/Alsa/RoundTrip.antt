-- ===== src/Alsa/RoundTrip.antt =====
-- alsa/lbu/alsa/alsa.h: samples that are written and then read in one format.
use lbu.Common.{ℕ, ◌-◌, ◌^◌, ◌≤◌, ◌<◌, ◌⊎◌}
use lbu.Alsa.{
  PcmFormat, s16_le, s16_be, s18_3le, s18_3be, s20_le, s20_be, s20_3le, s20_3be, s24_le, s24_be,
  s24_3le, s24_3be, s32_le, s32_be,
}

-- The bits of a sample of a signed format of integers that `read_i32` knows; 0 for the others.
unfoldable pub sample_bits : PcmFormat → ℕ
sample_bits s16_le = 16
sample_bits s16_be = 16
sample_bits s18_3le = 18
sample_bits s18_3be = 18
sample_bits s20_le = 20
sample_bits s20_be = 20
sample_bits s20_3le = 20
sample_bits s20_3be = 20
sample_bits s24_le = 24
sample_bits s24_be = 24
sample_bits s24_3le = 24
sample_bits s24_3be = 24
sample_bits s32_le = 32
sample_bits s32_be = 32
sample_bits _ = 0

-- The pattern of an `int32_t` that has a value of `w` bits.
abbrev pub Fits : ℕ → ℕ → Type 0
Fits w v = (v < 2 ^ (w - 1)) ⊎ ((2 ^ 32 - 2 ^ (w - 1) ≤ v) × (v < 2 ^ 32))
