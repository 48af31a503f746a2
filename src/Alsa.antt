-- ===== src/Alsa.antt =====
-- alsa/lbu/alsa/alsa.h: the formats of samples, and the sizes of samples and frames.
pub mod Samples
pub mod RoundTrip
pub mod Choice
pub mod Fallback
pub mod Devices
use lbu.Common.{ℕ, ◌*◌, ◌^◌, Bool, true, false}
use lbu.Common.Words.{mul_word}

-- The formats of the sound library that the code names; `unknown` stands for the others too.
pub data PcmFormat : Type 0 where
  s8 u8 s16_le s16_be u16_le u16_be s20_le s20_be u20_le u20_be s24_le s24_be u24_le u24_be :
      PcmFormat
  s32_le s32_be u32_le u32_be float_le float_be float64_le float64_be s18_3le s18_3be : PcmFormat
  u18_3le u18_3be s20_3le s20_3be u20_3le u20_3be s24_3le s24_3be u24_3le u24_3be unknown :
      PcmFormat

unfoldable pub is_linear_pcm_format_type : PcmFormat → Bool
is_linear_pcm_format_type unknown = false
is_linear_pcm_format_type _ = true

unfoldable pub is_signed_linear_pcm_format_type : PcmFormat → Bool
is_signed_linear_pcm_format_type s8 = true
is_signed_linear_pcm_format_type s16_le = true
is_signed_linear_pcm_format_type s16_be = true
is_signed_linear_pcm_format_type s20_le = true
is_signed_linear_pcm_format_type s20_be = true
is_signed_linear_pcm_format_type s24_le = true
is_signed_linear_pcm_format_type s24_be = true
is_signed_linear_pcm_format_type s32_le = true
is_signed_linear_pcm_format_type s32_be = true
is_signed_linear_pcm_format_type float_le = true
is_signed_linear_pcm_format_type float_be = true
is_signed_linear_pcm_format_type float64_le = true
is_signed_linear_pcm_format_type float64_be = true
is_signed_linear_pcm_format_type s18_3le = true
is_signed_linear_pcm_format_type s18_3be = true
is_signed_linear_pcm_format_type s20_3le = true
is_signed_linear_pcm_format_type s20_3be = true
is_signed_linear_pcm_format_type s24_3le = true
is_signed_linear_pcm_format_type s24_3be = true
is_signed_linear_pcm_format_type _ = false

-- The result is 0 where the code asserts that it is never called.
unfoldable pub native_byte_size : PcmFormat → ℕ
native_byte_size s8 = 1
native_byte_size u8 = 1
native_byte_size s16_le = 2
native_byte_size s16_be = 2
native_byte_size u16_le = 2
native_byte_size u16_be = 2
native_byte_size s20_le = 4
native_byte_size s20_be = 4
native_byte_size u20_le = 4
native_byte_size u20_be = 4
native_byte_size s24_le = 4
native_byte_size s24_be = 4
native_byte_size u24_le = 4
native_byte_size u24_be = 4
native_byte_size s32_le = 4
native_byte_size s32_be = 4
native_byte_size u32_le = 4
native_byte_size u32_be = 4
native_byte_size float_le = 4
native_byte_size float_be = 4
native_byte_size s18_3le = 4
native_byte_size s18_3be = 4
native_byte_size u18_3le = 4
native_byte_size u18_3be = 4
native_byte_size s20_3le = 4
native_byte_size s20_3be = 4
native_byte_size u20_3le = 4
native_byte_size u20_3be = 4
native_byte_size s24_3le = 4
native_byte_size s24_3be = 4
native_byte_size u24_3le = 4
native_byte_size u24_3be = 4
native_byte_size float64_le = 8
native_byte_size float64_be = 8
native_byte_size _ = 0

unfoldable pub packed_byte_size : PcmFormat → ℕ
packed_byte_size s8 = 1
packed_byte_size u8 = 1
packed_byte_size s16_le = 2
packed_byte_size s16_be = 2
packed_byte_size u16_le = 2
packed_byte_size u16_be = 2
packed_byte_size s20_le = 4
packed_byte_size s20_be = 4
packed_byte_size u20_le = 4
packed_byte_size u20_be = 4
packed_byte_size s24_le = 4
packed_byte_size s24_be = 4
packed_byte_size u24_le = 4
packed_byte_size u24_be = 4
packed_byte_size s32_le = 4
packed_byte_size s32_be = 4
packed_byte_size u32_le = 4
packed_byte_size u32_be = 4
packed_byte_size float_le = 4
packed_byte_size float_be = 4
packed_byte_size float64_le = 8
packed_byte_size float64_be = 8
packed_byte_size s18_3le = 3
packed_byte_size s18_3be = 3
packed_byte_size u18_3le = 3
packed_byte_size u18_3be = 3
packed_byte_size s20_3le = 3
packed_byte_size s20_3be = 3
packed_byte_size u20_3le = 3
packed_byte_size u20_3be = 3
packed_byte_size s24_3le = 3
packed_byte_size s24_3be = 3
packed_byte_size u24_3le = 3
packed_byte_size u24_3be = 3
packed_byte_size _ = 0

-- The sizes are of type `unsigned`.
unfoldable pub frame_native_byte_size : PcmFormat → ℕ → ℕ
frame_native_byte_size linear_pcm_type channels =
    mul_word (2 ^ 32) (native_byte_size linear_pcm_type) channels

unfoldable pub frame_packed_byte_size : PcmFormat → ℕ → ℕ
frame_packed_byte_size linear_pcm_type channels =
    mul_word (2 ^ 32) (packed_byte_size linear_pcm_type) channels
