-- ===== src/Alsa/Samples.antt =====
-- alsa/lbu/alsa/alsa.h: the samples of a channel, read and written in their formats.
use lbu.Common.{ℕ, ◌/◌, ◌%◌, ◌^◌, List, take, drop, leb, if◌then◌else◌}
use lbu.Common.Bytes
use lbu.Common.Words.{add_word, sub_word, mul_word}
use lbu.Endian.{
  from_little, from_big, to_little, to_big, or_from, from_little_endian_u24_packed,
  from_big_endian_u24_packed, from_little_endian_s24_packed, from_big_endian_s24_packed,
}
use lbu.Alsa.{
  PcmFormat, s16_le, s16_be, s18_3le, s18_3be, s20_le, s20_be, s20_3le, s20_3be, s24_le, s24_be,
  s24_3le, s24_3be, s32_le, s32_be, float_le, float_be, float64_le, float64_be,
}

abbrev pub word : ℕ
word = 2 ^ 64

-- `snd_pcm_channel_area_t`, with its counts of bits
pub record ChannelArea : Type 0 where
  pub addr : ℕ
  pub first : ℕ
  pub step : ℕ

-- `pcm_buffer`; the areas are given by the channel.
pub record PcmBuffer : Type 0 where
  pub areas : ℕ → ChannelArea
  pub offset : ℕ
  pub frames : ℕ

pub record ChannelIter : Type 0 where
  pub d : ℕ
  pub stride : ℕ

unfoldable pub begin : PcmBuffer → ℕ → ChannelIter
begin buffer channel =
    let area = buffer.areas channel in
    let stride = area.step / 8 in
    record {
      d =
          add_word word (add_word word area.addr (area.first / 8))
            (mul_word word stride buffer.offset);
      stride = stride;
    }

-- `++`
unfoldable pub increment : ChannelIter → ChannelIter
increment it = record it { d = add_word word it.d it.stride }

-- `--`
unfoldable pub decrement : ChannelIter → ChannelIter
decrement it = record it { d = sub_word word it.d it.stride }

-- The memory from `d` on is the list of its bytes, and a value is a bit pattern. The result is 0 where
-- the code asserts that it is never called.
unfoldable pub read_i16 : List ℕ → PcmFormat → ℕ
read_i16 d s16_be = from_big 2 d
read_i16 d s16_le = from_little 2 d
read_i16 d _ = 0

-- An `int16_t` as an `int32_t`.
unfoldable pub widen : ℕ → ℕ
widen v = if leb (2 ^ 15) v then or_from 16 v else v

-- `if( v >= (uint32_t(1) << (w - 1)) ) v |= mask`, with the limit for an argument
unfoldable pub extend : ℕ → ℕ → ℕ → ℕ
extend limit w v = if leb limit v then or_from w v else v

unfoldable pub read_i32 : List ℕ → PcmFormat → ℕ
read_i32 d s16_be = widen (read_i16 d s16_be)
read_i32 d s16_le = widen (read_i16 d s16_le)
read_i32 d s24_le = from_little_endian_s24_packed d
read_i32 d s24_3le = from_little_endian_s24_packed d
read_i32 d s20_le = extend (2 ^ 19) 20 (from_little_endian_u24_packed d)
read_i32 d s20_3le = extend (2 ^ 19) 20 (from_little_endian_u24_packed d)
read_i32 d s18_3le = extend (2 ^ 17) 18 (from_little_endian_u24_packed d)
read_i32 d s24_be = from_big_endian_s24_packed (drop 1 d)
read_i32 d s24_3be = from_big_endian_s24_packed d
read_i32 d s20_be = extend (2 ^ 19) 20 (from_big_endian_u24_packed (drop 1 d))
read_i32 d s20_3be = extend (2 ^ 19) 20 (from_big_endian_u24_packed d)
read_i32 d s18_3be = extend (2 ^ 17) 18 (from_big_endian_u24_packed d)
read_i32 d s32_le = from_little 4 d
read_i32 d s32_be = from_big 4 d
read_i32 d _ = 0

unfoldable pub read_f : List ℕ → PcmFormat → ℕ
read_f d float_be = from_big 4 d
read_f d float_le = from_little 4 d
read_f d _ = 0

unfoldable pub read_d : List ℕ → PcmFormat → ℕ
read_d d float64_be = from_big 8 d
read_d d float64_le = from_little 8 d
read_d d _ = 0

-- The result is the memory from `d` on.
unfoldable pub write_i16 : ℕ → PcmFormat → List ℕ → List ℕ
write_i16 value s16_be d = Bytes.write d 0 (to_big 2 value)
write_i16 value s16_le d = Bytes.write d 0 (to_little 2 value)
write_i16 value _ d = d

unfoldable pub write_i32 : ℕ → PcmFormat → List ℕ → List ℕ
write_i32 value s16_be d = write_i16 (value % 2 ^ 16) s16_be d
write_i32 value s16_le d = write_i16 (value % 2 ^ 16) s16_le d
write_i32 value s20_le d = Bytes.write d 0 (take 4 (to_little 4 value))
write_i32 value s24_le d = Bytes.write d 0 (take 4 (to_little 4 value))
write_i32 value s32_le d = Bytes.write d 0 (take 4 (to_little 4 value))
write_i32 value s20_be d = Bytes.write d 0 (take 4 (to_big 4 value))
write_i32 value s24_be d = Bytes.write d 0 (take 4 (to_big 4 value))
write_i32 value s32_be d = Bytes.write d 0 (take 4 (to_big 4 value))
write_i32 value s24_3le d = Bytes.write d 0 (take 3 (to_little 4 value))
write_i32 value s20_3le d = Bytes.write d 0 (take 3 (to_little 4 value))
write_i32 value s18_3le d = Bytes.write d 0 (take 3 (to_little 4 value))
write_i32 value s24_3be d = Bytes.write d 0 (take 3 (drop 1 (to_big 4 value)))
write_i32 value s20_3be d = Bytes.write d 0 (take 3 (drop 1 (to_big 4 value)))
write_i32 value s18_3be d = Bytes.write d 0 (take 3 (drop 1 (to_big 4 value)))
write_i32 value _ d = d

unfoldable pub write_f : ℕ → PcmFormat → List ℕ → List ℕ
write_f value float_be d = Bytes.write d 0 (to_big 4 value)
write_f value float_le d = Bytes.write d 0 (to_little 4 value)
write_f value _ d = d

unfoldable pub write_d : ℕ → PcmFormat → List ℕ → List ℕ
write_d value float64_be d = Bytes.write d 0 (to_big 8 value)
write_d value float64_le d = Bytes.write d 0 (to_little 8 value)
write_d value _ d = d
