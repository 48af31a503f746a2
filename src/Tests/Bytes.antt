-- ===== src/Tests/Bytes.antt =====
-- core/lbu/endian.h at concrete values.
use lbu.Common.{◌≡◌, arith}
use mathlib.Core.List.{reverse}
use lbu.Endian.{from_little, from_big, to_little, to_big}
use lbu.Endian.RoundTrip.{from-to}

from-to_example :
    (from_little 4 (to_little 4 0x12345678) ≡ 0x12345678)
    × (from_big 4 (to_big 4 0x12345678) ≡ 0x12345678)
    × (to_big 4 0x12345678 ≡ reverse (to_little 4 0x12345678))
from-to_example = from-to 4 0x12345678 (omega arith)
