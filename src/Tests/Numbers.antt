-- ===== src/Tests/Numbers.antt =====
-- core/lbu/math.h and core/lbu/memory.h at concrete numbers.
use lbu.Common.{◌^◌, ℕ, ◌+◌, ◌%◌, ◌≤◌, ◌<◌, ◌≡◌, List, [], ◌∷◌, arith, refl, some}
use lbu.Math.{ilog_floor, ipow}
use lbu.Math.Power.{ipow_lem}
use lbu.Math.Log.{IsLog, ilog_floor_lem}
use lbu.Memory.{
  BufferSpec, empty, add_member_raw, alignment_mask, align_down, align_up, align_up_diff,
}
use lbu.Common.Words.{add_word, sub_word}
use lbu.Memory.Alignment.{align_up_lem}
use lbu.Memory.Layout.{add_all, offsets, Tiled, add_all-Tiled}

ilog_floor_lem_example : (r : ℕ) × (ilog_floor 10 1234 ≡ some r) × IsLog 10 1234 r
ilog_floor_lem_example = ilog_floor_lem 10 1234 (omega arith) (omega arith)

align_up_lem_example :
    (29 ≤ align_up 29 8)
    × (align_up 29 8 < 29 + 8)
    × (align_up 29 8 % 8 ≡ 0)
    × (29 + align_up_diff 29 8 ≡ align_up 29 8)
align_up_lem_example = align_up_lem 29 3 (omega arith) (omega arith)

-- A byte, then a word of eight bytes
abbrev members : List BufferSpec
members = record { size = 1; align = 1 } ∷ record { size = 8; align = 8 } ∷ []

add_all-Tiled_example : Tiled 0 members (offsets empty members) (add_all empty members).size
unfolding add_member_raw align_up align_down alignment_mask add_word sub_word
add_all-Tiled_example =
    add_all-Tiled empty members ((0, omega arith, refl), ((3, omega arith, refl), tt)) (omega arith)

ipow_lem_example : ipow (2 ^ 32) 3 7 ≡ some (3 ^ 7 % 2 ^ 32)
ipow_lem_example = ipow_lem (2 ^ 32) 3 7 (omega arith)
