-- ===== src/Alsa/Devices.antt =====
-- alsa/lbu/alsa/alsa.h: the search for a card, and what the name of a device says of it.
use lbu.Common.{ℕ, ◌==◌, List, [], ◌∷◌, Option, none, some, Bool, true, false, ◌&&◌, if◌then◌else◌}

-- A string is the list of its characters before the terminator.
abbrev pub CStr : Type 0
CStr = List ℕ

-- `strcmp(a, b) == 0`
unfoldable pub equal : CStr → CStr → Bool
equal [] [] = true
equal [] (y ∷ ys) = false
equal (x ∷ xs) [] = false
equal (x ∷ xs) (y ∷ ys) = x == y && equal xs ys

-- `strncmp(a, prefix, n) == 0`, where `n` is the length of the second string
unfoldable pub starts : CStr → CStr → Bool
starts xs [] = true
starts [] (y ∷ ys) = false
starts (x ∷ xs) (y ∷ ys) = x == y && starts xs ys

-- A card of the sound library, with its index and its names.
pub record Card : Type 0 where
  pub index : ℕ
  pub name : CStr
  pub longname : CStr

-- `none` is -1.
unfoldable pub index_for_name : List Card → CStr → Option ℕ
unfolding equal
index_for_name [] name = none
index_for_name (c ∷ cards) name =
    let rest = index_for_name cards name in if equal name c.name then some c.index else rest

unfoldable pub index_for_longname : List Card → CStr → Option ℕ
unfolding equal
index_for_longname [] longname = none
index_for_longname (c ∷ cards) longname =
    let rest = index_for_longname cards longname in
    if equal longname c.longname then some c.index else rest

pub data Direction : Type 0 where
  playback capture both : Direction

-- The hint is absent, "Output", or another string.
unfoldable pub direction : Option CStr → Direction
unfolding equal
direction none = both
direction (some s) = if equal s (79 ∷ 117 ∷ 116 ∷ 112 ∷ 117 ∷ 116 ∷ []) then playback else capture

pub data DeviceFlags : Type 0 where
  no_flags direct_hardware auto_converting compatibility : DeviceFlags

-- "hw:", "plug:", "plughw:", "dmix:" and "dsnoop:"; the first character is read before the others.
unfoldable pub device_flags : CStr → DeviceFlags
unfolding starts
device_flags [] = no_flags
device_flags (c ∷ rest) =
    if c == 104
    then (if starts rest (119 ∷ 58 ∷ []) then direct_hardware else no_flags)
    else if c == 112
    then (if starts rest (108 ∷ 117 ∷ 103 ∷ 58 ∷ [])
        then auto_converting
        else if starts rest (108 ∷ 117 ∷ 103 ∷ 104 ∷ 119 ∷ 58 ∷ [])
        then auto_converting
        else no_flags)
    else if c == 100
    then (if starts rest (109 ∷ 105 ∷ 120 ∷ 58 ∷ [])
        then compatibility
        else if starts rest (115 ∷ 110 ∷ 111 ∷ 111 ∷ 112 ∷ 58 ∷ [])
        then compatibility
        else no_flags)
    else no_flags
