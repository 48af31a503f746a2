-- ===== src/Tests/Arrays.antt =====
-- core/lbu/array_ref.h at concrete references.
use lbu.Common.{ℕ, ◌%◌, ◌^◌, ◌≡◌, true, ◌==◌, refl}
use lbu.ArrayRef.{ArrayRef, array_ref_content_equal}

abbrev m : ℕ
m = 2 ^ 64

abbrev eight : ArrayRef
eight = record { begin = 100; size = 8 }

abbrev memory : ℕ → ℕ
memory i = i % 3

equal_three_apart :
    array_ref_content_equal ◌==◌ memory eight (record { begin = 103; size = 8 }) ≡ true
unfolding array_ref_content_equal
equal_three_apart = refl
