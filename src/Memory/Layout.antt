-- ===== src/Memory/Layout.antt =====
-- core/lbu/memory.h: the places of the members of a dynamic structure.
use lbu.Common.{ℕ, ◌+◌, ◌%◌, ◌^◌, ◌≤◌, ◌<◌, ◌≡◌, List, [], ◌∷◌, arith, refl, subst, sym, max}
use lbu.Memory.{size_max, BufferSpec, Added, add_member_raw}
use lbu.Memory.Alignment.{align_up_lem}

-- One more member, of an alignment `2 ^ k`: if the new size is below the largest, the member lies
-- behind all earlier ones, aligned, inside the new size, and less than one alignment away.
pub record Placed (spec : BufferSpec) (s : BufferSpec) (a : Added) : Type 0 where
  pub behind : spec.size ≤ a.offset
  pub aligned : a.offset % s.align ≡ 0
  pub inside : a.offset + s.size ≡ a.spec.size
  pub close : a.offset < spec.size + s.align
  pub counted : spec.size + a.padding ≡ a.offset
  pub strictest : a.spec.align ≡ max spec.align s.align

power-Placed :
    (spec : BufferSpec) (n k : ℕ)
    → k < 64
    → let s : BufferSpec = record { size = n; align = 2 ^ k } in
      (add_member_raw spec s).spec.size < size_max → Placed spec s (add_member_raw spec s)
unfolding add_member_raw
power-Placed spec n k h ok = ground (arith, align_up_lem spec.size k h)

pub add_member_raw-Placed :
    (spec s : BufferSpec) (k : ℕ)
    → k < 64
    → s.align ≡ 2 ^ k
    → (add_member_raw spec s).spec.size < size_max
    → Placed spec s (add_member_raw spec s)
add_member_raw-Placed spec s k h e =
    subst
      (λ (t : BufferSpec).
        (add_member_raw spec t).spec.size < size_max → Placed spec t (add_member_raw spec t))
      (λ i. record { size = s.size; align = sym e i }) (power-Placed spec s.size k h)

-- Members added one after the other: the final spec, and each member's spec with its offset.
abbrev pub add_all : BufferSpec → List BufferSpec → BufferSpec
add_all spec [] = spec
add_all spec (s ∷ rest) = add_all (add_member_raw spec s).spec rest

abbrev pub offsets : BufferSpec → List BufferSpec → List ℕ
offsets spec [] = []
offsets spec (s ∷ rest) = (add_member_raw spec s).offset ∷ offsets (add_member_raw spec s).spec rest

-- Each alignment is a power of two of the word.
abbrev pub Powers : List BufferSpec → Type 0
Powers [] = Unit
Powers (s ∷ rest) = ((k : ℕ) × (k < 64) × (s.align ≡ 2 ^ k)) × Powers rest

-- From an address on, each member is aligned and ends before the next begins, and the last ends at
-- the end.
abbrev pub Tiled : ℕ → List BufferSpec → List ℕ → ℕ → Type 0
Tiled start [] [] stop = start ≡ stop
Tiled start [] (off ∷ offs) stop = ⊥
Tiled start (s ∷ rest) [] stop = ⊥
Tiled start (s ∷ rest) (off ∷ offs) stop =
    (start ≤ off) × (off % s.align ≡ 0) × Tiled (off + s.size) rest offs stop

size_grows :
    (spec : BufferSpec) (members : List BufferSpec)
    → Powers members
    → (add_all spec members).size < size_max
    → spec.size < size_max
size_grows spec [] ps ok = ok
size_grows spec (s ∷ rest) ((k, h, e), ps) ok =
    let small = size_grows (add_member_raw spec s).spec rest ps ok in
    omega (arith, add_member_raw-Placed spec s k h e small, small)

-- Members of any sizes, with powers of two for alignments, added to a structure: if the final size
-- is below the largest, so that the structure counts as valid, the members lie one behind the
-- other, each aligned, from the old size up to the final size.
pub add_all-Tiled :
    (spec : BufferSpec) (members : List BufferSpec)
    → Powers members
    → (add_all spec members).size < size_max
    → Tiled spec.size members (offsets spec members) (add_all spec members).size
add_all-Tiled spec [] ps ok = refl
add_all-Tiled spec (s ∷ rest) ((k, h, e), ps) ok =
    let placed =
      add_member_raw-Placed spec s k h e (size_grows (add_member_raw spec s).spec rest ps ok) in
    (
      placed.behind,
      placed.aligned,
      subst
          (λ start.
            Tiled start rest (offsets (add_member_raw spec s).spec rest)
              (add_all (add_member_raw spec s).spec rest).size)
          (sym placed.inside) (add_all-Tiled (add_member_raw spec s).spec rest ps ok),
    )
