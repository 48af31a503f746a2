-- ===== src/FdStream/Moves.antt =====
-- core/fd_stream.cpp: what the calls of `io::readv` in `fd_input_stream::read_stream` store.
use lbu.Common.{
  ℕ, Option, none, some, true, min, ◌+◌, ◌-◌, ◌≤◌, ◌≡◌, ◌⊎◌, List, ◌++◌, length, take, drop,
  length-take, length-drop, take-append-drop, take-add, append_assoc, map, arith, ap, ap₂, ◌∙◌,
}
use lbu.Io.{IoVector, moved}
use lbu.Io.Vectors.{addresses}
use lbu.FdStream.Input.{InputStream, Source, ReadResult}
use lbu.FdStream.Vectored.{map-append}
use lbu.FdStream.Filled.{Got}
use lbu.FdStream.Stores.{
  Apart, Distinct, Apart-take, Apart-drop, Distinct-take, store_at-Apart, stored, kept_before,
}

-- What `total` bytes that the calls have moved are to the caller: those that the first vector has no
-- room for are available in the buffer from its start on.
abbrev pub Shape : ℕ → ℕ → ℕ → InputStream → Option ℕ → InputStream → Type 0
Shape buffer_read first total s none s' = s'.has_error ≡ true
Shape buffer_read first total s (some n) s' =
    (n ≡ buffer_read + min total first)
    × (s'.buffer_available ≡ total - first)
    × (((s'.buffer_available ≡ 0) × (s'.buffer_offset ≡ s.buffer_offset)) ⊎ (s'.buffer_offset ≡ 0))
    × (s'.buffer_base_ptr ≡ s.buffer_base_ptr)
    × (s'.buffer_capacity ≡ s.buffer_capacity)
    × (s'.manages_buffer ≡ s.manages_buffer)

-- The first `k` addresses hold the bytes of the file that came next, and no other address changes.
abbrev pub Stored : ℕ → List ℕ → (ℕ → ℕ) → Source → (ℕ → ℕ) → Source → Type 0
Stored k addrs memory src memory' src' =
    (k ≤ length addrs)
    × (map memory' (take k addrs) ++ src'.coming ≡ src.coming)
    × ((j : ℕ) → Apart j addrs → memory' j ≡ memory j)

abbrev pub LoopKept : ℕ → ℕ → ℕ → InputStream → List ℕ → (ℕ → ℕ) → Source → ReadResult → Type 0
LoopKept buffer_read first count s addrs memory src none = Unit
LoopKept buffer_read first count s addrs memory src (some (n, s', memory', src')) =
    (k : ℕ) × Stored k addrs memory src memory' src' × Shape buffer_read first (count + k) s n s'

pub none-Stored :
    (addrs : List ℕ) (memory memory' : ℕ → ℕ) (src src' : Source)
    → memory' ≡ memory
    → src'.coming ≡ src.coming
    → Stored 0 addrs memory src memory' src'
none-Stored addrs memory memory' src src' m e = (omega arith, e, λ j h. ap (λ (f : ℕ → ℕ). f j) m)

-- One call.
pub call-Stored :
    (vs : List IoVector) (r : ℕ) (memory memory' : ℕ → ℕ) (src src' : Source)
    → Distinct (addresses vs)
    → Got memory vs src (some (moved r, memory', src'))
    → Stored r (addresses vs) memory src memory' src'
call-Stored vs r memory memory' src src' d (l, c, e, f) =
    let addrs = addresses vs in
    let same : length (take r addrs) ≡ length (take r src.coming) =
      omega (arith, l, c, length-take r addrs, length-take r src.coming) in
    (
      l,
      ap (λ (m : ℕ → ℕ). map m (take r addrs) ++ src'.coming) e
          ∙ ap₂ ◌++◌
              (stored memory (take r addrs) (take r src.coming) (Distinct-take r addrs d) same) f
          ∙ take-append-drop r src.coming,
      λ j h.
          ap (λ (m : ℕ → ℕ). m j) e
          ∙ store_at-Apart memory (take r addrs) (take r src.coming) j (Apart-take j r addrs h),
    )

-- A call and what follows it at the addresses behind.
pub both-Stored :
    (r k : ℕ) (addrs : List ℕ) (memory memory' memory'' : ℕ → ℕ) (src src' src'' : Source)
    → Distinct addrs
    → Stored r addrs memory src memory' src'
    → Stored k (drop r addrs) memory' src' memory'' src''
    → Stored (r + k) addrs memory src memory'' src''
both-Stored r k addrs memory memory' memory'' src src' src'' d (l, e, a) (l', e', a') = (
  omega (arith, l, l', length-drop r addrs),
  ap (λ t. map memory'' t ++ src''.coming) (take-add r k addrs)
      ∙ ap (λ t. t ++ src''.coming) (map-append memory'' (take r addrs) (take k (drop r addrs)))
      ∙ append_assoc (map memory'' (take r addrs)) (map memory'' (take k (drop r addrs)))
          src''.coming
      ∙ ap₂ ◌++◌ (kept_before memory' memory'' r addrs d a') e'
      ∙ e,
  λ j h. a' j (Apart-drop j r addrs h) ∙ a j h,
)
