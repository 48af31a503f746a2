-- ===== src/FdStream/Stores.antt =====
-- core/fd_stream.cpp: what the bytes that `io::readv` stores at distinct addresses leave in memory.
use lbu.Common.{
  ℕ, zero, suc, ◌+◌, ◌≤◌, ◌<◌, ◌≡◌, ◌≢◌, ◌⊎◌, List, [], ◌∷◌, ◌++◌, length, take, drop, map, arith,
  refl, ap₂, ◌∙◌,
}
use lbu.Common.Family.{update, update_same, update_ne}
use lbu.Io.{range}
use lbu.FdStream.Input.{store_at}

-- The address is none of the list.
abbrev pub Apart : ℕ → List ℕ → Type 0
Apart j [] = Unit
Apart j (a ∷ addrs) = (a ≢ j) × Apart j addrs

-- No address stands twice in the list.
abbrev pub Distinct : List ℕ → Type 0
Distinct [] = Unit
Distinct (a ∷ addrs) = Apart a addrs × Distinct addrs

pub Apart-take : (j k : ℕ) (addrs : List ℕ) → Apart j addrs → Apart j (take k addrs)
Apart-take j zero addrs h = tt
Apart-take j (suc k) [] h = tt
Apart-take j (suc k) (a ∷ addrs) h = (h.0, Apart-take j k addrs h.1)

pub Apart-drop : (j k : ℕ) (addrs : List ℕ) → Apart j addrs → Apart j (drop k addrs)
Apart-drop j zero addrs h = h
Apart-drop j (suc k) [] h = tt
Apart-drop j (suc k) (a ∷ addrs) h = Apart-drop j k addrs h.1

pub Distinct-take : (k : ℕ) (addrs : List ℕ) → Distinct addrs → Distinct (take k addrs)
Distinct-take zero addrs h = tt
Distinct-take (suc k) [] h = tt
Distinct-take (suc k) (a ∷ addrs) h = (Apart-take a k addrs h.0, Distinct-take k addrs h.1)

pub Distinct-drop : (k : ℕ) (addrs : List ℕ) → Distinct addrs → Distinct (drop k addrs)
Distinct-drop zero addrs h = h
Distinct-drop (suc k) [] h = tt
Distinct-drop (suc k) (a ∷ addrs) h = Distinct-drop k addrs h.1

pub Apart-append : (j : ℕ) (xs ys : List ℕ) → Apart j xs → Apart j ys → Apart j (xs ++ ys)
Apart-append j [] ys h k = k
Apart-append j (x ∷ xs) ys h k = (h.0, Apart-append j xs ys h.1 k)

pub Apart-range : (j b n : ℕ) → (j < b) ⊎ (b + n ≤ j) → Apart j (range b n)
Apart-range j b zero h = tt
Apart-range j b (suc n) h =
    (λ e. absurd (omega (arith, h, e)), Apart-range j (suc b) n (omega arith))

pub Distinct-range : (b n : ℕ) → Distinct (range b n)
Distinct-range b zero = tt
Distinct-range b (suc n) = (Apart-range b (suc b) n (omega arith), Distinct-range (suc b) n)

-- Two buffers that have no address in common.
pub Distinct-ranges : (a n b m : ℕ) → (a + n ≤ b) ⊎ (b + m ≤ a) → Distinct (range a n ++ range b m)
Distinct-ranges a zero b m h = Distinct-range b m
Distinct-ranges a (suc n) b m h = (
  Apart-append a (range (suc a) n) (range b m) (Apart-range a (suc a) n (omega arith))
      (Apart-range a b m (omega arith)),
  Distinct-ranges (suc a) n b m (omega arith),
)

pub store_at-Apart :
    (memory : ℕ → ℕ) (addrs bytes : List ℕ) (j : ℕ)
    → Apart j addrs
    → store_at memory addrs bytes j ≡ memory j
unfolding store_at
store_at-Apart memory [] bytes j h = refl
store_at-Apart memory (a ∷ addrs) [] j h = refl
store_at-Apart memory (a ∷ addrs) (x ∷ bytes) j h =
    store_at-Apart (update memory a x) addrs bytes j h.1 ∙ update_ne memory a j x h.0

pub stored :
    (memory : ℕ → ℕ) (addrs bytes : List ℕ)
    → Distinct addrs
    → length addrs ≡ length bytes
    → map (store_at memory addrs bytes) addrs ≡ bytes
unfolding store_at
stored memory [] [] h e = refl
stored memory [] (x ∷ bytes) h e = absurd (omega (arith, e))
stored memory (a ∷ addrs) [] h e = absurd (omega (arith, e))
stored memory (a ∷ addrs) (x ∷ bytes) h e =
    ap₂ ◌∷◌ (store_at-Apart (update memory a x) addrs bytes a h.0 ∙ update_same memory a x)
      (stored (update memory a x) addrs bytes h.1 (omega (arith, e)))

-- The bytes in front are the ones they were, where memory is the same apart from those behind.
pub kept_before :
    (memory memory' : ℕ → ℕ) (k : ℕ) (addrs : List ℕ)
    → Distinct addrs
    → ((j : ℕ) → Apart j (drop k addrs) → memory' j ≡ memory j)
    → map memory' (take k addrs) ≡ map memory (take k addrs)
kept_before memory memory' zero addrs h same = refl
kept_before memory memory' (suc k) [] h same = refl
kept_before memory memory' (suc k) (a ∷ addrs) h same =
    ap₂ ◌∷◌ (same a (Apart-drop a k addrs h.0)) (kept_before memory memory' k addrs h.1 same)

pub map_same :
    (memory memory' : ℕ → ℕ) (b n : ℕ)
    → ((j : ℕ) → b ≤ j → j < b + n → memory' j ≡ memory j)
    → map memory' (range b n) ≡ map memory (range b n)
map_same memory memory' b zero same = refl
map_same memory memory' b (suc n) same =
    ap₂ ◌∷◌ (same b (omega arith) (omega arith))
      (map_same memory memory' (suc b) n (λ j l h. same j (omega arith) (omega arith)))
