-- ===== src/Lockfree/IndexSet/Inv.antt =====
-- The free list as a list, and the representation invariant of `UniqueIndexSet`.
use entangle.Prelude.{
  ℕ, ◌+◌, ◌<◌, ◌≡◌, ◌≢◌, List, [], ◌∷◌, length, get_or, set, All, Distinct, arith,
}
use entangle.Prelude.{length-set, get_or-set_ne}
use entangle.Lockfree.IndexSet.{UniqueIndexSet, sentinel, extract_head}

-- From slot `h` on, the links go through `free` in order and end at the sentinel.
abbrev pub Chain : List ℕ → ℕ → List ℕ → Type 0
Chain next h [] = h ≡ sentinel
Chain next h (i ∷ free) = (h ≡ i) × (i < length next) × Chain next (get_or next i 0) free

pub record IsValid (s : UniqueIndexSet) (free : List ℕ) : Type 0 where
  pub sized : length s.next ≡ s.capacity
  pub small : s.capacity < sentinel
  pub chain : Chain s.next (extract_head s.head) free
  pub distinct : Distinct free
  pub count : length free + s.borrowed ≡ s.capacity

pub Chain-lt :
    (next : List ℕ) (h : ℕ) (free : List ℕ) → Chain next h free → All (λ i. i < length next) free
Chain-lt next h [] c = tt
Chain-lt next h (i ∷ free) c = (c.1, Chain-lt next (get_or next i 0) free c.2)

-- A store outside the free list leaves it as it is.
pub Chain-set :
    (next : List ℕ) (i v h : ℕ) (free : List ℕ)
    → All (λ j. j ≢ i) free
    → Chain next h free
    → Chain (set next i v) h free
Chain-set next i v h [] a c = c
Chain-set next i v h (j ∷ free) a c = (
  c.0,
  omega (arith, length-set {0} next i v),
  rw (get_or-set_ne next i j v 0 (λ e. a.0 (omega arith)))
      (Chain-set next i v (get_or next j 0) free a.1 c.2),
)
