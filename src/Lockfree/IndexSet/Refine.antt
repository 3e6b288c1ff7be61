-- ===== src/Lockfree/IndexSet/Refine.antt =====
-- `UniqueIndexSet` implements a stack of free indices.
use entangle.Prelude.{
  ℕ, zero, suc, ◌+◌, ◌-◌, ◌%◌, ◌^◌, ◌≤◌, ◌<◌, ◌≡◌, ◌≢◌, refl, ap, List, [], ◌∷◌, map, some, length,
  get_or, set, All, All-map, Result, ok, err, arith, range_from,
}
use entangle.Prelude.{
  length-set, length-map, length-range_from, get_or-set_self, get_elem?-eq-get_or, store-in_range,
  get_or-map_range, Distinct-range_from, pigeonhole, ne→==, eq→==, lt→ltb,
}
use entangle.Lockfree.IndexSet.{
  UniqueIndexSet, AcquireError, acquire_error, sentinel, pack, extract_head, extract_tag,
  initial_link, new, acquire, release, acquire_loop, release_loop, available,
}
use entangle.Lockfree.IndexSet.Words.{extract_head-pack}
use entangle.Lockfree.IndexSet.Inv.{Chain, IsValid, Chain-lt, Chain-set}

-- What a stack of free indices answers, and what it keeps.
abbrev pub top : List ℕ → Result AcquireError ℕ
top [] = err acquire_error
top (i ∷ free) = ok i

abbrev pub rest : List ℕ → List ℕ
rest [] = []
rest (i ∷ free) = free

pub Chain-head-lt :
    (next : List ℕ) (h : ℕ) (free : List ℕ)
    → length next < sentinel
    → Chain next h free
    → h < 2 ^ 32
Chain-head-lt next h [] l c = omega arith
Chain-head-lt next h (i ∷ free) l c = omega arith

-- On a valid index set with a given stack of free indices, acquire answers the top of the stack,
-- or fails when it is empty, and leaves a valid set of the same capacity with the rest of the
-- stack.
pub acquire-refines :
    {s : UniqueIndexSet} (free : List ℕ)
    → IsValid s free
    → (t : UniqueIndexSet) × (acquire s ≡ some (top free, t))
      × IsValid t (rest free)
      × (t.capacity ≡ s.capacity)
unfolding acquire
acquire-refines {s} [] v = (s, rw (eq→== _ _ v.chain), v, refl)
acquire-refines {s} (i ∷ free) v = (
  record s {
    head = pack n ((extract_tag s.head + 1) % 2 ^ 32);
    borrowed = (s.borrowed + 1) % 2 ^ 32;
  },
  rw (v.chain.0, ne→== i sentinel (omega arith), get_elem?-eq-get_or s.next i 0 v.chain.1),
  record {
    sized = v.sized;
    small = v.small;
    chain =
        rw (extract_head-pack n _ (Chain-head-lt s.next n free (omega arith) v.chain.2))
          (v.chain.2);
    distinct = v.distinct.1;
    count = omega arith;
  },
  refl,
)
  where
    n : ℕ
    n = get_or s.next i 0

-- On a valid index set, releasing an index below the capacity that is not free returns and leaves
-- a valid set of the same capacity with that index on top of the free stack.
pub release-refines :
    {s : UniqueIndexSet} (index : ℕ) (free : List ℕ)
    → IsValid s free
    → index < s.capacity
    → All (λ j. j ≢ index) free
    → (t : UniqueIndexSet) × (release index s ≡ some t)
      × IsValid t (index ∷ free)
      × (t.capacity ≡ s.capacity)
unfolding release
release-refines {s} index free v lt out = (
  record s {
    head = pack index ((extract_tag s.head + 1) % 2 ^ 32);
    next = set s.next index (extract_head s.head);
    borrowed = (s.borrowed + 2 ^ 32 - 1) % 2 ^ 32;
  },
  rw (lt→ltb index s.capacity lt, store-in_range s.next index (extract_head s.head) inside),
  record {
    sized = omega (arith, length-set {0} s.next index (extract_head s.head));
    small = v.small;
    chain = (
      extract_head-pack index _ (omega arith),
      omega (arith, length-set {0} s.next index (extract_head s.head)),
      rw (get_or-set_self s.next index (extract_head s.head) 0 inside)
          (Chain-set s.next index _ _ free out v.chain),
    );
    distinct = (out, v.distinct);
    count = omega (arith, room);
  },
  refl,
)
  where
    inside : index < length s.next
    inside = omega arith

    room : suc (length free) ≤ s.capacity
    room =
        pigeonhole s.capacity (index ∷ free) (out, v.distinct)
          (lt, All-map free (λ j p. omega arith) (Chain-lt s.next _ free v.chain))

initial_link-inner : (capacity i : ℕ) → i + 1 < capacity → initial_link capacity i ≡ suc i
unfolding initial_link
initial_link-inner capacity i h = ground arith

initial_link-last : (capacity i : ℕ) → i + 1 ≡ capacity → initial_link capacity i ≡ sentinel
unfolding initial_link
initial_link-last capacity i h = ground arith

abbrev links : ℕ → List ℕ
links capacity = map (initial_link capacity) (range_from 0 capacity)

pub length-links : (capacity : ℕ) → length (links capacity) ≡ capacity
length-links capacity = omega (
  arith,
  length-map (initial_link capacity) (range_from 0 capacity),
  length-range_from 0 capacity,
)

get_or-links :
    (capacity i : ℕ) → i < capacity → get_or (links capacity) i 0 ≡ initial_link capacity i
get_or-links capacity i h =
    rw (get_or-map_range (initial_link capacity) 0 capacity i 0 h)
      (ap (initial_link capacity) (omega arith))

-- The chain through the fresh links, from `start` to the last slot.
Chain-links :
    (capacity n start : ℕ)
    → start + suc n ≡ capacity
    → Chain (links capacity) start (range_from start (suc n))
Chain-links capacity zero start e = (
  refl,
  omega (arith, length-links capacity),
  rw (get_or-links capacity start (omega arith), initial_link-last capacity start (omega arith))
      refl,
)
Chain-links capacity (suc n) start e = (
  refl,
  omega (arith, length-links capacity),
  rw (get_or-links capacity start (omega arith), initial_link-inner capacity start (omega arith))
      (Chain-links capacity n (suc start) (omega arith)),
)

pub Chain-fresh :
    (capacity : ℕ)
    → 0 < capacity
    → Chain (links capacity) (extract_head (pack 0 0)) (range_from 0 capacity)
Chain-fresh zero pos = absurd (omega arith)
Chain-fresh (suc n) pos =
    rw (extract_head-pack 0 0 (omega arith)) (Chain-links (suc n) n 0 (omega arith))

-- A new set has every index free, in order from 0, and none borrowed.
pub new-IsValid :
    (capacity : ℕ)
    → 0 < capacity
    → capacity < sentinel
    → (s : UniqueIndexSet) × (new capacity ≡ some s)
      × IsValid s (range_from 0 capacity)
      × (s.borrowed ≡ 0)
      × (s.capacity ≡ capacity)
unfolding new
new-IsValid capacity pos small = (
  record { head = pack 0 0; next = links capacity; capacity = capacity; borrowed = 0 },
  rw (lt→ltb 0 capacity pos, lt→ltb capacity sentinel small) refl,
  record {
    sized = length-links capacity;
    small = small;
    chain = Chain-fresh capacity pos;
    distinct = Distinct-range_from 0 capacity;
    count = omega (arith, length-range_from 0 capacity);
  },
  refl,
  refl,
)

-- On a valid index set, the loop of acquire ends after any number of spurious failures of its
-- compare-exchange with the same answer and the same state as without them.
pub acquire_loop-eq-acquire :
    (failures : ℕ) {s : UniqueIndexSet} (free : List ℕ)
    → IsValid s free
    → acquire_loop failures s.head s ≡ acquire s
unfolding acquire
acquire_loop-eq-acquire zero free v = refl
acquire_loop-eq-acquire (suc failures) {s} [] v = rw (eq→== _ _ v.chain)
acquire_loop-eq-acquire (suc failures) {s} (i ∷ free) v = rw (
  acquire_loop-eq-acquire failures (i ∷ free) v,
  v.chain.0,
  ne→== i sentinel (omega arith),
  get_elem?-eq-get_or s.next i 0 v.chain.1,
)

-- `available` is the number of free indices.
pub available-eq-length :
    {s : UniqueIndexSet} (free : List ℕ) → IsValid s free → available s ≡ length free
unfolding available
available-eq-length free v = omega arith

set-set : (xs : List ℕ) (i v : ℕ) → set (set xs i v) i v ≡ set xs i v
set-set [] i v = refl
set-set (x ∷ xs) zero v = refl
set-set (x ∷ xs) (suc i) v = ap (λ ys. x ∷ ys) (set-set xs i v)

-- For an index within the links, the loop of release ends after any number of spurious failures
-- of its compare-exchange with the same state as without them, although each round stores the
-- link again.
pub release_loop-eq-release :
    (failures : ℕ) (s : UniqueIndexSet) (index : ℕ)
    → index < length s.next
    → index < s.capacity
    → release_loop failures s.head index s ≡ release index s
unfolding release
release_loop-eq-release zero s index h lt = rw (lt→ltb index s.capacity lt) refl
release_loop-eq-release (suc failures) s index h lt = rw (
  store-in_range s.next index (extract_head s.head) h,
  release_loop-eq-release failures (record s { next = set s.next index (extract_head s.head) })
      index (omega (arith, length-set {0} s.next index (extract_head s.head))) lt,
  lt→ltb index s.capacity lt,
  store-in_range (set s.next index (extract_head s.head)) index (extract_head s.head)
      (omega (arith, length-set {0} s.next index (extract_head s.head))),
  set-set s.next index (extract_head s.head),
)
