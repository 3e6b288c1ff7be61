-- ===== src/Transport/PoolAllocator/Refine.antt =====
-- A pool hands out the chunks of a stack of free indices, in bounds and apart from one another.
use entangle.Prelude.{
  ℕ, ◌+◌, ◌-◌, ◌*◌, ◌/◌, ◌%◌, ◌^◌, ◌≤◌, ◌<◌, ◌≡◌, refl, ◌≢◌, ◌⊎◌, inl, inr, some, List, ◌∷◌, arith,
  dec_lt, lt→ltb, ne→==, range_from, All,
}
use native.Mathlib.Nat.{mod-eq_of_lt, mul-div_left}
use entangle.Lockfree.IndexSet.{sentinel}
use entangle.Lockfree.IndexSet.Inv.{IsValid as IsValidSet}
use entangle.Lockfree.IndexSet.Refine.{
  top, rest, acquire-refines, release-refines, new-IsValid as index_set_new,
}
use entangle.Transport.PointerOffset
use entangle.Transport.PointerOffset.Packing.{new-fields}
use entangle.Transport.PoolAllocator.{PoolAllocator, new, chunk, chunk_of, allocate, deallocate}

pub record IsValid (p : PoolAllocator) (free : List ℕ) : Type 0 where
  pub set : IsValidSet p.index_set free
  pub chunky : 0 < p.chunk_size
  pub segment : p.segment_id < 2 ^ 16
  pub fits : p.base_offset + p.index_set.capacity * p.chunk_size ≤ 2 ^ 48

pub new-IsValid :
    (capacity chunk_size segment_id base_offset : ℕ)
    → 0 < capacity
    → capacity < sentinel
    → 0 < chunk_size
    → segment_id < 2 ^ 16
    → base_offset + capacity * chunk_size ≤ 2 ^ 48
    → (p : PoolAllocator) × (new capacity chunk_size segment_id base_offset ≡ some p)
      × IsValid p (range_from 0 capacity)
      × (p.index_set.capacity ≡ capacity)
      × (p.chunk_size ≡ chunk_size)
      × (p.segment_id ≡ segment_id)
      × (p.base_offset ≡ base_offset)
unfolding new
new-IsValid capacity chunk_size segment_id base_offset pos small chunky segment fits =
    let (set, made, valid, none_borrowed, same) = index_set_new capacity pos small in
    (
      record {
        index_set = set;
        chunk_size = chunk_size;
        segment_id = segment_id;
        base_offset = base_offset;
      },
      rw (lt→ltb 0 chunk_size chunky, made),
      record { set = valid; chunky = chunky; segment = segment; fits = rw same fits },
      same,
      refl,
      refl,
      refl,
    )

chunk_in_range :
    {p : PoolAllocator} {free : List ℕ} (i : ℕ)
    → IsValid p free
    → i < p.index_set.capacity
    → p.base_offset + i * p.chunk_size + p.chunk_size
      ≤ p.base_offset + p.index_set.capacity * p.chunk_size
chunk_in_range i v lt = grind arith

-- A chunk's offset is the plain sum: nothing wraps.
pub offset-chunk :
    {p : PoolAllocator} (free : List ℕ) (i : ℕ)
    → IsValid p free
    → i < p.index_set.capacity
    → (PointerOffset.offset (chunk p i) ≡ p.base_offset + i * p.chunk_size)
      × (PointerOffset.segment_id (chunk p i) ≡ p.segment_id)
offset-chunk {p} free i v lt =
    let room : p.base_offset + i * p.chunk_size < 2 ^ 48 = grind (arith, chunk_in_range i v lt) in
    let fields = new-fields p.segment_id (p.base_offset + i * p.chunk_size) v.segment room in
    rw (mod-eq_of_lt {n = p.base_offset + i * p.chunk_size} {m = 2 ^ 64} (omega arith))
      (fields.1, fields.0)

apart :
    (i j base size : ℕ)
    → i ≢ j
    → (base + i * size + size ≤ base + j * size) ⊎ (base + j * size + size ≤ base + i * size)
apart i j base size ne = elim (dec_lt i j) [
  | yes lt ↦ inl (grind arith)
  | no ge ↦ inr (let lt : j < i = omega arith in grind arith)
]

-- In a valid pool, the chunks of two different indices below the capacity do not overlap, and lie
-- between the base offset and the end of the last chunk.
pub chunks_apart :
    {p : PoolAllocator} (free : List ℕ) (i j : ℕ)
    → IsValid p free
    → i < p.index_set.capacity
    → j < p.index_set.capacity
    → i ≢ j
    → (p.base_offset ≤ PointerOffset.offset (chunk p i))
      × (PointerOffset.offset (chunk p i) + p.chunk_size
          ≤ p.base_offset + p.index_set.capacity * p.chunk_size)
      × ((PointerOffset.offset (chunk p i) + p.chunk_size ≤ PointerOffset.offset (chunk p j))
          ⊎ (PointerOffset.offset (chunk p j) + p.chunk_size ≤ PointerOffset.offset (chunk p i)))
chunks_apart {p} free i j v li lj ne =
    rw ((offset-chunk free i v li).0, (offset-chunk free j v lj).0)
      (omega arith, chunk_in_range i v li, apart i j p.base_offset p.chunk_size ne)

-- `allocate` answers the chunk of the top free index, or `OutOfMemory` when none is free.
pub allocate-refines :
    {p : PoolAllocator} (free : List ℕ)
    → IsValid p free
    → (q : PoolAllocator) × (allocate p ≡ some (chunk_of p (top free), q))
      × IsValid q (rest free)
      × (q ≡ record p { index_set = q.index_set })
      × (q.index_set.capacity ≡ p.index_set.capacity)
unfolding allocate
allocate-refines {p} free v =
    let (set, answered, valid, same) = acquire-refines free v.set in
    (
      record p { index_set = set },
      rw answered,
      record { set = valid; chunky = v.chunky; segment = v.segment; fits = rw same v.fits },
      refl,
      same,
    )

-- The index that `deallocate` computes from a chunk's offset.
index-chunk :
    {p : PoolAllocator} (free : List ℕ) (i : ℕ)
    → IsValid p free
    → i < p.index_set.capacity
    → (PointerOffset.offset (chunk p i) + 2 ^ 64 - p.base_offset) % 2 ^ 64 / p.chunk_size % 2 ^ 32
      ≡ i
index-chunk {p} free i v lt =
    rw
      (
        (offset-chunk free i v lt).0,
        (let local : (p.base_offset + i * p.chunk_size + 2 ^ 64 - p.base_offset) % 2 ^ 64
                ≡ i * p.chunk_size =
              omega (arith, chunk_in_range i v lt) in
            local),
        mul-div_left i v.chunky,
      )
      (omega arith)

-- `deallocate` recovers the index from the chunk's pointer offset and frees it.
pub deallocate-refines :
    {p : PoolAllocator} (free : List ℕ) (i : ℕ)
    → IsValid p free
    → i < p.index_set.capacity
    → All (λ j. j ≢ i) free
    → (q : PoolAllocator) × (deallocate (chunk p i) p ≡ some q)
      × IsValid q (i ∷ free)
      × (q ≡ record p { index_set = q.index_set })
      × (q.index_set.capacity ≡ p.index_set.capacity)
unfolding deallocate
deallocate-refines {p} free i v lt out =
    let (set, released, valid, same) = release-refines i free v.set lt out in
    (
      record p { index_set = set },
      rw (ne→== p.chunk_size 0 (omega arith), index-chunk free i v lt, released),
      record { set = valid; chunky = v.chunky; segment = v.segment; fits = rw same v.fits },
      refl,
      same,
    )
