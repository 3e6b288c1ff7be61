-- ===== src/Transport/PoolAllocator/Tests.antt =====
-- Runs of the pool, after the unit tests of pool_alloc.rs, and instances of its theorems.
use entangle.Prelude.{ℕ, ◌+◌, ◌*◌, ◌^◌, ◌≤◌, refl, ◌⊎◌, List, [], ◌∷◌, arith}
use entangle.Lockfree.IndexSet
use entangle.Lockfree.IndexSet.{sentinel}
use entangle.Transport.PointerOffset
use entangle.Transport.PoolAllocator.{PoolAllocator, chunk}
use entangle.Transport.PoolAllocator.Refine.{IsValid, chunks_apart}

-- Four chunks of 1024 bytes; chunk 0 is allocated.
abbrev pool : PoolAllocator
pool = record {
  index_set = record {
    head = 2 ^ 32 + 1;
    next = 1 ∷ 2 ∷ 3 ∷ sentinel ∷ [];
    capacity = 4;
    borrowed = 1;
  };
  chunk_size = 1024;
  segment_id = 3;
  base_offset = 4096;
}

abbrev free : List ℕ
free = 1 ∷ 2 ∷ 3 ∷ []

pool-IsValid : IsValid pool free
unfolding IndexSet.extract_head
pool-IsValid = record {
  set = record {
    sized = refl;
    small = omega arith;
    chain = omega arith;
    distinct = omega arith;
    count = refl;
  };
  chunky = omega arith;
  segment = omega arith;
  fits = omega arith;
}

chunks_apart_instance :
    (4096 ≤ PointerOffset.offset (chunk pool 1))
    × (PointerOffset.offset (chunk pool 1) + 1024 ≤ 4096 + 4 * 1024)
    × ((PointerOffset.offset (chunk pool 1) + 1024 ≤ PointerOffset.offset (chunk pool 3))
        ⊎ (PointerOffset.offset (chunk pool 3) + 1024 ≤ PointerOffset.offset (chunk pool 1)))
chunks_apart_instance =
    chunks_apart {p = pool} free 1 3 pool-IsValid (omega arith) (omega arith) (omega arith)
