-- ===== src/Transport/PoolAllocator.antt =====
-- `PoolAllocator` of crates/entangle-transport/src/pool_alloc.rs: fixed-size chunks of a segment,
-- handed out by the lock-free index set.
pub mod Refine
mod Tests
use entangle.Prelude.{
  ℕ, ◌+◌, ◌-◌, ◌*◌, ◌/◌, ◌%◌, ◌^◌, Option, none, some, ltb, ◌==◌, if◌then◌else◌, Result, ok, err,
  map_err, assert, ◌>>=◌, ◌>>◌,
}
use entangle.Lockfree.IndexSet
use entangle.Lockfree.IndexSet.{UniqueIndexSet, AcquireError}
use entangle.Transport.Contracts.{LoanError, out_of_memory}
use entangle.Transport.PointerOffset
use entangle.Transport.PointerOffset.{PointerOffset}

pub record PoolAllocator : Type 0 where
  pub index_set : UniqueIndexSet
  pub chunk_size : ℕ
  pub segment_id : ℕ
  pub base_offset : ℕ

-- `none` is the panic of an `assert!`.
unfoldable pub new : ℕ → ℕ → ℕ → ℕ → Option PoolAllocator
new capacity chunk_size segment_id base_offset = do
  assert (ltb 0 chunk_size)
  set ← IndexSet.new capacity
  some (record {
    index_set = set;
    chunk_size = chunk_size;
    segment_id = segment_id;
    base_offset = base_offset;
  })

-- The pointer offset of chunk `index`.
abbrev pub chunk : PoolAllocator → ℕ → PointerOffset
chunk p index = PointerOffset.new p.segment_id ((p.base_offset + index * p.chunk_size) % 2 ^ 64)

-- What `allocate` makes of the answer of `acquire`.
abbrev pub chunk_of : PoolAllocator → Result AcquireError ℕ → Result LoanError PointerOffset
chunk_of p (ok index) = ok (chunk p index)
chunk_of p (err e) = err out_of_memory

unfoldable pub allocate : PoolAllocator → Option (Result LoanError PointerOffset × PoolAllocator)
allocate p = IndexSet.acquire p.index_set >>= λ (answer, set).
    some (chunk_of p answer, record p { index_set = set })

-- A division by zero panics; `new` rules it out.
unfoldable pub deallocate : PointerOffset → PoolAllocator → Option PoolAllocator
deallocate offset p =
    let local = (PointerOffset.offset offset + 2 ^ 64 - p.base_offset) % 2 ^ 64 in
    if p.chunk_size == 0
    then none
    else IndexSet.release (local / p.chunk_size % 2 ^ 32) p.index_set >>= λ set.
        some (record p { index_set = set })

abbrev pub allocated_count : PoolAllocator → ℕ
allocated_count p = IndexSet.borrowed_count p.index_set

unfoldable pub available : PoolAllocator → ℕ
available p = IndexSet.available p.index_set
