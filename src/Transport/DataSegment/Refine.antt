-- ===== src/Transport/DataSegment/Refine.antt =====
-- A segment's chunks lie inside its mapping, behind the header.
use Prim.Native.String.{String}
use entangle.Prelude.{
  le→leb, ℕ, ◌+◌, ◌*◌, ◌%◌, ◌^◌, ◌≤◌, ◌<◌, ◌≡◌, refl, sym, ◌≢◌, some, List, ◌∷◌, arith, le→leb,
  range_from, All, ok,
}
use native.Mathlib.Nat.{mul_comm}
use entangle.Platform.SharedMemory
use entangle.Platform.SharedMemory.{SharedMemory, Answers}
use entangle.Platform.SharedMemory.Words.{create-shape}
use entangle.Lockfree.IndexSet.{sentinel}
use entangle.Lockfree.IndexSet.Refine.{top, rest}
use entangle.Transport.PoolAllocator.{chunk, chunk_of}
use entangle.Transport.PoolAllocator.Refine.{
  IsValid as IsValidPool, new-IsValid as pool_new, offset-chunk, allocate-refines as pool_allocate,
  deallocate-refines as pool_deallocate,
}
use entangle.Transport.DataSegment.{
  DataSegment, header_size, align8, write_header, create, allocate, deallocate, resolve_ptr,
}

pub record IsValid (d : DataSegment) (free : List ℕ) : Type 0 where
  pub pool : IsValidPool d.allocator free
  pub same_size : d.chunk_size ≡ d.allocator.chunk_size
  pub based : d.allocator.base_offset ≡ header_size
  pub room : header_size + d.allocator.index_set.capacity * d.allocator.chunk_size ≤ d.shm.size

-- The chunk size is rounded up to a multiple of 8.
pub align8_bounds : (n : ℕ) → (n ≤ align8 n) × (align8 n < n + 8) × (align8 n % 8 ≡ 0)
unfolding align8
align8_bounds n = omega arith

-- In a valid segment, the pointer offset of every index below the capacity resolves: the debug
-- assertions hold, and the chunk starts at the header's size plus the index times the chunk size.
pub resolve_ptr-chunk :
    {d : DataSegment} (free : List ℕ) (i : ℕ)
    → IsValid d free
    → i < d.allocator.index_set.capacity
    → resolve_ptr (chunk d.allocator i) d ≡ some (header_size + i * d.chunk_size)
unfolding resolve_ptr
resolve_ptr-chunk {d} free i v lt =
    rw
      (
        (offset-chunk free i v.pool lt).0,
        v.based,
        v.same_size,
        le→leb header_size (header_size + i * d.allocator.chunk_size) (omega arith),
        le→leb (header_size + i * d.allocator.chunk_size + d.allocator.chunk_size) d.shm.size
            (omega (arith, inside)),
      )
      refl
  where
    inside :
        i * d.allocator.chunk_size + d.allocator.chunk_size
        ≤ d.allocator.index_set.capacity * d.allocator.chunk_size
    inside = grind arith

-- `allocate` answers the chunk of the top free index, or fails when there is none.
pub allocate-refines :
    {d : DataSegment} (free : List ℕ)
    → IsValid d free
    → (e : DataSegment) × (allocate d ≡ some (chunk_of d.allocator (top free), e))
      × IsValid e (rest free)
      × (e ≡ record d { allocator = record d.allocator { index_set = e.allocator.index_set } })
      × (e.allocator.index_set.capacity ≡ d.allocator.index_set.capacity)
unfolding allocate
allocate-refines {d} free v =
    let (pool, answered, valid, kept, same) = pool_allocate free v.pool in
    (
      record d { allocator = record d.allocator { index_set = pool.index_set } },
      rw (answered, ← kept) refl,
      record {
        pool = rw (← kept) valid;
        same_size = v.same_size;
        based = v.based;
        room = rw same v.room;
      },
      refl,
      same,
    )

-- `deallocate` of a chunk that is not free frees its index.
pub deallocate-refines :
    {d : DataSegment} (free : List ℕ) (i : ℕ)
    → IsValid d free
    → i < d.allocator.index_set.capacity
    → All (λ j. j ≢ i) free
    → (e : DataSegment) × (deallocate (chunk d.allocator i) d ≡ some e)
      × IsValid e (i ∷ free)
      × (e ≡ record d { allocator = record d.allocator { index_set = e.allocator.index_set } })
      × (e.allocator.index_set.capacity ≡ d.allocator.index_set.capacity)
unfolding deallocate
deallocate-refines {d} free i v lt out =
    let (pool, released, valid, kept, same) = pool_deallocate free i v.pool lt out in
    (
      record d { allocator = record d.allocator { index_set = pool.index_set } },
      rw (released, ← kept) refl,
      record {
        pool = rw (← kept) valid;
        same_size = v.same_size;
        based = v.based;
        room = rw same v.room;
      },
      refl,
      same,
    )

-- When the system grants the region, the chunk size and the count are positive, the count is
-- below 2^32 - 1, the segment number fits 16 bits and the whole segment 48 bits, create succeeds
-- with a valid segment of the aligned chunk size and that count, in which every chunk is free.
pub create-IsValid :
    (name : String) (chunk_size chunk_count segment_id : ℕ) (os : Answers) {shm : SharedMemory}
    → 0 < chunk_size
    → 0 < chunk_count
    → chunk_count < sentinel
    → segment_id < 2 ^ 16
    → header_size + align8 chunk_size * chunk_count ≤ 2 ^ 48
    → SharedMemory.create name (header_size + align8 chunk_size * chunk_count) os ≡ ok shm
    → (d : DataSegment) × (create name chunk_size chunk_count segment_id os ≡ some (ok d))
      × IsValid d (range_from 0 chunk_count)
      × (d.chunk_size ≡ align8 chunk_size)
      × (d.allocator.index_set.capacity ≡ chunk_count)
unfolding create write_header
create-IsValid name chunk_size chunk_count segment_id os {shm} pos some_chunks small seg fits
      granted =
    let (pool, made, valid, cap, chunk, segment, base) =
      pool_new chunk_count (align8 chunk_size) segment_id header_size some_chunks small
        (omega arith) seg (omega arith) in
    (
      record {
        shm = write_header (align8 chunk_size) chunk_count shm;
        allocator = pool;
        chunk_size = align8 chunk_size;
        chunk_count = chunk_count;
      },
      rw
          (
            granted,
            le→leb header_size shm.size (omega (arith, (create-shape name _ os granted).0)),
            made,
          )
          refl,
      record {
        pool = valid;
        same_size = sym chunk;
        based = base;
        room =
            rw (cap, chunk, (create-shape name _ os granted).0)
              (omega (arith, mul_comm chunk_count (align8 chunk_size)));
      },
      refl,
      cap,
    )
