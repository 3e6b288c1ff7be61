-- ===== src/Transport/DataSegment.antt =====
-- `DataSegment` of crates/entangle-transport/src/data_segment.rs: a shared memory region of a
-- 64-byte header and the chunks of a pool allocator. A pointer into the region is its byte offset
-- from the start of the mapping.
pub mod Refine
pub mod Header
mod Tests
use Prim.Native.String.{String}
use entangle.Prelude.{
  ℕ, zero, suc, ◌+◌, ◌-◌, ◌*◌, ◌/◌, ◌%◌, ◌^◌, ◌≤◌, ◌<◌, bit_and, bit_or, min, max, ◌≡◌, refl, sym,
  ap, ap₂, subst, ◌∙◌, ◌≢◌, ◌↔◌, ◌⊎◌, inl, inr, Bool, true, false, not, ◌&&◌, ◌||◌, Option, none,
  some, List, [], ◌∷◌, ◌++◌, map, arith, dec_lt, ℕ_discrete, ltb, leb, ◌==◌, if◌then◌else◌, ltb→lt,
  lt→ltb, le→leb, ==→eq, eq→==, ne→==, Bool-cases, Option-cases, length, get_elem?, get_or, set,
  replicate, length-replicate, length-append, length-set, get_elem?-eq-get_or, get_or-set_self,
  get_or-set_ne, store, store-in_range, range_from, All, Distinct, All-map, length-range_from,
  length-map, get_or-map_range, All-range_from, Distinct-range_from, pigeonhole, Result, ok, err,
  map_err, assert, ◌>>=◌, ◌>>◌,
}
use entangle.Platform.Errors.{PlatformError}
use entangle.Platform.SharedMemory
use entangle.Platform.SharedMemory.{SharedMemory, Answers, read_u32, write_u32}
use entangle.Transport.Contracts.{LoanError}
use entangle.Transport.PointerOffset
use entangle.Transport.PointerOffset.{PointerOffset}
use entangle.Transport.PoolAllocator
use entangle.Transport.PoolAllocator.{PoolAllocator}

pub record DataSegment : Type 0 where
  pub shm : SharedMemory
  pub allocator : PoolAllocator
  pub chunk_size : ℕ
  pub chunk_count : ℕ

-- `size_of::<SegmentHeader>()`: two 32-bit fields, at 0 and at 4, and 56 reserved bytes.
abbrev pub header_size : ℕ
header_size = 64

-- `(chunk_size + 7) & !7`.
unfoldable pub align8 : ℕ → ℕ
align8 chunk_size = (chunk_size + 7) / 8 * 8

unfoldable pub write_header : ℕ → ℕ → SharedMemory → SharedMemory
write_header chunk_size chunk_count shm = record shm {
  memory = write_u32 (write_u32 shm.memory 0 (chunk_size % 2 ^ 32)) 4 chunk_count;
}

-- A reference to the header asserts that it fits the mapping; a mapping starts at a page, so that the
-- header is aligned.
create_on :
    ℕ → ℕ → ℕ → Result PlatformError SharedMemory → Option (Result PlatformError DataSegment)
create_on chunk_size chunk_count segment_id (err e) = some (err e)
create_on chunk_size chunk_count segment_id (ok shm) =
    assert (leb header_size shm.size)
    >> PoolAllocator.new chunk_count chunk_size segment_id header_size
    >>= λ pool. some (
        ok (record {
          shm = write_header chunk_size chunk_count shm;
          allocator = pool;
          chunk_size = chunk_size;
          chunk_count = chunk_count;
        }))

-- `none` is a panic of that assertion or of the allocator's constructor.
unfoldable pub create : String → ℕ → ℕ → ℕ → Answers → Option (Result PlatformError DataSegment)
unfolding create_on align8
create name chunk_size chunk_count segment_id os =
    let aligned = align8 chunk_size in
    create_on aligned chunk_count segment_id
      (SharedMemory.create name (header_size + aligned * chunk_count) os)

open_on : ℕ → Result PlatformError SharedMemory → Option (Result PlatformError DataSegment)
open_on segment_id (err e) = some (err e)
open_on segment_id (ok shm) =
    let chunk_size = read_u32 shm.memory 0 in
    let chunk_count = read_u32 shm.memory 4 in
    assert (leb header_size shm.size)
    >> PoolAllocator.new chunk_count chunk_size segment_id header_size
    >>= λ pool. some (
        ok (record {
          shm = shm;
          allocator = pool;
          chunk_size = chunk_size;
          chunk_count = chunk_count;
        }))

unfoldable pub open_existing : String → ℕ → Answers → Option (Result PlatformError DataSegment)
unfolding open_on
open_existing name segment_id os = open_on segment_id (SharedMemory.open_existing name os)

unfoldable pub allocate : DataSegment → Option (Result LoanError PointerOffset × DataSegment)
allocate d = PoolAllocator.allocate d.allocator >>= λ (answer, pool).
    some (answer, record d { allocator = pool })

unfoldable pub deallocate : PointerOffset → DataSegment → Option DataSegment
deallocate offset d =
    PoolAllocator.deallocate offset d.allocator >>= λ pool. some (record d { allocator = pool })

-- `resolve_ptr`: the offset of the pointer in the mapping, with the two `debug_assert!`s.
unfoldable pub resolve_ptr : PointerOffset → DataSegment → Option ℕ
resolve_ptr offset d =
    let byte_offset = PointerOffset.offset offset in
    if leb header_size byte_offset && leb (byte_offset + d.chunk_size) d.shm.size
    then some byte_offset
    else none

abbrev pub allocated_count : DataSegment → ℕ
allocated_count d = PoolAllocator.allocated_count d.allocator

unfoldable pub available : DataSegment → ℕ
available d = PoolAllocator.available d.allocator
