-- ===== src/Transport/DataSegment/Header.antt =====
-- What a second process reads in the header that `DataSegment::create` wrote.
use Prim.Native.String.{String}
use entangle.Prelude.{
  le→leb, ℕ, ◌+◌, ◌*◌, ◌%◌, ◌^◌, ◌≤◌, ◌<◌, ◌≡◌, refl, sym, ◌∙◌, inr, false, some, arith, ne→==,
  range_from, ok,
}
use entangle.Platform.SharedMemory
use entangle.Platform.SharedMemory.{
  SharedMemory, Memory, Answers, read_u32, write_u32, normalize_name,
}
use entangle.Platform.SharedMemory.Words.{read_u32-write_u32_self, read_u32-write_u32_apart}
use entangle.Lockfree.IndexSet.{sentinel}
use entangle.Transport.PoolAllocator
use entangle.Transport.PoolAllocator.{PoolAllocator}
use entangle.Transport.PoolAllocator.Refine.{new-IsValid as pool_new}
use entangle.Transport.DataSegment.{DataSegment, header_size, write_header, open_existing}
use entangle.Transport.DataSegment.Refine.{IsValid}

-- The fields of the header that `write_header` leaves, modulo their width of 32 bits.
pub header-fields :
    (chunk_size chunk_count : ℕ) (shm : SharedMemory)
    → let m = (write_header chunk_size chunk_count shm).memory in
      (read_u32 m 0 ≡ chunk_size % 2 ^ 32) × (read_u32 m 4 ≡ chunk_count % 2 ^ 32)
unfolding write_header
header-fields chunk_size chunk_count shm = (
  read_u32-write_u32_apart (write_u32 shm.memory 0 (chunk_size % 2 ^ 32)) 4 0 chunk_count
        (inr (omega arith))
      ∙ read_u32-write_u32_self shm.memory 0 (chunk_size % 2 ^ 32)
      ∙ omega arith,
  read_u32-write_u32_self (write_u32 shm.memory 0 (chunk_size % 2 ^ 32)) 4 chunk_count,
)

-- The answers of a system that maps the `size` bytes `m` for a process that opens them.
abbrev pub mapping : ℕ → Memory → Answers
mapping size m = record { shm_open = ok 0; ftruncate = ok tt; fstat = ok size; mapped = ok m }

-- The segment that `open_existing` builds round the allocator made from the header.
abbrev opened : String → ℕ → ℕ → ℕ → SharedMemory → PoolAllocator → DataSegment
opened name size chunk_size chunk_count shm pool = record {
  shm = record {
    memory = (write_header chunk_size chunk_count shm).memory;
    size = size;
    name = normalize_name name;
    is_owner = false;
  };
  allocator = pool;
  chunk_size = chunk_size;
  chunk_count = chunk_count;
}

open_existing-opened :
    (name : String) (segment_id size chunk_size chunk_count : ℕ) (shm : SharedMemory)
    {pool : PoolAllocator}
    → 0 < size
    → header_size ≤ size
    → chunk_size < 2 ^ 32
    → chunk_count < sentinel
    → PoolAllocator.new chunk_count chunk_size segment_id header_size ≡ some pool
    → open_existing name segment_id (mapping size (write_header chunk_size chunk_count shm).memory)
      ≡ some (ok (opened name size chunk_size chunk_count shm pool))
unfolding open_existing SharedMemory.open_existing
open_existing-opened name segment_id size chunk_size chunk_count shm some_size holds small few
      made =
    let fields = header-fields chunk_size chunk_count shm in
    let e₁ : read_u32 (write_header chunk_size chunk_count shm).memory 0 ≡ chunk_size =
      omega (arith, fields.0) in
    let e₂ : read_u32 (write_header chunk_size chunk_count shm).memory 4 ≡ chunk_count =
      omega (arith, fields.1) in
    rw (ne→== size 0 (omega arith)) (rw (e₁, e₂, le→leb header_size size holds, made) refl)

-- A process that opens a mapping with the header that the creator wrote, of a positive chunk size
-- and a positive count that fit 32 bits (the count below 2^32 - 1) and fit the mapping of at most
-- 2^48 bytes, with a segment number of 16 bits, gets that chunk size and count, and an allocator
-- of its own in which every chunk is free.
pub open_existing-header :
    (name : String) (segment_id size chunk_size chunk_count : ℕ) (shm : SharedMemory)
    → 0 < size
    → 0 < chunk_size
    → chunk_size < 2 ^ 32
    → 0 < chunk_count
    → chunk_count < sentinel
    → segment_id < 2 ^ 16
    → header_size + chunk_count * chunk_size ≤ size
    → size ≤ 2 ^ 48
    → (d : DataSegment) × (open_existing name segment_id
          (mapping size (write_header chunk_size chunk_count shm).memory)
        ≡ some (ok d))
      × (d.chunk_size ≡ chunk_size)
      × (d.chunk_count ≡ chunk_count)
      × IsValid d (range_from 0 chunk_count)
open_existing-header name segment_id size chunk_size chunk_count shm some_size pos small some_chunks
      few seg fits word =
    let (pool, made, valid, cap, chunk, segment, base) =
      pool_new chunk_count chunk_size segment_id header_size some_chunks few pos seg
        (omega arith) in
    (
      opened name size chunk_size chunk_count shm pool,
      open_existing-opened name segment_id size chunk_size chunk_count shm some_size
          (omega (arith, fits)) small few made,
      refl,
      refl,
      record { pool = valid; same_size = sym chunk; based = base; room = rw (cap, chunk) fits },
    )
