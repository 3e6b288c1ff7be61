-- ===== src/Transport/DataSegment/Tests.antt =====
-- A small segment, and instances of the theorems on segments.
use entangle.Prelude.{
  ℕ, ◌+◌, ◌*◌, ◌^◌, ◌≡◌, refl, true, some, List, [], ◌∷◌, arith, ltb, if◌then◌else◌, range_from, ok,
}
use entangle.Platform.SharedMemory
use entangle.Platform.SharedMemory.{SharedMemory, Memory, Answers, write_u32}
use entangle.Lockfree.IndexSet
use entangle.Lockfree.IndexSet.{sentinel}
use entangle.Transport.PoolAllocator.{chunk}
use entangle.Transport.DataSegment.{
  DataSegment, header_size, align8, write_header, create, open_existing, resolve_ptr,
}
use entangle.Transport.DataSegment.Refine.{IsValid, resolve_ptr-chunk, create-IsValid}
use entangle.Transport.DataSegment.Header.{mapping, open_existing-header}

-- Two chunks of 32 bytes; chunk 0 is allocated.
abbrev segment : DataSegment
segment = record {
  shm = record { memory = λ at. 0; size = 128; name = "/seg"; is_owner = true };
  allocator = record {
    index_set = record { head = 2 ^ 32 + 1; next = 1 ∷ sentinel ∷ []; capacity = 2; borrowed = 1 };
    chunk_size = 32;
    segment_id = 0;
    base_offset = 64;
  };
  chunk_size = 32;
  chunk_count = 2;
}

abbrev free : List ℕ
free = 1 ∷ []

segment-IsValid : IsValid segment free
unfolding IndexSet.extract_head
segment-IsValid = record {
  pool = record {
    set = record {
      sized = refl;
      small = omega arith;
      chain = omega arith;
      distinct = omega arith;
      count = refl;
    };
    chunky = omega arith;
    segment = omega arith;
    fits = omega arith;
  };
  same_size = refl;
  based = refl;
  room = omega arith;
}

resolve_ptr-chunk_instance :
    resolve_ptr (chunk segment.allocator 1) segment ≡ some (header_size + 1 * 32)
resolve_ptr-chunk_instance = resolve_ptr-chunk free 1 segment-IsValid (omega arith)

-- The system grants the region, with arbitrary bytes.
abbrev granting : Answers
granting = mapping 128 (λ at. 255)

abbrev granted : SharedMemory
granted = record {
  memory = λ at. if ltb at 128 then 0 else 255;
  size = 128;
  name = "/seg";
  is_owner = true;
}

granted-create : SharedMemory.create "seg" (header_size + align8 30 * 2) granting ≡ ok granted
unfolding SharedMemory.create SharedMemory.normalize_name align8
granted-create = refl

create-IsValid_instance :
    (d : DataSegment) × (create "seg" 30 2 0 granting ≡ some (ok d))
    × IsValid d (range_from 0 2)
    × (d.chunk_size ≡ align8 30)
    × (d.allocator.index_set.capacity ≡ 2)
unfolding align8
create-IsValid_instance =
    create-IsValid "seg" 30 2 0 granting (omega arith) (omega arith) (omega arith) (omega arith)
      (omega arith) granted-create

open_existing-header_example :
    (d : DataSegment) × (open_existing "seg" 0 (mapping 128 (write_header 32 2 granted).memory)
      ≡ some (ok d))
    × (d.chunk_size ≡ 32)
    × (d.chunk_count ≡ 2)
    × IsValid d (range_from 0 2)
open_existing-header_example =
    open_existing-header "seg" 0 128 32 2 granted (omega arith) (omega arith) (omega arith)
      (omega arith) (omega arith) (omega arith) (omega arith) (omega arith)
