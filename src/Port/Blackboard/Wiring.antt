-- ===== src/Port/Blackboard/Wiring.antt =====
-- A blackboard has at most one writer, and its readers use the writer's slot.
use Prim.Native.String.{String}
use entangle.Prelude.{
  ℕ, ◌+◌, ◌*◌, ◌^◌, ◌≤◌, ◌<◌, max, ◌≡◌, refl, ap, subst, ◌∙◌, none, some, List, [], ◌∷◌, arith, ok,
  err,
}
use entangle.Platform.SharedMemory
use entangle.Platform.SharedMemory.{SharedMemory, Answers}
use entangle.Transport.PointerOffset.{PointerOffset}
use entangle.Transport.PoolAllocator.{chunk}
use entangle.Transport.DataSegment
use entangle.Transport.DataSegment.{DataSegment, header_size, align8}
use entangle.Transport.DataSegment.Refine.{
  IsValid as IsValidSegment, create-IsValid, allocate-refines, resolve_ptr-chunk, align8_bounds,
}
use entangle.Errors.{service, already_exists, not_found}
use entangle.Port.Blackboard.{
  WriterRegistration, BlackboardShared, create_writer, create_reader, register,
}

-- The segment that the builder makes, once its one chunk is taken.
created_alone :
    (seg_name name : String) (payload_size : ℕ) (os : Answers) (shared : BlackboardShared)
    {d e : DataSegment} {offset : PointerOffset}
    → DataSegment.create seg_name (max payload_size 8) 1 0 os ≡ some (ok d)
    → DataSegment.allocate d ≡ some (ok offset, e)
    → create_writer seg_name name payload_size os shared
      ≡ some (
          register name shared
            (record { segment = e; sequence = 0; data_offset = offset })
            shared.writer)
unfolding create_writer
created_alone seg_name name payload_size os shared made taken = rw (made, taken) refl

first_chunk :
    {e : DataSegment} {free : List ℕ}
    → IsValidSegment e free
    → 0 < e.allocator.index_set.capacity
    → DataSegment.resolve_ptr (chunk (e.allocator) 0) e ≡ some header_size
first_chunk {e} {free} valid pos = resolve_ptr-chunk free 0 valid pos ∙ ap some (omega arith)

-- When the system grants the region and it fits 48 bits, the first writer of a blackboard gets
-- the slot behind the header, with room for the payload and sequence 0; a reader before it is
-- refused as not found, a reader after it gets the same registration, and a second writer is
-- refused as already existing and changes nothing.
pub create_writer-once :
    (seg_name name : String) (payload_size : ℕ) (os : Answers) {shm : SharedMemory}
    → header_size + align8 (max payload_size 8) * 1 ≤ 2 ^ 48
    → SharedMemory.create seg_name (header_size + align8 (max payload_size 8) * 1) os ≡ ok shm
    → (made : WriterRegistration) × (create_reader name (record { writer = none })
        ≡ err (service (not_found name)))
      × (create_writer seg_name name payload_size os (record { writer = none })
          ≡ some (ok made, record { writer = some made }))
      × (create_reader name (record { writer = some made }) ≡ ok made)
      × (create_writer seg_name name payload_size os (record { writer = some made })
          ≡ some (err (service (already_exists name)), record { writer = some made }))
      × (DataSegment.resolve_ptr made.data_offset made.segment ≡ some header_size)
      × (made.sequence ≡ 0)
      × (payload_size ≤ made.segment.chunk_size)
unfolding create_reader
create_writer-once seg_name name payload_size os fits granted =
    let (d, made, valid, chunk_size, cap) =
      create-IsValid seg_name (max payload_size 8) 1 0 os (omega arith) (omega arith) (omega arith)
        (omega arith) fits granted in
    let (e, taken, valid', kept, same) = allocate-refines (0 ∷ []) valid in
    let size : e.chunk_size ≡ d.chunk_size = ap (λ x. x.chunk_size) kept in
    let place : chunk (e.allocator) 0 ≡ chunk (d.allocator) 0 =
      ap (λ x. chunk (x.allocator) 0) kept in
    (
      record { segment = e; sequence = 0; data_offset = chunk (d.allocator) 0 },
      refl,
      created_alone seg_name name payload_size os (record { writer = none }) made taken,
      refl,
      created_alone seg_name name payload_size os _ made taken,
      subst (λ o. DataSegment.resolve_ptr o e ≡ some header_size) place
          (first_chunk valid' (omega (arith, same, cap))),
      refl,
      omega (arith, size, chunk_size, (align8_bounds (max payload_size 8)).0),
    )
