-- ===== src/Port/Blackboard/Tests.antt =====
-- A blackboard on a region that the system grants, and the theorem on its wiring there.
use entangle.Prelude.{
  ◌+◌, ◌*◌, ◌≤◌, max, ◌≡◌, refl, true, none, some, arith, ltb, if◌then◌else◌, ok, err,
}
use entangle.Platform.SharedMemory
use entangle.Platform.SharedMemory.{SharedMemory, Answers}
use entangle.Transport.DataSegment
use entangle.Transport.DataSegment.{align8}
use entangle.Transport.DataSegment.Header.{mapping}
use entangle.Errors.{service, already_exists, not_found}
use entangle.Port.Blackboard.{WriterRegistration, create_writer, create_reader}
use entangle.Port.Blackboard.Wiring.{create_writer-once}

abbrev granting : Answers
granting = mapping 80 (λ at. 255)

abbrev granted : SharedMemory
granted = record {
  memory = λ at. if ltb at 80 then 0 else 255;
  size = 80;
  name = "/bb";
  is_owner = true;
}

granted-create : SharedMemory.create "bb" (64 + align8 (max 12 8) * 1) granting ≡ ok granted
unfolding SharedMemory.create SharedMemory.normalize_name align8
granted-create = refl

create_writer-once_instance :
    (made : WriterRegistration) × (create_reader "speed" (record { writer = none })
      ≡ err (service (not_found "speed")))
    × (create_writer "bb" "speed" 12 granting (record { writer = none })
        ≡ some (ok made, record { writer = some made }))
    × (create_reader "speed" (record { writer = some made }) ≡ ok made)
    × (create_writer "bb" "speed" 12 granting (record { writer = some made })
        ≡ some (err (service (already_exists "speed")), record { writer = some made }))
    × (DataSegment.resolve_ptr made.data_offset made.segment ≡ some 64)
    × (made.sequence ≡ 0)
    × (12 ≤ made.segment.chunk_size)
unfolding align8
create_writer-once_instance =
    create_writer-once "bb" "speed" 12 granting (omega arith) granted-create
