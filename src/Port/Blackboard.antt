-- ===== src/Port/Blackboard.antt =====
-- The blackboard of crates/entangle/src/service/blackboard.rs, with the builders of its ports in
-- crates/entangle/src/port/writer.rs and crates/entangle/src/port/reader.rs. The value's slot is the one
-- chunk of a segment; the accesses to it are those of the child module.
pub mod Seqlock
pub mod Wiring
mod Tests
use Prim.Native.String.{String}
use entangle.Prelude.{
  ℕ, zero, suc, ◌+◌, ◌-◌, ◌*◌, ◌/◌, ◌%◌, ◌^◌, ◌≤◌, ◌<◌, bit_and, bit_or, min, max, ◌≡◌, refl, sym,
  ap, ap₂, subst, ◌∙◌, ◌≢◌, ◌↔◌, ◌⊎◌, inl, inr, Bool, true, false, not, ◌&&◌, ◌||◌, Option, none,
  some, List, [], ◌∷◌, ◌++◌, map, arith, dec_lt, ℕ_discrete, ltb, leb, ◌==◌, if◌then◌else◌, ltb→lt,
  lt→ltb, le→leb, gt→leb, ==→eq, eq→==, ne→==, Bool-cases, Option-cases, length, get_elem?, get_or,
  set, replicate, length-replicate, length-append, length-set, get_elem?-eq-get_or, get_or-set_self,
  get_or-set_ne, store, store-in_range, range_from, All, Distinct, All-map, length-range_from,
  length-map, get_or-map_range, All-range_from, Distinct-range_from, pigeonhole, count,
  count-append, count_self, All-ne_of_count, Distinct-of_count, All-lt_of_count, length-le_of_count,
  count-range_from, Result, ok, err, map_err, assert, ◌>>=◌, ◌>>◌,
}
use entangle.Platform.Errors.{PlatformError, process_monitor}
use entangle.Platform.SharedMemory.{Answers}
use entangle.Transport.Contracts.{LoanError}
use entangle.Transport.PointerOffset.{PointerOffset}
use entangle.Transport.DataSegment
use entangle.Transport.DataSegment.{DataSegment}
use entangle.Errors.{IpcError, service, platform as platform_failed, already_exists, not_found}

-- What a writer registers; the writer itself, and each reader, hold the same three parts.
pub record WriterRegistration : Type 0 where
  pub segment : DataSegment
  pub sequence : ℕ
  pub data_offset : PointerOffset

pub record BlackboardShared : Type 0 where
  pub writer : Option WriterRegistration

-- The part of `WriterBuilder::create` under the lock.
abbrev pub register :
    String
    → BlackboardShared
    → WriterRegistration
    → Option WriterRegistration
    → Result IpcError WriterRegistration × BlackboardShared
register name shared made (some other) = (err (service (already_exists name)), shared)
register name shared made none = (ok made, record shared { writer = some made })

abbrev on_allocated :
    String
    → BlackboardShared
    → Result LoanError PointerOffset × DataSegment
    → Result IpcError WriterRegistration × BlackboardShared
on_allocated name shared (err e, segment) = (err (platform_failed process_monitor), shared)
on_allocated name shared (ok offset, segment) =
    register name shared (record { segment = segment; sequence = 0; data_offset = offset })
      shared.writer

abbrev on_segment :
    String
    → BlackboardShared
    → Result PlatformError DataSegment
    → Option (Result IpcError WriterRegistration × BlackboardShared)
on_segment name shared (err e) = some (err (platform_failed e), shared)
on_segment name shared (ok segment) =
    DataSegment.allocate segment >>= λ answer. some (on_allocated name shared answer)

-- `WriterBuilder::create`, with the name of the segment.
unfoldable pub create_writer :
    String
    → String
    → ℕ
    → Answers
    → BlackboardShared
    → Option (Result IpcError WriterRegistration × BlackboardShared)
create_writer seg_name name payload_size os shared =
    DataSegment.create seg_name (max payload_size 8) 1 0 os >>= on_segment name shared

-- `ReaderBuilder::create`.
unfoldable pub create_reader : String → BlackboardShared → Result IpcError WriterRegistration
create_reader name shared = elim (shared.writer) [
  | none ↦ err (service (not_found name))
  | some made ↦ ok made
]
