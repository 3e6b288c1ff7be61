-- ===== src/Transport/SegmentManager.antt =====
-- `SegmentManager` of crates/entangle-transport/src/segment_mgr.rs: several segments, with one more
-- when all are full.
pub mod Growth
mod Tests
use Prim.Native.String.{String}
use entangle.Prelude.{
  ℕ, zero, suc, ◌+◌, ◌-◌, ◌*◌, ◌/◌, ◌%◌, ◌^◌, ◌≤◌, ◌<◌, bit_and, bit_or, min, max, ◌≡◌, refl, sym,
  ap, ap₂, subst, ◌∙◌, ◌≢◌, ◌↔◌, ◌⊎◌, inl, inr, Bool, true, false, not, ◌&&◌, ◌||◌, Option, none,
  some, List, [], ◌∷◌, ◌++◌, map, arith, dec_lt, ℕ_discrete, ltb, leb, ◌==◌, if◌then◌else◌, ltb→lt,
  lt→ltb, le→leb, gt→leb, ==→eq, eq→==, ne→==, Bool-cases, Option-cases, length, get_elem?, get_or,
  set, replicate, length-replicate, length-append, length-set, get_elem?-eq-get_or, get_or-set_self,
  get_or-set_ne, store, store-in_range, range_from, All, Distinct, All-map, length-range_from,
  length-map, get_or-map_range, All-range_from, Distinct-range_from, pigeonhole, count,
  count-append, count_self, All-ne_of_count, Distinct-of_count, All-lt_of_count, length-le_of_count,
  count-range_from, Result, ok, err, map_err, assert, ◌>>=◌, ◌>>◌,
}
use entangle.Platform.Errors.{PlatformError}
use entangle.Platform.SharedMemory.{Answers}
use entangle.Transport.Contracts.{LoanError, out_of_memory}
use entangle.Transport.PointerOffset
use entangle.Transport.PointerOffset.{PointerOffset}
use entangle.Transport.DataSegment
use entangle.Transport.DataSegment.{DataSegment}

-- `seg_name` gives the name of the segment of a number, from the prefix.
pub record SegmentManager : Type 0 where
  pub segments : List DataSegment
  pub seg_name : ℕ → String
  pub chunk_size : ℕ
  pub chunks_per_segment : ℕ

abbrev initial :
    (ℕ → String) → ℕ → ℕ → Result PlatformError DataSegment → Result PlatformError SegmentManager
initial seg_name chunk_size chunks (err e) = err e
initial seg_name chunk_size chunks (ok segment) = ok (record {
  segments = segment ∷ [];
  seg_name = seg_name;
  chunk_size = chunk_size;
  chunks_per_segment = chunks;
})

unfoldable pub create :
    (ℕ → String) → ℕ → ℕ → Answers → Option (Result PlatformError SegmentManager)
create seg_name chunk_size chunks os =
    DataSegment.create (seg_name 0) chunk_size chunks 0 os >>= λ made.
    some (initial seg_name chunk_size chunks made)

-- The loop over the segments: the first that has a chunk gives it.
abbrev tried :
    Result LoanError PointerOffset × DataSegment
    → List DataSegment
    → Option (Option PointerOffset × List DataSegment)
    → Option (Option PointerOffset × List DataSegment)
tried (ok offset, segment) rest others = some (some offset, segment ∷ rest)
tried (err e, segment) rest others =
    others >>= λ (found, segments). some (found, segment ∷ segments)

unfoldable pub allocate_from : List DataSegment → Option (Option PointerOffset × List DataSegment)
allocate_from [] = some (none, [])
allocate_from (segment ∷ rest) =
    let others = allocate_from rest in
    DataSegment.allocate segment >>= λ answer. tried answer rest others

-- The new segment is pushed after its first chunk is taken, and is dropped when that fails.
abbrev pushed :
    SegmentManager
    → Result LoanError PointerOffset × DataSegment
    → Result LoanError PointerOffset × SegmentManager
pushed mgr (ok offset, segment) =
    (ok offset, record mgr { segments = mgr.segments ++ (segment ∷ []) })
pushed mgr (err e, segment) = (err e, mgr)

abbrev grown :
    SegmentManager
    → Result PlatformError DataSegment
    → Option (Result LoanError PointerOffset × SegmentManager)
grown mgr (err e) = some (err out_of_memory, mgr)
grown mgr (ok segment) = DataSegment.allocate segment >>= λ answer. some (pushed mgr answer)

abbrev pub allocated :
    Answers
    → SegmentManager
    → Option PointerOffset × List DataSegment
    → Option (Result LoanError PointerOffset × SegmentManager)
allocated os mgr (some offset, segments) = some (ok offset, record mgr { segments = segments })
allocated os mgr (none, segments) =
    let seg_id = length segments % 2 ^ 16 in
    DataSegment.create (mgr.seg_name seg_id) mgr.chunk_size mgr.chunks_per_segment seg_id os
    >>= grown (record mgr { segments = segments })

unfoldable pub allocate :
    Answers → SegmentManager → Option (Result LoanError PointerOffset × SegmentManager)
allocate os mgr = allocate_from mgr.segments >>= allocated os mgr

unfoldable pub deallocate : PointerOffset → SegmentManager → Option SegmentManager
deallocate offset mgr =
    let seg_id = PointerOffset.segment_id offset in
    if ltb seg_id (length mgr.segments)
    then (get_elem? mgr.segments seg_id >>= λ segment.
        DataSegment.deallocate offset segment >>= λ segment'.
        some (record mgr { segments = set mgr.segments seg_id segment' }))
    else some mgr

unfoldable pub resolve_ptr : PointerOffset → SegmentManager → Option (ℕ × ℕ)
resolve_ptr offset mgr =
    let seg_id = PointerOffset.segment_id offset in
    get_elem? mgr.segments seg_id >>= λ segment.
    DataSegment.resolve_ptr offset segment >>= λ at. some (seg_id, at)

abbrev pub segment_count : SegmentManager → ℕ
segment_count mgr = length mgr.segments

abbrev sum : List ℕ → ℕ
sum [] = 0
sum (n ∷ ns) = n + sum ns

unfoldable pub total_available : SegmentManager → ℕ
total_available mgr = sum (map DataSegment.available mgr.segments)

unfoldable pub total_allocated : SegmentManager → ℕ
total_allocated mgr = sum (map DataSegment.allocated_count mgr.segments)
