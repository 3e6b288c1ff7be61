-- ===== src/Transport/SegmentManager/Growth.antt =====
-- From which segment a chunk comes.
use entangle.Prelude.{ℕ, suc, ◌≡◌, refl, ap, none, some, List, [], ◌∷◌, ◌++◌, length, ok}
use entangle.Platform.SharedMemory.{Answers}
use entangle.Transport.PoolAllocator.{chunk}
use entangle.Transport.DataSegment.{DataSegment}
use entangle.Transport.DataSegment.Refine.{IsValid, allocate-refines}
use entangle.Transport.SegmentManager.{SegmentManager, allocate, allocate_from}

-- Segments without a free chunk.
abbrev pub AllFull : List DataSegment → Type 0
AllFull [] = Unit
AllFull (d ∷ ds) = IsValid d [] × AllFull ds

-- Full segments give nothing, and stay full.
allocate_from-full :
    (ds : List DataSegment)
    → AllFull ds
    → (es : List DataSegment) × (allocate_from ds ≡ some (none, es))
      × AllFull es
      × (length es ≡ length ds)
unfolding allocate_from
allocate_from-full [] full = ([], refl, tt, refl)
allocate_from-full (d ∷ ds) (v, full) =
    let (e, answered, valid, kept, same) = allocate-refines [] v in
    let (es, others, full', len) = allocate_from-full ds full in
    (e ∷ es, rw (answered, others) refl, (valid, full'), ap suc len)

-- The first segment that is not full gives its top free chunk, and the segments behind it stay as
-- they are.
pub allocate_from-first :
    (ds : List DataSegment) {d : DataSegment} (i : ℕ) (free : List ℕ) (behind : List DataSegment)
    → AllFull ds
    → IsValid d (i ∷ free)
    → (es : List DataSegment) × (e : DataSegment) × (allocate_from (ds ++ (d ∷ behind))
        ≡ some (some (chunk (d.allocator) i), es ++ (e ∷ behind)))
      × AllFull es
      × IsValid e free
unfolding allocate_from
allocate_from-first [] {d} i free behind full v =
    let (e, answered, valid, kept, same) = allocate-refines (i ∷ free) v in
    ([], e, rw answered refl, tt, valid)
allocate_from-first (d' ∷ ds) {d} i free behind (v', full) v =
    let (e', answered, valid', kept, same) = allocate-refines [] v' in
    let (es, e, found, full', valid) = allocate_from-first ds i free behind full v in
    (e' ∷ es, e, rw (answered, found) refl, (valid', full'), valid)

-- When the segments before one are valid and full, and that one is valid with a free chunk,
-- allocate hands out its top free chunk, leaves the segments behind it as they are, asks the
-- system for nothing, and changes no other field.
pub allocate-first :
    (os : Answers) (mgr : SegmentManager) (ds : List DataSegment) {d : DataSegment} (i : ℕ)
    (free : List ℕ) (behind : List DataSegment)
    → mgr.segments ≡ ds ++ (d ∷ behind)
    → AllFull ds
    → IsValid d (i ∷ free)
    → (es : List DataSegment) × (e : DataSegment) × (allocate os mgr
        ≡ some (ok (chunk (d.allocator) i), record mgr { segments = es ++ (e ∷ behind) }))
      × IsValid e free
unfolding allocate
allocate-first os mgr ds i free behind split full v =
    let (es, e, found, full', valid) = allocate_from-first ds i free behind full v in
    (es, e, rw (split, found) refl, valid)
