-- ===== src/Transport/SegmentManager/Tests.antt =====
-- A full segment before one with a free chunk, and the theorem on the choice there.
use entangle.Prelude.{ℕ, ◌+◌, ◌*◌, ◌^◌, ◌≡◌, refl, true, some, List, [], ◌∷◌, ◌++◌, arith, ok, err}
use entangle.Lockfree.IndexSet
use entangle.Lockfree.IndexSet.{sentinel}
use entangle.Platform.SharedMemory.{Answers}
use entangle.Transport.PoolAllocator.{chunk}
use entangle.Transport.DataSegment.{DataSegment}
use entangle.Transport.DataSegment.Refine.{IsValid}
use entangle.Transport.SegmentManager.{SegmentManager, allocate}
use entangle.Transport.SegmentManager.Growth.{allocate-first}

-- Two chunks of 32 bytes, the head of the free list, and the number of borrowed chunks.
abbrev segment : ℕ → ℕ → ℕ → DataSegment
segment id head borrowed = record {
  shm = record { memory = λ at. 0; size = 128; name = "/seg"; is_owner = true };
  allocator = record {
    index_set = record { head = head; next = 1 ∷ sentinel ∷ []; capacity = 2; borrowed = borrowed };
    chunk_size = 32;
    segment_id = id;
    base_offset = 64;
  };
  chunk_size = 32;
  chunk_count = 2;
}

abbrev full : DataSegment
full = segment 0 (sentinel * 2 ^ 32 + 2) 2

abbrev half : DataSegment
half = segment 1 (2 ^ 32 + 1) 1

full-IsValid : IsValid full []
unfolding IndexSet.extract_head
full-IsValid = record {
  pool = record {
    set = record {
      sized = refl;
      small = omega arith;
      chain = omega arith;
      distinct = tt;
      count = refl;
    };
    chunky = omega arith;
    segment = omega arith;
    fits = omega arith;
  };
  same_size = refl;
  based = refl;
  room = omega arith;
}

half-IsValid : IsValid half (1 ∷ [])
unfolding IndexSet.extract_head
half-IsValid = record {
  pool = record {
    set = record {
      sized = refl;
      small = omega arith;
      chain = omega arith;
      distinct = omega arith;
      count = refl;
    };
    chunky = omega arith;
    segment = omega arith;
    fits = omega arith;
  };
  same_size = refl;
  based = refl;
  room = omega arith;
}

abbrev manager : SegmentManager
manager = record {
  segments = full ∷ half ∷ [];
  seg_name = λ n. "seg";
  chunk_size = 32;
  chunks_per_segment = 2;
}

-- A system that refuses everything.
abbrev refusing : Answers
refusing = record { shm_open = err 13; ftruncate = err 13; fstat = err 13; mapped = err 13 }

allocate-first_instance :
    (es : List DataSegment) × (e : DataSegment) × (allocate refusing manager
      ≡ some (ok (chunk (half.allocator) 1), record manager { segments = es ++ (e ∷ []) }))
    × IsValid e []
allocate-first_instance =
    allocate-first refusing manager (full ∷ []) 1 [] [] refl (full-IsValid, tt) half-IsValid
