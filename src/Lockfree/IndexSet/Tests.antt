-- ===== src/Lockfree/IndexSet/Tests.antt =====
-- Runs of the index set, after the unit tests of index_set.rs, and instances of its theorems.
use entangle.Prelude.{◌+◌, ◌^◌, ◌<◌, ◌≡◌, refl, some, [], ◌∷◌, arith, ok, err}
use entangle.Lockfree.IndexSet.Twice.{release_twice-acquire_twice}
use entangle.Lockfree.IndexSet.{
  UniqueIndexSet, acquire_error, sentinel, pack, extract_head, extract_tag, acquire, acquire_loop,
  release, release_loop,
}
use entangle.Lockfree.IndexSet.Words.{pack-fields}
use entangle.Lockfree.IndexSet.Inv.{IsValid}
use entangle.Lockfree.IndexSet.Refine.{
  top, rest, acquire-refines, release-refines, acquire_loop-eq-acquire, release_loop-eq-release,
}

-- Slot 1 is free, slot 0 is borrowed.
abbrev one_left : UniqueIndexSet
one_left = record { head = 2 ^ 32 + 1; next = 1 ∷ sentinel ∷ []; capacity = 2; borrowed = 1 }

one_left-IsValid : IsValid one_left (1 ∷ [])
unfolding extract_head
one_left-IsValid = record {
  sized = refl;
  small = omega arith;
  chain = (refl, omega arith, refl);
  distinct = omega arith;
  count = refl;
}

acquire-one_left :
    acquire one_left ≡ some (ok 1, record one_left { head = pack sentinel 2; borrowed = 2 })
unfolding acquire extract_head extract_tag
acquire-one_left = refl

acquire-empty :
    acquire (record one_left { head = 0xFFFF_FFFF_0000_0000; borrowed = 2 })
    ≡ some (err acquire_error, record one_left { head = 0xFFFF_FFFF_0000_0000; borrowed = 2 })
unfolding acquire extract_head
acquire-empty = refl

pack-fields_instance :
    (extract_head (pack 7 9) ≡ 7) × (extract_tag (pack 7 9) ≡ 9) × (pack 7 9 < 2 ^ 64)
pack-fields_instance = pack-fields 7 9 (omega arith) (omega arith)

acquire-refines_example :
    (t : UniqueIndexSet) × (acquire one_left ≡ some (top (1 ∷ []), t))
    × IsValid t (rest (1 ∷ []))
    × (t.capacity ≡ 2)
acquire-refines_example = acquire-refines {s = one_left} (1 ∷ []) one_left-IsValid

release-refines_example :
    (t : UniqueIndexSet) × (release 0 one_left ≡ some t) × IsValid t (0 ∷ 1 ∷ []) × (t.capacity ≡ 2)
release-refines_example =
    release-refines {s = one_left} 0 (1 ∷ []) one_left-IsValid (omega arith) (omega arith)

release_loop-eq-release_instance : release_loop 3 one_left.head 0 one_left ≡ release 0 one_left
release_loop-eq-release_instance = release_loop-eq-release 3 one_left 0 (omega arith) (omega arith)

acquire_loop-eq-acquire_instance : acquire_loop 3 one_left.head one_left ≡ acquire one_left
acquire_loop-eq-acquire_instance = acquire_loop-eq-acquire 3 (1 ∷ []) one_left-IsValid

release_twice-acquire_twice_example :
    (t u w : UniqueIndexSet) × (release 1 one_left ≡ some t)
    × (acquire t ≡ some (ok 1, u))
    × (acquire u ≡ some (ok 1, w))
release_twice-acquire_twice_example =
    release_twice-acquire_twice {s = one_left} 1 [] one_left-IsValid
