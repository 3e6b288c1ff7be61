-- ===== src/Lockfree/IndexSet/Twice.antt =====
-- What the index set does with a caller that releases an index twice.
use entangle.Prelude.{
  lt→ltb, ℕ, ◌+◌, ◌-◌, ◌%◌, ◌^◌, ◌<◌, ◌≡◌, refl, ap, ◌∙◌, some, List, ◌∷◌, arith, ne→==, get_elem?,
  set, length-set, get_elem?-eq-get_or, get_or-set_self, store-in_range, ok,
}
use entangle.Lockfree.IndexSet.{
  UniqueIndexSet, sentinel, pack, extract_head, extract_tag, acquire, acquire_loop, release,
  release_loop,
}
use entangle.Lockfree.IndexSet.Words.{extract_head-pack}
use entangle.Lockfree.IndexSet.Inv.{IsValid}

-- An index that is released while it is on top of the free stack stays there, and points to itself.
pub release_self :
    {s : UniqueIndexSet} (i : ℕ) (rest : List ℕ)
    → IsValid s (i ∷ rest)
    → (t : UniqueIndexSet) × (release i s ≡ some t)
      × (extract_head t.head ≡ i)
      × (get_elem? t.next i ≡ some i)
unfolding release release_loop
release_self {s} i rest v = (
  record s {
    head = pack i ((extract_tag s.head + 1) % 2 ^ 32);
    next = set s.next i (extract_head s.head);
    borrowed = (s.borrowed + 2 ^ 32 - 1) % 2 ^ 32;
  },
  rw
      (
        lt→ltb i s.capacity (omega (arith, v.sized, v.chain.1)),
        store-in_range s.next i (extract_head s.head) v.chain.1,
      )
      refl,
  extract_head-pack i _ (omega (arith, v.sized, v.small, v.chain.1)),
  get_elem?-eq-get_or (set s.next i (extract_head s.head)) i 0
        (omega (arith, length-set s.next i (extract_head s.head), v.chain.1))
      ∙ ap some (get_or-set_self s.next i (extract_head s.head) 0 v.chain.1 ∙ v.chain.0),
)

-- A slot that points to itself is handed out again and again.
pub acquire_self :
    (s : UniqueIndexSet) (i : ℕ)
    → i < sentinel
    → extract_head s.head ≡ i
    → get_elem? s.next i ≡ some i
    → (t : UniqueIndexSet) × (acquire s ≡ some (ok i, t))
      × (extract_head t.head ≡ i)
      × (t.next ≡ s.next)
unfolding acquire acquire_loop
acquire_self s i small here loops = (
  record s {
    head = pack i ((extract_tag s.head + 1) % 2 ^ 32);
    borrowed = (s.borrowed + 1) % 2 ^ 32;
  },
  rw (here, ne→== i sentinel (omega arith), loops) refl,
  extract_head-pack i _ (omega arith),
  refl,
)

-- On a valid index set, releasing once more the index on top of the free stack returns, and then
-- the two next calls of acquire both hand out that index.
pub release_twice-acquire_twice :
    {s : UniqueIndexSet} (i : ℕ) (rest : List ℕ)
    → IsValid s (i ∷ rest)
    → (t u w : UniqueIndexSet) × (release i s ≡ some t)
      × (acquire t ≡ some (ok i, u))
      × (acquire u ≡ some (ok i, w))
release_twice-acquire_twice {s} i rest v =
    let small : i < sentinel = omega (arith, v.sized, v.small, v.chain.1) in
    let (t, released, top, loops) = release_self i rest v in
    let (u, first, top', same) = acquire_self t i small top loops in
    let (w, second, top'', same') = acquire_self u i small top' (rw same loops) in
    (t, u, w, released, first, second)
