-- ===== src/Lockfree/IndexSet.antt =====
-- `UniqueIndexSet` of crates/entangle-lockfree/src/index_set.rs: a free list threaded through an
-- array, its head packed with a tag into one 64-bit word. `Threads` interleaves the accesses of
-- several threads. An operation here runs alone: its
-- compare-exchange finds the word that it loaded, and may still fail spuriously.
pub mod Words
pub mod Inv
pub mod Refine
pub mod Twice
pub mod Threads
mod Tests
use entangle.Prelude.{
  assert, ◌>>◌, ℕ, zero, suc, ◌+◌, ◌-◌, ◌*◌, ◌/◌, ◌%◌, ◌^◌, bit_and, bit_or, ◌&&◌, List, map,
  Option, none, some, length, get_elem?, store, range_from, ltb, ◌==◌, if◌then◌else◌, Result, ok,
  err, ◌>>=◌,
}

pub record UniqueIndexSet : Type 0 where
  pub head : ℕ
  pub next : List ℕ
  pub capacity : ℕ
  pub borrowed : ℕ

abbrev pub sentinel : ℕ
sentinel = 0xFFFF_FFFF

abbrev pub tag_mask : ℕ
tag_mask = 0xFFFF_FFFF

pub data AcquireError : Type 0 where
  acquire_error : AcquireError

unfoldable pub pack : ℕ → ℕ → ℕ
pack head tag = bit_or (head * 2 ^ 32 % 2 ^ 64) (bit_and tag tag_mask)

unfoldable pub extract_head : ℕ → ℕ
extract_head val = val / 2 ^ 32 % 2 ^ 32

unfoldable pub extract_tag : ℕ → ℕ
extract_tag val = bit_and val tag_mask % 2 ^ 32

-- The free list at the start: each slot points to the one above it, the last to nothing.
unfoldable pub initial_link : ℕ → ℕ → ℕ
initial_link capacity i = if ltb (i + 1) capacity then i + 1 else sentinel

-- `none` is the panic of the `assert!`.
unfoldable pub new : ℕ → Option UniqueIndexSet
unfolding initial_link
new capacity =
    if ltb 0 capacity && ltb capacity sentinel
    then some (record {
      head = pack 0 0;
      next = map (initial_link capacity) (range_from 0 capacity);
      capacity = capacity;
      borrowed = 0;
    })
    else none

-- The loop of `acquire` from the loaded word `old`, with the number of rounds whose
-- compare-exchange fails spuriously. `none` is the panic of an index out of bounds.
unfoldable pub acquire_loop :
    ℕ → ℕ → UniqueIndexSet → Option (Result AcquireError ℕ × UniqueIndexSet)
acquire_loop zero old s =
    if extract_head old == sentinel
    then some (err acquire_error, s)
    else get_elem? s.next (extract_head old) >>= λ next_idx. some (
      ok (extract_head old),
      record s {
        head = pack next_idx ((extract_tag old + 1) % 2 ^ 32);
        borrowed = (s.borrowed + 1) % 2 ^ 32;
      },
    )
acquire_loop (suc failures) old s =
    let again = acquire_loop failures s.head s in
    if extract_head old == sentinel
    then some (err acquire_error, s)
    else get_elem? s.next (extract_head old) >>= λ _. again

unfoldable pub acquire : UniqueIndexSet → Option (Result AcquireError ℕ × UniqueIndexSet)
unfolding acquire_loop
acquire s = acquire_loop 0 s.head s

-- The loop of `release`: each round stores the head that it saw in the released slot.
unfoldable pub release_loop : ℕ → ℕ → ℕ → UniqueIndexSet → Option UniqueIndexSet
release_loop zero old index s = store s.next index (extract_head old) >>= λ links. some (record s {
  head = pack index ((extract_tag old + 1) % 2 ^ 32);
  next = links;
  borrowed = (s.borrowed + 2 ^ 32 - 1) % 2 ^ 32;
})
release_loop (suc failures) old index s = store s.next index (extract_head old) >>= λ links.
    release_loop failures s.head index (record s { next = links })

-- `release`, with its debug assertion.
unfoldable pub release : ℕ → UniqueIndexSet → Option UniqueIndexSet
unfolding release_loop
release index s = assert (ltb index s.capacity) >> release_loop 0 s.head index s

abbrev pub borrowed_count : UniqueIndexSet → ℕ
borrowed_count s = s.borrowed

-- `saturating_sub` is `-` on ℕ.
unfoldable pub available : UniqueIndexSet → ℕ
available s = s.capacity - borrowed_count s
