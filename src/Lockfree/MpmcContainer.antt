-- ===== src/Lockfree/MpmcContainer.antt =====
-- `MpmcContainer` of crates/entangle-lockfree/src/mpmc_container.rs: slots for values, the bitset of
-- those in use, and a free list as in the index set. An operation here runs alone, and its
-- compare-exchange succeeds.
pub mod Slots
pub mod Fresh
mod Tests
use entangle.Prelude.{
  ℕ, zero, suc, ◌+◌, ◌-◌, ◌*◌, ◌/◌, ◌%◌, ◌^◌, ◌≤◌, ◌<◌, bit_and, bit_or, min, max, ◌≡◌, refl, sym,
  ap, ap₂, subst, ◌∙◌, ◌≢◌, ◌↔◌, ◌⊎◌, inl, inr, Bool, true, false, not, ◌&&◌, ◌||◌, Option, none,
  some, List, [], ◌∷◌, ◌++◌, map, arith, dec_lt, ℕ_discrete, ltb, leb, ◌==◌, if◌then◌else◌, ltb→lt,
  lt→ltb, le→leb, gt→leb, ==→eq, eq→==, ne→==, Bool-cases, Option-cases, length, get_elem?, get_or,
  set, replicate, length-replicate, length-append, length-set, get_elem?-eq-get_or, get_or-set_self,
  get_or-set_ne, store, store-in_range, range_from, All, Distinct, All-map, length-range_from,
  length-map, get_or-map_range, All-range_from, Distinct-range_from, pigeonhole, count,
  count-append, count_self, All-ne_of_count, Distinct-of_count, All-lt_of_count, length-le_of_count,
  count-range_from, Result, ok, err, map_err, assert, ◌>>=◌, ◌>>◌,
}
use entangle.Lockfree.AtomicBitSet
use entangle.Lockfree.AtomicBitSet.{AtomicBitSet, set_bit, clear, is_set, count_set}

pub record MpmcContainer : Type 0 where
  pub values : List ℕ
  pub occupied : AtomicBitSet
  pub free_head : ℕ
  pub next : List ℕ
  pub capacity : ℕ

abbrev pub last : ℕ
last = 0xFFFF_FFFF

abbrev pub pack_head : ℕ → ℕ → ℕ
pack_head head tag = bit_or (head * 2 ^ 32 % 2 ^ 64) tag

abbrev pub extract_head : ℕ → ℕ
extract_head val = val / 2 ^ 32 % 2 ^ 32

abbrev pub extract_tag : ℕ → ℕ
extract_tag val = val % 2 ^ 32

unfoldable pub new : ℕ → Option MpmcContainer
new capacity =
    assert (ltb 0 capacity)
    >> some (record {
      values = replicate capacity 0;
      occupied = AtomicBitSet.new capacity;
      free_head = pack_head 0 0;
      next = map (λ i. if ltb (i + 1) capacity then i + 1 else last) (range_from 0 capacity);
      capacity = capacity;
    })

unfoldable pub alloc_slot : MpmcContainer → Option (Option ℕ × MpmcContainer)
alloc_slot c =
    if extract_head c.free_head == last
    then some (none, c)
    else (get_elem? c.next (extract_head c.free_head) >>= λ next_idx. some (
      some (extract_head c.free_head),
      record c { free_head = pack_head next_idx ((extract_tag c.free_head + 1) % 2 ^ 32) },
    ))

unfoldable pub free_slot : ℕ → MpmcContainer → Option MpmcContainer
free_slot slot c = store c.next slot (extract_head c.free_head) >>= λ links.
    some (record c {
      next = links;
      free_head = pack_head slot ((extract_tag c.free_head + 1) % 2 ^ 32);
    })

-- The part of `add` behind the allocation.
abbrev added : ℕ → Option ℕ × MpmcContainer → Option (Option ℕ × MpmcContainer)
added value (none, c) = some (none, c)
added value (some slot, c) = store c.values slot value >>= λ values.
    set_bit slot c.occupied >>= λ (was_clear, occupied).
    some (some slot, record c { values = values; occupied = occupied })

unfoldable pub add : ℕ → MpmcContainer → Option (Option ℕ × MpmcContainer)
add value c = alloc_slot c >>= added value

-- The part of `remove` behind the clearing of the bit.
abbrev removed : ℕ → MpmcContainer → Bool × AtomicBitSet → Option (Option ℕ × MpmcContainer)
removed slot c (false, occupied) = some (none, record c { occupied = occupied })
removed slot c (true, occupied) = get_elem? c.values slot >>= λ value.
    free_slot slot (record c { occupied = occupied }) >>= λ c'. some (some value, c')

unfoldable pub remove : ℕ → MpmcContainer → Option (Option ℕ × MpmcContainer)
remove slot c = clear slot c.occupied >>= removed slot c

abbrev taken : ℕ → MpmcContainer → Bool → Option (Option ℕ)
taken slot c true = get_elem? c.values slot >>= λ value. some (some value)
taken slot c false = some none

unfoldable pub get : ℕ → MpmcContainer → Option (Option ℕ)
get slot c = is_set slot c.occupied >>= taken slot c

-- `for_each`: the index and value of each slot in use, of the slots given.
abbrev with_slot : ℕ → Option ℕ → List (ℕ × ℕ) → List (ℕ × ℕ)
with_slot slot (some value) rest = (slot, value) ∷ rest
with_slot slot none rest = rest

abbrev entries_of : List ℕ → MpmcContainer → Option (List (ℕ × ℕ))
entries_of [] c = some []
entries_of (slot ∷ slots) c =
    get slot c >>= λ value. entries_of slots c >>= λ rest. some (with_slot slot value rest)

unfoldable pub for_each : MpmcContainer → Option (List (ℕ × ℕ))
for_each c = entries_of (range_from 0 c.capacity) c

unfoldable pub len : MpmcContainer → ℕ
len c = count_set c.occupied

unfoldable pub is_empty : MpmcContainer → Bool
unfolding len
is_empty c = len c == 0
