-- ===== src/Lockfree/MpmcContainer/Fresh.antt =====
-- A new container, mpmc_container.rs.
use entangle.Prelude.{
  ℕ, zero, suc, ◌+◌, ◌/◌, ◌%◌, ◌<◌, ◌≡◌, refl, ◌∙◌, none, some, map, arith, ltb, if◌then◌else◌,
  lt→ltb, get_or, replicate, length-replicate, range_from, count-range_from,
}
use entangle.Prelude.Digits.{bit}
use entangle.Lockfree.AtomicBitSet
use entangle.Lockfree.AtomicBitSet.{AtomicBitSet}
use entangle.Lockfree.AtomicBitSet.Members.{member}
use entangle.Lockfree.IndexSet
use entangle.Lockfree.IndexSet.{initial_link}
use entangle.Lockfree.IndexSet.Refine.{length-links, Chain-fresh}
use entangle.Lockfree.MpmcContainer.{MpmcContainer, last, pack_head, new, get}
use entangle.Lockfree.MpmcContainer.Slots.{IsValid, get-held}

bit_zero : (j : ℕ) → bit j 0 ≡ 0
bit_zero zero = refl
bit_zero (suc j) = bit_zero j

get_or-replicate : (n i : ℕ) → ◌≡◌ {A = ℕ} (get_or (replicate n 0) i 0) 0
get_or-replicate zero i = refl
get_or-replicate (suc n) zero = refl
get_or-replicate (suc n) (suc i) = get_or-replicate n i

member-new : (capacity i : ℕ) → member i (AtomicBitSet.new capacity) ≡ 0
unfolding AtomicBitSet.new
member-new capacity i = rw (get_or-replicate ((capacity + 63) / 64) (i / 64)) (bit_zero (i % 64))

-- A new container of a positive capacity below the sentinel is valid with every slot free, in order
-- from 0, and none of its slots holds a value.
new-get :
    (capacity i : ℕ)
    → 0 < capacity
    → capacity < last
    → i < capacity
    → (c : MpmcContainer) × (new capacity ≡ some c)
      × (c.capacity ≡ capacity)
      × IsValid c (range_from 0 capacity)
      × (get i c ≡ some none)
unfolding new AtomicBitSet.new initial_link IndexSet.extract_head IndexSet.pack
new-get capacity i pos small lt =
    let c : MpmcContainer = record {
      values = replicate capacity 0;
      occupied = AtomicBitSet.new capacity;
      free_head = pack_head 0 0;
      next = map (λ i. if ltb (i + 1) capacity then i + 1 else last) (range_from 0 capacity);
      capacity = capacity;
    } in
    let v : IsValid c (range_from 0 capacity) = record {
      linked = length-links capacity;
      stored = length-replicate capacity 0;
      small = small;
      chain = Chain-fresh capacity pos;
      bits = record { sized = length-replicate ((capacity + 63) / 64) 0 };
      same_capacity = refl;
      once = λ k less.
          let (within, above, below) = count-range_from 0 capacity k in
          omega (arith, within (omega arith) (omega arith), member-new capacity k);
    } in
    (
      c,
      rw (lt→ltb 0 capacity pos) refl,
      refl,
      v,
      get-held (range_from 0 capacity) i v lt ∙ rw (member-new capacity i) refl,
    )
