-- ===== src/Lockfree/MpmcContainer/Tests.antt =====
-- Runs of the container, after the unit tests of mpmc_container.rs.
use entangle.Prelude.{ℕ, zero, suc, ◌+◌, ◌<◌, ◌≡◌, refl, none, some, [], ◌∷◌, ◌>>=◌, count, arith}
use entangle.Lockfree.AtomicBitSet.Members.{member}
use entangle.Lockfree.MpmcContainer.Slots.{IsValid, add-held, remove-held}
use entangle.Lockfree.AtomicBitSet
use entangle.Lockfree.MpmcContainer.{
  MpmcContainer, new, alloc_slot, free_slot, add, remove, get, for_each, len, pack_head, last,
}

-- 100 and 200 in a container of two.
abbrev full : MpmcContainer
full = record {
  values = 100 ∷ 200 ∷ [];
  occupied = record { words = 3 ∷ []; capacity = 2 };
  free_head = pack_head last 2;
  next = 1 ∷ last ∷ [];
  capacity = 2;
}

add-both : (new 2 >>= λ c. add 100 c >>= λ (slot, d). add 200 d) ≡ some (some 1, full)
unfolding new add alloc_slot AtomicBitSet.new AtomicBitSet.set_bit
add-both = refl

add-full : add 3 full ≡ some (none, full)
unfolding add alloc_slot
add-full = refl

remove-get : (remove 0 full >>= λ (value, c). get 0 c) ≡ some none
unfolding remove free_slot get AtomicBitSet.clear AtomicBitSet.is_set
remove-get = refl

remove-value : (remove 1 full >>= λ (value, c). some value) ≡ some (some 200)
unfolding remove free_slot AtomicBitSet.clear
remove-value = refl

entries-full : for_each full ≡ some ((0, 100) ∷ (1, 200) ∷ [])
unfolding for_each get AtomicBitSet.is_set
entries-full = refl

len-full : len full ≡ 2
unfolding len AtomicBitSet.count_set
len-full = refl

-- 100 in the first slot of two.
abbrev half : MpmcContainer
half = record {
  values = 100 ∷ 0 ∷ [];
  occupied = record { words = 1 ∷ []; capacity = 2 };
  free_head = pack_head 1 1;
  next = 1 ∷ last ∷ [];
  capacity = 2;
}

half_once : (i : ℕ) → i < 2 → count i (1 ∷ []) + member i (half.occupied) ≡ 1
half_once zero lt = refl
half_once (suc zero) lt = refl
half_once (suc (suc i)) lt = absurd (omega arith)

half-IsValid : IsValid half (1 ∷ [])
half-IsValid = record {
  linked = refl;
  stored = refl;
  small = omega arith;
  chain = (refl, omega arith, refl);
  bits = record { sized = refl };
  same_capacity = refl;
  once = half_once;
}

add-held_example :
    (c' : MpmcContainer) × (add 7 half ≡ some (some 1, c'))
    × IsValid c' []
    × (get 1 half ≡ some none)
    × (get 0 c' ≡ some (some 100))
add-held_example = add-held 7 1 0 [] half-IsValid (omega arith) (omega arith)

remove-held_example :
    (c' : MpmcContainer) × (remove 0 half ≡ some (some 100, c'))
    × IsValid c' (0 ∷ 1 ∷ [])
    × (get 1 c' ≡ some none)
remove-held_example = remove-held 0 1 (1 ∷ []) half-IsValid (omega arith) (omega arith)
