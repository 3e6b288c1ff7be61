-- ===== src/Lockfree/AtomicBitSet/Tests.antt =====
-- Runs of the bitset, after the unit tests of atomic_bitset.rs.
use entangle.Prelude.{◌≡◌, refl, true, false, some, arith, [], ◌∷◌, ◌>>=◌}
use entangle.Lockfree.AtomicBitSet.Members.{set_bit-clear-is_set}
use entangle.Lockfree.AtomicBitSet.{
  AtomicBitSet, new, set_bit, clear, is_set, count_set, find_from, find_and_clear_first_set,
}

-- Bits 5 and 70 of 128.
abbrev two : AtomicBitSet
two = record { words = 32 ∷ 64 ∷ []; capacity = 128 }

set-five_seventy : (set_bit 5 (new 128) >>= λ (first, b). set_bit 70 b) ≡ some (true, two)
unfolding new set_bit
set-five_seventy = refl

set-again : set_bit 5 two ≡ some (false, two)
unfolding set_bit
set-again = refl

clear-is_set : (clear 70 two >>= λ (was, b). is_set 70 b) ≡ some false
unfolding clear is_set
clear-is_set = refl

count-two : count_set two ≡ 2
unfolding count_set
count-two = refl

find-first : find_and_clear_first_set two ≡ (some 5, record two { words = 0 ∷ 64 ∷ [] })
unfolding find_and_clear_first_set find_from
find-first = refl

set_bit-clear-is_set_example :
    (b₁ b₀ : AtomicBitSet) × (is_set 70 two ≡ some true)
    × (set_bit 5 two ≡ some (false, b₁))
    × (is_set 70 b₁ ≡ some true)
    × (clear 5 two ≡ some (true, b₀))
    × (is_set 70 b₀ ≡ some true)
set_bit-clear-is_set_example =
    set_bit-clear-is_set {b = two} 5 70 (record { sized = refl }) (omega arith) (omega arith)
