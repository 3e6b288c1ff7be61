-- ===== src/Lockfree/AtomicBitSet.antt =====
-- `AtomicBitSet` of crates/entangle-lockfree/src/atomic_bitset.rs: words of 64 bits. An operation here
-- runs alone, and its compare-exchange succeeds.
pub mod Members
mod Tests
use entangle.Prelude.{
  ℕ, zero, suc, ◌+◌, ◌-◌, ◌*◌, ◌/◌, ◌%◌, ◌^◌, ◌≤◌, ◌<◌, bit_and, bit_or, min, max, ◌≡◌, refl, sym,
  ap, ap₂, subst, ◌∙◌, ◌≢◌, ◌↔◌, ◌⊎◌, inl, inr, Bool, true, false, not, ◌&&◌, ◌||◌, Option, none,
  some, List, [], ◌∷◌, ◌++◌, map, arith, dec_lt, ℕ_discrete, ltb, leb, ◌==◌, if◌then◌else◌, ltb→lt,
  lt→ltb, le→leb, gt→leb, ==→eq, eq→==, ne→==, Bool-cases, Option-cases, length, get_elem?, get_or,
  set, replicate, length-replicate, length-append, length-set, get_elem?-eq-get_or, get_or-set_self,
  get_or-set_ne, store, store-in_range, range_from, All, Distinct, All-map, length-range_from,
  length-map, get_or-map_range, All-range_from, Distinct-range_from, pigeonhole, count,
  count-append, count_self, All-ne_of_count, Distinct-of_count, All-lt_of_count, length-le_of_count,
  count-range_from, Result, ok, err, map_err, assert, ◌>>=◌, ◌>>◌,
}

pub record AtomicBitSet : Type 0 where
  pub words : List ℕ
  pub capacity : ℕ

-- `div_ceil(64)` words.
unfoldable pub new : ℕ → AtomicBitSet
new capacity = record { words = replicate ((capacity + 63) / 64) 0; capacity = capacity }

abbrev pub bit_of : ℕ → ℕ
bit_of index = 2 ^ (index % 64)

-- `!bit` of a 64-bit word.
abbrev pub complement : ℕ → ℕ
complement bit = 2 ^ 64 - 1 - bit

-- The debug assertion, and the word of a bit: `none` is a panic.
abbrev pub word_of : ℕ → AtomicBitSet → Option ℕ
word_of index b = if ltb index b.capacity then get_elem? b.words (index / 64) else none

unfoldable pub set_bit : ℕ → AtomicBitSet → Option (Bool × AtomicBitSet)
set_bit index b = word_of index b >>= λ old.
    if bit_and old (bit_of index) == 0
    then some (true, record b { words = set b.words (index / 64) (bit_or old (bit_of index)) })
    else some (false, b)

unfoldable pub clear : ℕ → AtomicBitSet → Option (Bool × AtomicBitSet)
clear index b = word_of index b >>= λ old.
    if bit_and old (bit_of index) == 0
    then some (false, b)
    else some (
      true,
      record b { words = set b.words (index / 64) (bit_and old (complement (bit_of index))) },
    )

unfoldable pub is_set : ℕ → AtomicBitSet → Option Bool
is_set index b = word_of index b >>= λ old. some (not (bit_and old (bit_of index) == 0))

-- `count_ones`, over so many bits.
abbrev count_ones : ℕ → ℕ → ℕ
count_ones zero word = 0
count_ones (suc bits) word = word % 2 + count_ones bits (word / 2)

abbrev count_words : List ℕ → ℕ
count_words [] = 0
count_words (w ∷ ws) = count_ones 64 w + count_words ws

unfoldable pub count_set : AtomicBitSet → ℕ
count_set b = count_words b.words

-- `trailing_zeros`, over so many bits.
abbrev trailing_zeros : ℕ → ℕ → ℕ
trailing_zeros zero word = 0
trailing_zeros (suc bits) word =
    let more = trailing_zeros bits (word / 2) in if word % 2 == 0 then suc more else 0

-- The words from number `n` on, and the first bit that is set. A bit beyond the capacity is set again.
unfoldable pub find_from : ℕ → ℕ → List ℕ → Option ℕ × List ℕ
find_from capacity n [] = (none, [])
find_from capacity n (word ∷ rest) =
    let (found, words) = find_from capacity (n + 1) rest in
    let pos = trailing_zeros 64 word in
    if word == 0
    then (found, word ∷ words)
    else if ltb (n * 64 + pos) capacity
    then (some (n * 64 + pos), bit_and word (complement (2 ^ pos)) ∷ rest)
    else (none, bit_or (bit_and word (complement (2 ^ pos))) (2 ^ pos) ∷ rest)

unfoldable pub find_and_clear_first_set : AtomicBitSet → Option ℕ × AtomicBitSet
find_and_clear_first_set b =
    let (found, words) = find_from b.capacity 0 b.words in (found, record b { words = words })
