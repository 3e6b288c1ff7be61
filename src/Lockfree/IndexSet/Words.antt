-- ===== src/Lockfree/IndexSet/Words.antt =====
-- The head word: an index and an ABA tag of 32 bits each.
use entangle.Prelude.{ℕ, ◌+◌, ◌*◌, ◌%◌, ◌^◌, ◌<◌, ◌≡◌, arith}
use entangle.Prelude.Bits.{bit_or-disjoint, bit_and-mask}
use entangle.Lockfree.IndexSet.{pack, extract_head, extract_tag}

pack-eq-add : (h t : ℕ) → h < 2 ^ 32 → pack h t ≡ h * 2 ^ 32 + t % 2 ^ 32
unfolding pack
pack-eq-add h t lt =
    ground (arith, bit_or-disjoint 32 h (t % 2 ^ 32) (omega arith), bit_and-mask 32 t)

pub extract_tag-eq-mod : (v : ℕ) → extract_tag v ≡ v % 2 ^ 32
unfolding extract_tag
extract_tag-eq-mod v = omega (arith, bit_and-mask 32 v)

-- For a head and a tag below 2^32, the packed word gives both back and fits 64 bits.
pub pack-fields :
    (h t : ℕ)
    → h < 2 ^ 32
    → t < 2 ^ 32
    → (extract_head (pack h t) ≡ h) × (extract_tag (pack h t) ≡ t) × (pack h t < 2 ^ 64)
unfolding extract_head
pack-fields h t lh lt = ground (arith, pack-eq-add h t lh, extract_tag-eq-mod (pack h t))

pub extract_head-pack : (h t : ℕ) → h < 2 ^ 32 → extract_head (pack h t) ≡ h
unfolding extract_head
extract_head-pack h t lh = omega (arith, pack-eq-add h t lh)
