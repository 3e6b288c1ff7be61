-- ===== src/Transport/PointerOffset/Packing.antt =====
-- `PointerOffset::new` and its two accessors are inverse to one another.
use entangle.Prelude.{ℕ, ◌*◌, ◌+◌, ◌%◌, ◌^◌, ◌<◌, ◌≡◌, ap, arith}
use entangle.Prelude.Bits.{bit_or-disjoint, bit_and-mask}
use entangle.Transport.PointerOffset.{PointerOffset, new, segment_id, offset, raw}

-- The word that `new` builds, as a sum of its two fields.
raw-new : (s o : ℕ) → s < 2 ^ 16 → raw (new s o) ≡ s * 2 ^ 48 + o % 2 ^ 48
unfolding new
raw-new s o h = ground (arith, bit_or-disjoint 48 s (o % 2 ^ 48) (omega arith), bit_and-mask 48 o)

pub offset-eq-mod : (p : PointerOffset) → offset p ≡ raw p % 2 ^ 48
unfolding offset
offset-eq-mod p = bit_and-mask 48 p.word

-- For a segment number below 2^16 and an offset below 2^48, the packed word gives both back and
-- fits 64 bits.
pub new-fields :
    (s o : ℕ)
    → s < 2 ^ 16
    → o < 2 ^ 48
    → (segment_id (new s o) ≡ s) × (offset (new s o) ≡ o) × (raw (new s o) < 2 ^ 64)
unfolding segment_id
new-fields s o hs ho = ground (arith, raw-new s o hs, offset-eq-mod (new s o))

-- Every 64-bit word is the packing of its own fields.
pub new-segment_id-offset : (p : PointerOffset) → raw p < 2 ^ 64 → new (segment_id p) (offset p) ≡ p
unfolding segment_id
new-segment_id-offset p h =
    ap (λ w. record { word = w })
      (ground (arith, raw-new (segment_id p) (offset p) (omega arith), offset-eq-mod p))
