-- ===== src/Transport/PointerOffset/Tests.antt =====
-- Concrete pointer offsets.
use entangle.Prelude.{◌^◌, ◌<◌, ◌≡◌, refl, arith}
use entangle.Transport.PointerOffset.{PointerOffset, new, segment_id, offset, raw, from_raw}
use entangle.Transport.PointerOffset.Packing.{new-fields}

new-three : raw (new 3 4096) ≡ 0x0003_0000_0000_1000
unfolding new
new-three = refl

new-fields_instance :
    (segment_id (new 3 4096) ≡ 3) × (offset (new 3 4096) ≡ 4096) × (raw (new 3 4096) < 2 ^ 64)
new-fields_instance = new-fields 3 4096 (omega arith) (omega arith)

abbrev word : PointerOffset
word = from_raw 0x0003_0000_0000_1000
