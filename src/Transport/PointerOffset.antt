-- ===== src/Transport/PointerOffset.antt =====
-- `PointerOffset` of crates/entangle-transport/src/contracts.rs: a segment id and a byte offset in
-- one 64-bit word, `[segment_id:16][offset:48]`. `usize` has 64 bits.
pub mod Packing
mod Tests
use entangle.Prelude.{ℕ, ◌*◌, ◌/◌, ◌%◌, ◌^◌, bit_and, bit_or}

pub record PointerOffset : Type 0 where
  pub word : ℕ

abbrev pub offset_mask : ℕ
offset_mask = 0x0000_FFFF_FFFF_FFFF

-- Without the debug assertion: the offset is masked.
unfoldable pub new : ℕ → ℕ → PointerOffset
new segment_id offset = record {
  word = bit_or (segment_id * 2 ^ 48 % 2 ^ 64) (bit_and offset offset_mask);
}

unfoldable pub segment_id : PointerOffset → ℕ
segment_id p = p.word / 2 ^ 48 % 2 ^ 16

unfoldable pub offset : PointerOffset → ℕ
offset p = bit_and p.word offset_mask

abbrev pub raw : PointerOffset → ℕ
raw p = p.word

abbrev pub from_raw : ℕ → PointerOffset
from_raw w = record { word = w }
