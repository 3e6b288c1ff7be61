-- ===== src/Lockfree/RelocatablePtr/Tests.antt =====
-- Pointers in a region that is mapped twice, and instances of the theorems.
use entangle.Prelude.{ℕ, ◌+◌, ◌≡◌, refl, ◌↔◌, true, false, arith}
use entangle.Lockfree.RelocatablePtr.{null, store_ptr, load, is_null, clear}
use entangle.Lockfree.RelocatablePtr.Relocation.{load-store_ptr, is_null-store_ptr}

-- Backwards, from 64 to 8 of the region.
load-store_ptr_example :
    (load (0x7000 + 64) (store_ptr (0x1000 + 64) (0x1000 + 8) null) ≡ 0x7000 + 8)
    × (is_null (store_ptr (0x1000 + 64) (0x1000 + 8) null) ≡ false)
load-store_ptr_example =
    load-store_ptr 0x1000 0x7000 64 8 null (omega arith) (omega arith) (omega arith) (omega arith)
      (λ e. absurd (omega arith))

abbrev home : ℕ
home = 4096

is_null-store_ptr_instance : (is_null (store_ptr home home null) ≡ true) ↔ (home ≡ home)
is_null-store_ptr_instance = is_null-store_ptr home home null (omega arith) (omega arith)

cleared_reads_null : is_null (clear (store_ptr 4096 5000 null)) ≡ true
unfolding clear is_null
cleared_reads_null = refl
