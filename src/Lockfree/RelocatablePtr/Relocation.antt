-- ===== src/Lockfree/RelocatablePtr/Relocation.antt =====
-- A stored pointer means the same place in every mapping of its region.
use entangle.Prelude.{
  ℕ, ◌+◌, ◌-◌, ◌%◌, ◌^◌, ◌<◌, ◌≡◌, refl, ◌≢◌, ◌↔◌, true, false, arith, ==→eq, eq→==, ne→==,
}
use entangle.Lockfree.RelocatablePtr.{RelocatablePtr, from_ptr, store_ptr, load, is_null}

-- A pointer that is stored at one place of a region for another place, in a mapping at any base,
-- and loaded in a mapping at any base, gives that other place in the new mapping and is not null,
-- when all addresses fit 64 bits.
pub load-store_ptr :
    (base base' i j : ℕ) (p : RelocatablePtr)
    → base + i < 2 ^ 64
    → base + j < 2 ^ 64
    → base' + i < 2 ^ 64
    → base' + j < 2 ^ 64
    → i ≢ j
    → (load (base' + i) (store_ptr (base + i) (base + j) p) ≡ base' + j)
      × (is_null (store_ptr (base + i) (base + j) p) ≡ false)
unfolding load store_ptr from_ptr is_null
load-store_ptr base base' i j p hi hj hi' hj' ne =
    let apart : (base + j + 2 ^ 64 - (base + i)) % 2 ^ 64 ≢ 0 = λ e. ne (omega arith) in
    rw (ne→== ((base + j + 2 ^ 64 - (base + i)) % 2 ^ 64) 0 apart) (omega arith, refl)

-- A pointer to its own address reads as null, and no other does.
pub is_null-store_ptr :
    (self_addr target : ℕ) (p : RelocatablePtr)
    → self_addr < 2 ^ 64
    → target < 2 ^ 64
    → (is_null (store_ptr self_addr target p) ≡ true) ↔ (target ≡ self_addr)
unfolding store_ptr from_ptr is_null
is_null-store_ptr self_addr target p hs ht = (
  λ e. let zero_offset = ==→eq ((target + 2 ^ 64 - self_addr) % 2 ^ 64) 0 e in omega arith,
  λ e. eq→== ((target + 2 ^ 64 - self_addr) % 2 ^ 64) 0 (omega arith),
)
