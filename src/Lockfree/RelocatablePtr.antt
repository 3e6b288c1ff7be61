-- ===== src/Lockfree/RelocatablePtr.antt =====
-- `RelocatablePtr` of crates/entangle-lockfree/src/relocatable.rs: a pointer that is stored as the
-- offset from its own address. Addresses have 64 bits, and the signed offset is the word of 64 bits
-- that stands for it. The address of the pointer itself is an argument.
pub mod Relocation
mod Tests
use entangle.Prelude.{
  ℕ, zero, suc, ◌+◌, ◌-◌, ◌*◌, ◌/◌, ◌%◌, ◌^◌, ◌≤◌, ◌<◌, bit_and, bit_or, min, max, ◌≡◌, refl, sym,
  ap, ap₂, subst, ◌∙◌, ◌≢◌, ◌↔◌, ◌⊎◌, inl, inr, Bool, true, false, not, ◌&&◌, ◌||◌, Option, none,
  some, List, [], ◌∷◌, ◌++◌, map, arith, dec_lt, ℕ_discrete, ltb, leb, ◌==◌, if◌then◌else◌, ltb→lt,
  lt→ltb, le→leb, gt→leb, ==→eq, eq→==, ne→==, Bool-cases, Option-cases, length, get_elem?, get_or,
  set, replicate, length-replicate, length-append, length-set, get_elem?-eq-get_or, get_or-set_self,
  get_or-set_ne, set-get_or_self, store, store-in_range, range_from, All, Distinct, All-map,
  length-range_from, length-map, get_or-map_range, All-range_from, Distinct-range_from, pigeonhole,
  count, count-append, count_self, All-ne_of_count, Distinct-of_count, All-lt_of_count,
  length-le_of_count, count-range_from, Result, ok, err, map_err, assert, along_some, ◌>>=◌, ◌>>◌,
}

pub record RelocatablePtr : Type 0 where
  pub offset : ℕ

unfoldable pub null : RelocatablePtr
null = record { offset = 0 }

-- `target.offset_from(self_addr)`, of bytes.
unfoldable pub from_ptr : ℕ → ℕ → ℕ
from_ptr self_addr target = (target + 2 ^ 64 - self_addr) % 2 ^ 64

unfoldable pub store_ptr : ℕ → ℕ → RelocatablePtr → RelocatablePtr
store_ptr self_addr target p = record p { offset = from_ptr self_addr target }

-- The null pointer is 0.
unfoldable pub load : ℕ → RelocatablePtr → ℕ
load self_addr p = if p.offset == 0 then 0 else (self_addr + p.offset) % 2 ^ 64

unfoldable pub load_mut : ℕ → RelocatablePtr → ℕ
load_mut self_addr p = load self_addr p

unfoldable pub is_null : RelocatablePtr → Bool
is_null p = p.offset == 0

unfoldable pub clear : RelocatablePtr → RelocatablePtr
clear p = record p { offset = 0 }
