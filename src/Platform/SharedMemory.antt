-- ===== src/Platform/SharedMemory.antt =====
-- `SharedMemory` of crates/entangle-platform/src/shm.rs. What the operating system answers to each
-- call is an argument; the mapped region is a function from byte offsets to bytes.
mod Tests
pub mod Words
use Prim.Native.String.{String}
use text.Mathlib.Text.{starts_with}
use entangle.Prelude.{
  ℕ, ◌+◌, ◌*◌, ◌/◌, ◌%◌, ◌^◌, Bool, true, false, ltb, ◌==◌, if◌then◌else◌, Result, ok, err,
}
use entangle.Platform.Errors.{
  PlatformError, shared_memory_create, shared_memory_open, shared_memory_unlink, mmap,
}

abbrev pub Memory : Type 0
Memory = ℕ → ℕ

pub record SharedMemory : Type 0 where
  pub memory : Memory
  pub size : ℕ
  pub name : String
  pub is_owner : Bool

-- The answers of `shm_open`, `ftruncate`, `fstat` and `mmap`: an error number, or the descriptor,
-- nothing, the size of the object, and the bytes of the mapping.
pub record Answers : Type 0 where
  pub shm_open : Result ℕ ℕ
  pub ftruncate : Result ℕ (Unit {0})
  pub fstat : Result ℕ ℕ
  pub mapped : Result ℕ Memory

-- `normalize_name` where the target is not macOS.
unfoldable pub normalize_name : String → String
normalize_name name = if starts_with "/" name then name else String.◌∷◌ "/" name

-- `do_mmap`: a size of 0 is refused before the call.
unfoldable pub do_mmap : ℕ → Result ℕ Memory → Result PlatformError Memory
do_mmap size (ok bytes) = if size == 0 then err mmap else ok bytes
do_mmap size (err errno) = err mmap

create_opened :
    String
    → ℕ
    → Result ℕ (Unit {0})
    → Result PlatformError Memory
    → Result PlatformError SharedMemory
create_opened name size (err errno) mapped = err (shared_memory_create name)
create_opened name size (ok truncated) (err e) = err e
create_opened name size (ok truncated) (ok bytes) = ok (record {
  memory = λ at. if ltb at size then 0 else bytes at;
  size = size;
  name = name;
  is_owner = true;
})

create_at : String → ℕ → Answers → Result ℕ ℕ → Result PlatformError SharedMemory
create_at name size os (err errno) = err (shared_memory_create name)
create_at name size os (ok fd) = create_opened name size os.ftruncate (do_mmap size os.mapped)

unfoldable pub create : String → ℕ → Answers → Result PlatformError SharedMemory
unfolding create_at create_opened do_mmap
create name size os = create_at (normalize_name name) size os os.shm_open

open_mapped : String → ℕ → Result PlatformError Memory → Result PlatformError SharedMemory
open_mapped name size (err e) = err e
open_mapped name size (ok bytes) =
    ok (record { memory = bytes; size = size; name = name; is_owner = false })

open_sized : String → Answers → Result ℕ ℕ → Result PlatformError SharedMemory
open_sized name os (err errno) = err (shared_memory_open name)
open_sized name os (ok size) = open_mapped name size (do_mmap size os.mapped)

open_at : String → Answers → Result ℕ ℕ → Result PlatformError SharedMemory
open_at name os (err errno) = err (shared_memory_open name)
open_at name os (ok fd) = open_sized name os os.fstat

unfoldable pub open_existing : String → Answers → Result PlatformError SharedMemory
unfolding open_at open_sized open_mapped do_mmap
open_existing name os = open_at (normalize_name name) os os.shm_open

unfoldable pub unlink : String → Result ℕ (Unit {0}) → Result PlatformError (Unit {0})
unlink name (ok done) = ok tt
unlink name (err errno) = err (shared_memory_unlink (normalize_name name))

-- Typed access to an unsigned 32-bit field, little-endian.
unfoldable pub read_u32 : Memory → ℕ → ℕ
read_u32 m at = m at + 2 ^ 8 * m (at + 1) + 2 ^ 16 * m (at + 2) + 2 ^ 24 * m (at + 3)

unfoldable pub write_u32 : Memory → ℕ → ℕ → Memory
write_u32 m at v i =
    if i == at
    then v % 2 ^ 8
    else if i == at + 1
    then v / 2 ^ 8 % 2 ^ 8
    else if i == at + 2
    then v / 2 ^ 16 % 2 ^ 8
    else if i == at + 3
    then v / 2 ^ 24 % 2 ^ 8
    else m i
