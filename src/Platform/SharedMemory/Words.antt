-- ===== src/Platform/SharedMemory/Words.antt =====
-- Typed reads and writes of 32-bit fields.
use entangle.Prelude.{ℕ, ◌+◌, ◌%◌, ◌^◌, ◌≤◌, ◌<◌, ◌≡◌, ◌⊎◌, arith, Result, ok, err}
use Prim.Native.String.{String}
use entangle.Platform.Errors.{PlatformError}
use entangle.Platform.SharedMemory.{
  Memory, SharedMemory, Answers, read_u32, write_u32, create, create_at, create_opened, do_mmap,
  normalize_name,
}

-- A field reads back what was written to it, modulo its width.
pub read_u32-write_u32_self : (m : Memory) (at v : ℕ) → read_u32 (write_u32 m at v) at ≡ v % 2 ^ 32
unfolding read_u32 write_u32
read_u32-write_u32_self m at v = ground arith

-- A write elsewhere leaves it.
pub read_u32-write_u32_apart :
    (m : Memory) (at other v : ℕ)
    → (at + 4 ≤ other) ⊎ (other + 4 ≤ at)
    → read_u32 (write_u32 m at v) other ≡ read_u32 m other
unfolding read_u32 write_u32
read_u32-write_u32_apart m at other v h = ground arith

create_opened-shape :
    (name : String) (size : ℕ) (t : Result ℕ (Unit {0})) (m : Result PlatformError Memory)
    {shm : SharedMemory}
    → create_opened name size t m ≡ ok shm
    → (shm.size ≡ size) × ((at : ℕ) → at < size → shm.memory at ≡ 0)
unfolding create_opened
create_opened-shape name size (err e) m h = cc
create_opened-shape name size (ok t) (err e) h = cc
create_opened-shape name size (ok t) (ok bytes) h = (ground arith, λ at lt. ground arith)

create_at-shape :
    (name : String) (size : ℕ) (os : Answers) (r : Result ℕ ℕ) {shm : SharedMemory}
    → create_at name size os r ≡ ok shm
    → (shm.size ≡ size) × ((at : ℕ) → at < size → shm.memory at ≡ 0)
unfolding create_at
create_at-shape name size os (err e) h = cc
create_at-shape name size os (ok fd) h =
    create_opened-shape name size os.ftruncate (do_mmap size os.mapped) h

-- A region that create returns has the size asked for, and each of its bytes is zero.
pub create-shape :
    (name : String) (size : ℕ) (os : Answers) {shm : SharedMemory}
    → create name size os ≡ ok shm
    → (shm.size ≡ size) × ((at : ℕ) → at < size → shm.memory at ≡ 0)
unfolding create
create-shape name size os h = create_at-shape (normalize_name name) size os os.shm_open h
