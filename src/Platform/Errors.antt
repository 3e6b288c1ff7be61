-- ===== src/Platform/Errors.antt =====
-- `PlatformError` of crates/entangle-platform/src/error.rs. The free texts of the reasons are left
-- out; an error of the operating system is its number.
use Prim.Native.String.{String}
use entangle.Prelude.{ℕ}

pub data PlatformError : Type 0 where
  shared_memory_create shared_memory_open shared_memory_unlink : (name : String) → PlatformError
  mmap file_lock event signal process_monitor : PlatformError
  io : (errno : ℕ) → PlatformError
