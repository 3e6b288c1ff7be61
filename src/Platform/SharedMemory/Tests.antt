-- ===== src/Platform/SharedMemory/Tests.antt =====
-- Regions that the system grants and refuses, and instances of the theorems on regions.
use entangle.Prelude.{ℕ, ◌<◌, ◌≡◌, refl, true, ltb, if◌then◌else◌, ok, err}
use entangle.Platform.Errors.{shared_memory_create, mmap}
use entangle.Platform.SharedMemory.{SharedMemory, Answers, create, normalize_name}
use entangle.Platform.SharedMemory.Words.{create-shape}

abbrev answers : Answers
answers = record { shm_open = ok 3; ftruncate = ok tt; fstat = ok 16; mapped = ok (λ at. 255) }

abbrev region : SharedMemory
region = record {
  memory = λ at. if ltb at 16 then 0 else 255;
  size = 16;
  name = "/a";
  is_owner = true;
}

create-granted : create "a" 16 answers ≡ ok region
unfolding create normalize_name
create-granted = refl

create_name_taken :
    create "a" 16 (record answers { shm_open = err 17 }) ≡ err (shared_memory_create "/a")
unfolding create normalize_name
create_name_taken = refl

create-size_zero : create "/a" 0 answers ≡ err mmap
unfolding create normalize_name
create-size_zero = refl

create-shape_instance : (region.size ≡ 16) × ((at : ℕ) → at < 16 → region.memory at ≡ 0)
create-shape_instance = create-shape "a" 16 answers {shm = region} create-granted
