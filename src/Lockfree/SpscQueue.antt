-- ===== src/Lockfree/SpscQueue.antt =====
-- `SpscQueue` of crates/entangle-lockfree/src/spsc_queue.rs: a ring buffer of 64-bit words with
-- wrapping 64-bit positions. An operation here runs alone; `Threads` interleaves the two sides.
pub mod Inv
pub mod Capacity
pub mod Refine
pub mod Threads
mod Tests
use entangle.Prelude.{
  ℕ, zero, suc, ◌+◌, ◌-◌, ◌*◌, ◌%◌, ◌^◌, bit_and, max, Bool, true, false, List, Option, none, some,
  replicate, get_elem?, store, leb, ◌==◌, if◌then◌else◌, ◌>>=◌,
}

pub record SpscQueue : Type 0 where
  pub write_pos : ℕ
  pub read_pos : ℕ
  pub capacity : ℕ
  pub mask : ℕ
  pub slots : List ℕ

abbrev pub wrapping_sub : ℕ → ℕ → ℕ
wrapping_sub a b = (a + 2 ^ 64 - b) % 2 ^ 64

abbrev pub wrapping_add : ℕ → ℕ → ℕ
wrapping_add a b = (a + b) % 2 ^ 64

-- The standard library's `next_power_of_two`: double from 1 until `n` is reached, with `n` rounds
-- at most. (Above `2 ^ 63` the standard library overflows; `new` is used below that.)
unfoldable pub doubled_until : ℕ → ℕ → ℕ → ℕ
doubled_until zero p n = p
doubled_until (suc fuel) p n =
    let further = doubled_until fuel (2 * p) n in if leb n p then p else further

unfoldable pub next_power_of_two : ℕ → ℕ
next_power_of_two n = doubled_until n 1 n

unfoldable pub new : ℕ → SpscQueue
new requested =
    let capacity = max (next_power_of_two requested) 2 in
    record {
      write_pos = 0;
      read_pos = 0;
      capacity = capacity;
      mask = capacity - 1;
      slots = replicate capacity 0;
    }

-- `none` is the panic of an index out of bounds.
unfoldable pub push : ℕ → SpscQueue → Option (Bool × SpscQueue)
push value q =
    let write = q.write_pos in
    if leb q.capacity (wrapping_sub write q.read_pos)
    then some (false, q)
    else store q.slots (bit_and write q.mask) value >>= λ stored.
        some (true, record q { slots = stored; write_pos = wrapping_add write 1 })

unfoldable pub pop : SpscQueue → Option (Option ℕ × SpscQueue)
pop q =
    let read = q.read_pos in
    if read == q.write_pos
    then some (none, q)
    else get_elem? q.slots (bit_and read q.mask) >>= λ value.
        some (some value, record q { read_pos = wrapping_add read 1 })

unfoldable pub is_empty : SpscQueue → Bool
is_empty q = q.read_pos == q.write_pos

unfoldable pub is_full : SpscQueue → Bool
is_full q = leb q.capacity (wrapping_sub q.write_pos q.read_pos)

unfoldable pub len : SpscQueue → ℕ
len q = wrapping_sub q.write_pos q.read_pos
