-- ===== src/Lockfree/SpscQueue/Threads.antt =====
-- `push` and `pop` of crates/entangle-lockfree/src/spsc_queue.rs at work at the same time, in two
-- threads: a step is one atomic access. Every thread sees the accesses in the order in which they
-- happen.
pub mod Steps
pub mod Runs
mod Tests
use entangle.Prelude.{
  ℕ, zero, suc, ◌+◌, ◌-◌, ◌*◌, ◌/◌, ◌%◌, ◌^◌, ◌≤◌, ◌<◌, bit_and, bit_or, min, max, ◌≡◌, refl, sym,
  ap, ap₂, subst, ◌∙◌, ◌≢◌, ◌↔◌, ◌⊎◌, inl, inr, Bool, true, false, not, ◌&&◌, ◌||◌, Option, none,
  some, List, [], ◌∷◌, ◌++◌, map, arith, dec_lt, ℕ_discrete, ltb, leb, ◌==◌, if◌then◌else◌, ltb→lt,
  lt→ltb, le→leb, gt→leb, ==→eq, eq→==, ne→==, Bool-cases, Option-cases, length, get_elem?, get_or,
  set, replicate, length-replicate, length-append, length-set, get_elem?-eq-get_or, get_or-set_self,
  get_or-set_ne, set-get_or_self, store, store-in_range, range_from, All, Distinct, All-map,
  length-range_from, length-map, get_or-map_range, All-range_from, Distinct-range_from, pigeonhole,
  count, count-append, count_self, All-ne_of_count, Distinct-of_count, All-lt_of_count,
  length-le_of_count, count-range_from, Result, ok, err, map_err, assert, ◌>>=◌, ◌>>◌,
}
use entangle.Lockfree.SpscQueue.{SpscQueue, wrapping_sub, wrapping_add}

-- Where `push value` stands: its write position is loaded, its test has found room, its word is stored.
pub data Producer : Type 0 where
  idle : Producer
  started room stored : (value write : ℕ) → Producer
  answered : Bool → Producer

-- Where `pop` stands: its read position is loaded, its test has found a word, the word is loaded.
pub data Consumer : Type 0 where
  idle : Consumer
  started taking : (read : ℕ) → Consumer
  taken : (read value : ℕ) → Consumer
  answered : Option ℕ → Consumer

-- The next access of `push`, with the words that it publishes. `none` is an index out of bounds.
unfoldable pub push_next : SpscQueue → Producer → Option (SpscQueue × Producer × List ℕ)
push_next q idle = some (q, idle, [])
push_next q (started value write) =
    if leb q.capacity (wrapping_sub write q.read_pos)
    then some (q, answered false, [])
    else some (q, room value write, [])
push_next q (room value write) = store q.slots (bit_and write q.mask) value >>= λ slots.
    some (record q { slots = slots }, stored value write, [])
push_next q (stored value write) =
    some (record q { write_pos = wrapping_add write 1 }, answered true, value ∷ [])
push_next q (answered b) = some (q, answered b, [])

-- The next access of `pop`, with the words that it takes out.
unfoldable pub pop_next : SpscQueue → Consumer → Option (SpscQueue × Consumer × List ℕ)
pop_next q idle = some (q, idle, [])
pop_next q (started read) =
    if read == q.write_pos then some (q, answered none, []) else some (q, taking read, [])
pop_next q (taking read) =
    get_elem? q.slots (bit_and read q.mask) >>= λ value. some (q, taken read value, [])
pop_next q (taken read value) =
    some (record q { read_pos = wrapping_add read 1 }, answered (some value), value ∷ [])
pop_next q (answered x) = some (q, answered x, [])

-- `pushed` and `popped` list the words that were published and taken out, in order: no code reads them.
pub record System : Type 0 where
  pub queue : SpscQueue
  pub producer : Producer
  pub consumer : Consumer
  pub pushed : List ℕ
  pub popped : List ℕ

unfoldable pub push_step : System → Option System
push_step s = push_next s.queue s.producer >>= λ (q, p, words).
    some (record s { queue = q; producer = p; pushed = s.pushed ++ words })

unfoldable pub pop_step : System → Option System
pop_step s = pop_next s.queue s.consumer >>= λ (q, c, words).
    some (record s { queue = q; consumer = c; popped = s.popped ++ words })

-- A call waits for the last one of its thread.
abbrev pub IsReady : Producer → Type 0
IsReady idle = Unit
IsReady (answered b) = Unit
IsReady _ = ⊥

abbrev pub IsReadyToPop : Consumer → Type 0
IsReadyToPop idle = Unit
IsReadyToPop (answered x) = Unit
IsReadyToPop _ = ⊥

pub data Step (s : System) : System → Type 0 where
  call_push :
      (value : ℕ)
      → IsReady s.producer
      → Step s (record s { producer = started value s.queue.write_pos })
  call_pop : IsReadyToPop s.consumer → Step s (record s { consumer = started s.queue.read_pos })
  push : {t : System} → push_step s ≡ some t → Step s t
  pop : {t : System} → pop_step s ≡ some t → Step s t

pub data Reaches (s : System) : System → Type 0 where
  here : Reaches s s
  onward : {t u : System} → Reaches s t → Step t u → Reaches s u

-- Two threads before their first calls.
abbrev pub initial : SpscQueue → System
initial q = record { queue = q; producer = idle; consumer = idle; pushed = []; popped = [] }
