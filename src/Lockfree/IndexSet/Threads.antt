-- ===== src/Lockfree/IndexSet/Threads.antt =====
-- `acquire` and `release` of crates/entangle-lockfree/src/index_set.rs at work in any number of
-- threads at once: a step is one atomic access. Every thread sees the accesses in the order in
-- which they happen. A thread releases what it acquired, as `release` asks of its callers.
pub mod Family
pub mod Inv
pub mod Steps
pub mod Moves
pub mod Runs
mod Tests
use entangle.Prelude.{
  ℕ, zero, suc, ◌+◌, ◌-◌, ◌*◌, ◌/◌, ◌%◌, ◌^◌, ◌≤◌, ◌<◌, bit_and, bit_or, min, max, ◌≡◌, refl, sym,
  ap, ap₂, subst, ◌∙◌, ◌≢◌, ◌↔◌, ◌⊎◌, inl, inr, Bool, true, false, not, ◌&&◌, ◌||◌, Option, none,
  some, List, [], ◌∷◌, ◌++◌, map, arith, dec_lt, ℕ_discrete, ltb, leb, ◌==◌, if◌then◌else◌, ltb→lt,
  lt→ltb, le→leb, gt→leb, ==→eq, eq→==, ne→==, Bool-cases, Option-cases, length, get_elem?, get_or,
  set, replicate, length-replicate, length-append, length-set, get_elem?-eq-get_or, get_or-set_self,
  get_or-set_ne, set-get_or_self, store, store-in_range, range_from, All, Distinct, All-map,
  length-range_from, length-map, get_or-map_range, All-range_from, Distinct-range_from, pigeonhole,
  count, count-append, count_self, All-ne_of_count, Distinct-of_count, All-lt_of_count,
  length-le_of_count, count-range_from, Result, ok, err, map_err, assert, ◌>>=◌, ◌>>◌,
}
use entangle.Lockfree.IndexSet.{UniqueIndexSet, sentinel, pack, extract_head, extract_tag}

-- Where a call stands. `old` is the head word that was loaded last, and `seen` the number of
-- updates of the head before that load, which no code reads.
pub data Pc : Type 0 where
  idle refused uncounting : Pc
  acquiring : (old seen : ℕ) → Pc
  linked : (old seen next_idx : ℕ) → Pc
  counting : (index : ℕ) → Pc
  releasing stored : (index old seen : ℕ) → Pc

-- `held` lists the indices that the thread has acquired and not begun to release.
pub record Thread : Type 0 where
  pub pc : Pc
  pub held : List ℕ

-- The next access of a thread, after `version` updates of the head, and whether it updates the
-- head. With `spurious`, a compare-exchange fails that need not. `none` is an index out of bounds.
unfoldable pub thread_next :
    Bool → UniqueIndexSet → ℕ → Pc → List ℕ → Option (UniqueIndexSet × Thread × Bool)
thread_next spurious s version idle held = some (s, record { pc = idle; held = held }, false)
thread_next spurious s version refused held = some (s, record { pc = refused; held = held }, false)
thread_next spurious s version (acquiring old seen) held =
    if extract_head old == sentinel
    then some (s, record { pc = refused; held = held }, false)
    else get_elem? s.next (extract_head old) >>= λ next_idx.
        some (s, record { pc = linked old seen next_idx; held = held }, false)
thread_next spurious s version (linked old seen next_idx) held =
    if not spurious && (s.head == old)
    then some (
      record s { head = pack next_idx ((extract_tag old + 1) % 2 ^ 32) },
      record { pc = counting (extract_head old); held = held },
      true,
    )
    else some (s, record { pc = acquiring s.head version; held = held }, false)
thread_next spurious s version (counting index) held = some (
  record s { borrowed = (s.borrowed + 1) % 2 ^ 32 },
  record { pc = idle; held = index ∷ held },
  false,
)
thread_next spurious s version (releasing index old seen) held =
    store s.next index (extract_head old) >>= λ links.
    some (record s { next = links }, record { pc = stored index old seen; held = held }, false)
thread_next spurious s version (stored index old seen) held =
    if not spurious && (s.head == old)
    then some (
      record s { head = pack index ((extract_tag old + 1) % 2 ^ 32) },
      record { pc = uncounting; held = held },
      true,
    )
    else some (s, record { pc = releasing index s.head version; held = held }, false)
thread_next spurious s version uncounting held = some (
  record s { borrowed = (s.borrowed + 2 ^ 32 - 1) % 2 ^ 32 },
  record { pc = idle; held = held },
  false,
)

-- `version` counts the updates of the head: no code reads it.
pub record System : Type 0 where
  pub index_set : UniqueIndexSet
  pub version : ℕ
  pub threads : List Thread

abbrev pub resting : Thread
resting = record { pc = idle; held = [] }

abbrev pub thread : System → ℕ → Thread
thread s t = get_or s.threads t resting

-- A call waits for the last one of its thread.
abbrev pub IsReady : Pc → Type 0
IsReady idle = Unit
IsReady refused = Unit
IsReady _ = ⊥

-- The system after an access of thread `t`.
abbrev pub after : System → ℕ → UniqueIndexSet → Thread → Bool → System
after s t r th updated = record {
  index_set = r;
  version = if updated then s.version + 1 else s.version;
  threads = set s.threads t th;
}

pub data Step (s : System) : System → Type 0 where
  call_acquire :
      (t : ℕ)
      → t < length s.threads
      → IsReady (thread s t).pc
      → Step s (
          after s t s.index_set
            (record { pc = acquiring s.index_set.head s.version; held = (thread s t).held })
            false)
  call_release :
      (t index : ℕ) (before behind : List ℕ)
      → t < length s.threads
      → IsReady (thread s t).pc
      → (thread s t).held ≡ before ++ (index ∷ behind)
      → Step s (
          after s t s.index_set
            (record { pc = releasing index s.index_set.head s.version; held = before ++ behind })
            false)
  access :
      (t : ℕ) (spurious : Bool) {r : UniqueIndexSet} {th : Thread} {updated : Bool}
      → t < length s.threads
      → thread_next spurious s.index_set s.version (thread s t).pc (thread s t).held
        ≡ some (r, th, updated)
      → Step s (after s t r th updated)

pub data Reaches (s : System) : System → Type 0 where
  here : Reaches s s
  onward : {t u : System} → Reaches s t → Step t u → Reaches s u

-- So many threads before their first calls.
abbrev pub initial : UniqueIndexSet → ℕ → System
initial s n = record { index_set = s; version = 0; threads = replicate n resting }
