-- ===== src/Lockfree/IndexSet/Threads/Tests.antt =====
-- A run of two threads that meet at the head, and instances of the theorems on threads.
use entangle.Prelude.{
  ℕ, zero, suc, ◌+◌, ◌^◌, ◌<◌, ◌≡◌, refl, Bool, true, false, some, List, [], ◌∷◌, arith, length,
  count,
}
use entangle.Lockfree.IndexSet.{
  UniqueIndexSet, new, pack, extract_head, extract_tag, initial_link, available, borrowed_count,
}
use entangle.Lockfree.IndexSet.Inv.{Chain}
use entangle.Lockfree.IndexSet.Threads.{
  idle, acquiring, counting, Thread, System, thread, thread_next, IsReady, call_acquire, access,
  Reaches, here, onward, initial,
}
use entangle.Lockfree.IndexSet.Threads.Family.{total}
use entangle.Lockfree.IndexSet.Threads.Inv.{owns}
use entangle.Lockfree.IndexSet.Threads.Runs.{threads_own_apart, threads_return, available_at_rest}

abbrev two_indices : UniqueIndexSet
two_indices = record { head = 0; next = 1 ∷ 0xFFFF_FFFF ∷ []; capacity = 2; borrowed = 0 }

new_two : new 2 ≡ some two_indices
unfolding new initial_link pack
new_two = refl

-- Both threads load the head; the first takes index 0, and the compare-exchange of the second fails.
abbrev contended : System
contended = record {
  index_set = record two_indices { head = 2 ^ 32 + 1 };
  version = 1;
  threads =
      record { pc = counting 0; held = [] }
      ∷ record { pc = acquiring (2 ^ 32 + 1) 1; held = [] }
      ∷ [];
}

to_contended : Reaches (initial two_indices 2) contended
unfolding thread_next extract_head extract_tag pack
to_contended =
    onward
      (onward
        (onward
          (onward
            (onward (onward here (call_acquire 0 (omega arith) tt))
              (call_acquire 1 (omega arith) tt))
            (access 0 false (omega arith) refl))
          (access 1 false (omega arith) refl))
        (access 0 false (omega arith) refl))
      (access 1 false (omega arith) refl)

threads_own_apart_example :
    (free : List ℕ) × Chain (1 ∷ 0xFFFF_FFFF ∷ []) (extract_head (2 ^ 32 + 1)) free
    × (count 0 free + total (owns 0) contended.threads ≡ 1)
threads_own_apart_example =
    threads_own_apart 2 (omega arith) (omega arith) new_two to_contended (omega arith) (omega arith)

threads_return_example :
    (u : UniqueIndexSet) × (th : Thread) × (updated : Bool) × (thread_next true contended.index_set
        1
        (acquiring (2 ^ 32 + 1) 1)
        []
      ≡ some (u, th, updated))
threads_return_example =
    threads_return {t = 1} 2 true (omega arith) (omega arith) new_two to_contended (omega arith)
      (omega arith)

-- One thread takes index 0 and rests.
abbrev taken : System
taken = record {
  index_set = record two_indices { head = 2 ^ 32 + 1; borrowed = 1 };
  version = 1;
  threads = record { pc = idle; held = 0 ∷ [] } ∷ [];
}

to_taken : Reaches (initial two_indices 1) taken
unfolding thread_next extract_head extract_tag pack
to_taken =
    onward
      (onward
        (onward (onward here (call_acquire 0 (omega arith) tt)) (access 0 false (omega arith) refl))
        (access 0 false (omega arith) refl))
      (access 0 false (omega arith) refl)

taken-IsReady : (u : ℕ) → u < length taken.threads → IsReady (thread taken u).pc
taken-IsReady zero h = tt
taken-IsReady (suc u) h = absurd (omega arith)

available_at_rest_example :
    (free : List ℕ) × Chain (1 ∷ 0xFFFF_FFFF ∷ []) (extract_head (2 ^ 32 + 1)) free
    × (available taken.index_set ≡ length free)
    × (borrowed_count taken.index_set + length free ≡ 2)
available_at_rest_example =
    available_at_rest 1 (omega arith) (omega arith) new_two to_taken (omega arith) taken-IsReady
