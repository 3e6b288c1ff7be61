-- ===== src/Lockfree/SpscQueue/Threads/Tests.antt =====
-- Runs of the two threads, and instances of the theorems on them.
use entangle.Prelude.{◌≡◌, refl, sym, subst, true, false, none, some, [], ◌∷◌, ◌++◌, arith, length}
use entangle.Lockfree.SpscQueue.{SpscQueue, new, doubled_until, next_power_of_two}
use entangle.Lockfree.SpscQueue.Inv.{IsValid, contents}
use entangle.Lockfree.SpscQueue.Threads.{
  idle, started, stored, answered, System, push_step, pop_step, push_next, pop_next, call_push,
  call_pop, push, Reaches, here, onward, initial,
}
use entangle.Lockfree.SpscQueue.Threads.Runs.{threads_fifo, push_refused, pop_refused}

-- The queue that is made for two words.
abbrev two_slots : SpscQueue
two_slots = record { write_pos = 0; read_pos = 0; capacity = 2; mask = 1; slots = 0 ∷ 0 ∷ [] }

new_two : new 2 ≡ two_slots
unfolding new next_power_of_two doubled_until
new_two = refl

-- The word is stored but not published when the consumer tests for it: it finds nothing.
abbrev unpublished : System
unpublished = record {
  queue = record two_slots { slots = 7 ∷ 0 ∷ [] };
  producer = stored 7 0;
  consumer = started 0;
  pushed = [];
  popped = [];
}

to_unpublished : Reaches (initial two_slots) unpublished
unfolding push_step push_next
to_unpublished =
    onward (onward (onward (onward here (call_push 7 tt)) (push refl)) (push refl)) (call_pop tt)

run_unpublished : Reaches (initial (new 2)) unpublished
run_unpublished = subst (λ q. Reaches (initial q) unpublished) (sym new_two) to_unpublished

threads_fifo_example :
    (unpublished.pushed ≡ [] ++ contents unpublished.queue)
    × IsValid unpublished.queue
    × ((t : System) × (push_step unpublished ≡ some t))
    × ((t : System) × (pop_step unpublished ≡ some t))
threads_fifo_example = threads_fifo (omega arith) run_unpublished

abbrev found_nothing : System
found_nothing = record unpublished { consumer = answered none }

pop_refused_example : contents found_nothing.queue ≡ []
unfolding pop_step pop_next
pop_refused_example = pop_refused {t = found_nothing} (omega arith) run_unpublished refl refl refl

-- Two words fill the queue, and the third is refused.
abbrev third : System
third = record {
  queue = record { write_pos = 2; read_pos = 0; capacity = 2; mask = 1; slots = 7 ∷ 8 ∷ [] };
  producer = started 9 2;
  consumer = idle;
  pushed = 7 ∷ 8 ∷ [];
  popped = [];
}

one_published : Reaches (initial two_slots) (record (initial two_slots) {
  queue = record two_slots { write_pos = 1; slots = 7 ∷ 0 ∷ [] };
  producer = answered true;
  pushed = 7 ∷ [];
})
unfolding push_step push_next
one_published =
    onward (onward (onward (onward here (call_push 7 tt)) (push refl)) (push refl)) (push refl)

to_third : Reaches (initial two_slots) third
unfolding push_step push_next
to_third =
    onward
      (onward (onward (onward (onward one_published (call_push 8 tt)) (push refl)) (push refl))
        (push refl))
      (call_push 9 tt)

push_refused_example : length (contents third.queue) ≡ 2
unfolding push_step push_next
push_refused_example =
    push_refused {t = record third { producer = answered false }} (omega arith)
      (subst (λ q. Reaches (initial q) third) (sym new_two) to_third) refl refl refl
