-- ===== src/Lockfree/SpscQueue/Tests.antt =====
-- Runs of the queue, after the unit tests of spsc_queue.rs, and instances of its theorems.
use entangle.Prelude.{◌-◌, ◌*◌, ◌^◌, ◌≤◌, ◌<◌, ◌≡◌, refl, ◌⊎◌, false, some, [], ◌∷◌, arith}
use entangle.Lockfree.Fifo
use entangle.Lockfree.SpscQueue.{SpscQueue, doubled_until, next_power_of_two, new, push, pop, len}
use entangle.Lockfree.SpscQueue.Inv.{IsValid, contents}
use entangle.Lockfree.SpscQueue.Capacity.{new-IsValid}
use entangle.Lockfree.SpscQueue.Refine.{push-refines, pop-refines}

new_five : (new 5).capacity ≡ 8
unfolding new next_power_of_two doubled_until
new_five = refl

-- 7 and 8, the second beyond the end of the positions.
abbrev wrapped : SpscQueue
wrapped = record {
  write_pos = 1;
  read_pos = 2 ^ 64 - 1;
  capacity = 2;
  mask = 1;
  slots = 8 ∷ 7 ∷ [];
}

wrapped-IsValid : IsValid wrapped
unfolding len
wrapped-IsValid = record {
  log = 1;
  log_small = omega arith;
  sized = refl;
  masked = refl;
  stored = refl;
  write_word = omega arith;
  read_word = omega arith;
  fits = omega arith;
}

contents-wrapped : contents wrapped ≡ 7 ∷ 8 ∷ []
unfolding len
contents-wrapped = refl

pop-wrapped : pop wrapped ≡ some (some 7, record wrapped { read_pos = 0 })
unfolding pop
pop-wrapped = refl

push-wrapped : push 9 wrapped ≡ some (false, wrapped)
unfolding push
push-wrapped = refl

new-IsValid_example :
    IsValid (new 5)
    × (contents (new 5) ≡ [])
    × (5 ≤ (new 5).capacity)
    × (((new 5).capacity ≡ 2) ⊎ ((new 5).capacity < 2 * 5))
new-IsValid_example = new-IsValid 5 (omega arith)

push-refines_example :
    (r : SpscQueue) × (push 9 wrapped ≡ some ((Fifo.push 2 9 (contents wrapped)).0, r))
    × IsValid r
    × (contents r ≡ (Fifo.push 2 9 (contents wrapped)).1)
    × (r.capacity ≡ 2)
push-refines_example = push-refines {q = wrapped} 9 wrapped-IsValid

pop-refines_example :
    (r : SpscQueue) × (pop wrapped ≡ some ((Fifo.pop (contents wrapped)).0, r))
    × IsValid r
    × (contents r ≡ (Fifo.pop (contents wrapped)).1)
    × (r.capacity ≡ 2)
pop-refines_example = pop-refines wrapped-IsValid
