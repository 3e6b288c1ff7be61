-- ===== src/Lockfree/SpscQueue/Threads/Runs.antt =====
-- All the interleavings of the two threads from a new queue.
use entangle.Prelude.{
  ℕ, ◌^◌, ◌≤◌, ◌≡◌, refl, sym, ap, subst, ◌∙◌, false, none, some, [], ◌++◌, length, along_some,
}
use mathlib.Core.List.{append_assoc}
use entangle.Lockfree.SpscQueue.{new}
use entangle.Lockfree.SpscQueue.Inv.{IsValid, contents}
use entangle.Lockfree.SpscQueue.Capacity.{new-IsValid}
use entangle.Lockfree.SpscQueue.Threads.{
  started, answered, System, push_step, pop_step, Step, call_push, call_pop, push, pop, Reaches,
  here, onward, initial,
}
use entangle.Lockfree.SpscQueue.Threads.Steps.{
  ProducerOk, ConsumerOk, PushAnswerOk, PopAnswerOk, push_next-Pushes, pop_next-Pops,
}

pub record IsConsistent (s : System) : Type 0 where
  pub valid : IsValid s.queue
  pub produces : ProducerOk s.queue s.producer
  pub consumes : ConsumerOk s.queue s.consumer
  pub ordered : s.pushed ≡ s.popped ++ contents s.queue

initial-IsConsistent : (n : ℕ) → n ≤ 2 ^ 63 → IsConsistent (initial (new n))
initial-IsConsistent n h =
    let (v, nothing, _, _) = new-IsValid n h in
    record { valid = v; produces = tt; consumes = tt; ordered = sym nothing }

-- What follows an access of a thread that keeps the invariant.
push_step-some :
    (s : System)
    → IsConsistent s
    → (t : System) × (push_step s ≡ some t)
      × IsConsistent t
      × PushAnswerOk t.queue s.producer t.producer
unfolding push_step
push_step-some s k =
    let (r, p, words, e, v, ok_p, ok_c, more, right) =
      push_next-Pushes s.producer s.consumer k.valid k.produces k.consumes in
    (
      record s { queue = r; producer = p; pushed = s.pushed ++ words },
      rw e refl,
      record {
        valid = v;
        produces = ok_p;
        consumes = ok_c;
        ordered =
            ap (λ l. l ++ words) k.ordered
            ∙ append_assoc s.popped (contents s.queue) words
            ∙ ap (λ l. s.popped ++ l) (sym more);
      },
      right,
    )

pop_step-some :
    (s : System)
    → IsConsistent s
    → (t : System) × (pop_step s ≡ some t)
      × IsConsistent t
      × PopAnswerOk t.queue s.consumer t.consumer
unfolding pop_step
pop_step-some s k =
    let (r, c, words, e, v, ok_p, ok_c, fewer, right) =
      pop_next-Pops s.producer s.consumer k.valid k.produces k.consumes in
    (
      record s { queue = r; consumer = c; popped = s.popped ++ words },
      rw e refl,
      record {
        valid = v;
        produces = ok_p;
        consumes = ok_c;
        ordered =
            k.ordered
            ∙ ap (λ l. s.popped ++ l) fewer
            ∙ sym (append_assoc s.popped words (contents r));
      },
      right,
    )

Step-IsConsistent : {s t : System} → Step s t → IsConsistent s → IsConsistent t
Step-IsConsistent (call_push value ready) k = record {
  valid = k.valid;
  produces = refl;
  consumes = k.consumes;
  ordered = k.ordered;
}
Step-IsConsistent (call_pop ready) k = record {
  valid = k.valid;
  produces = k.produces;
  consumes = refl;
  ordered = k.ordered;
}
Step-IsConsistent {s} (push e) k =
    let (t', e', k', _) = push_step-some s k in along_some IsConsistent e' e k'
Step-IsConsistent {s} (pop e) k =
    let (t', e', k', _) = pop_step-some s k in along_some IsConsistent e' e k'

Reaches-IsConsistent : {s t : System} → Reaches s t → IsConsistent s → IsConsistent t
Reaches-IsConsistent here k = k
Reaches-IsConsistent (onward run step) k = Step-IsConsistent step (Reaches-IsConsistent run k)

-- However the accesses of one pushing and one popping thread are interleaved from a new ring of a
-- requested capacity up to 2^63, the words published are the words taken out followed by those
-- that the ring holds, in order; the ring is valid, and the next access of either thread returns
-- without an index out of bounds.
pub threads_fifo :
    {n : ℕ} {s : System}
    → n ≤ 2 ^ 63
    → Reaches (initial (new n)) s
    → (s.pushed ≡ s.popped ++ contents s.queue)
      × IsValid s.queue
      × ((t : System) × (push_step s ≡ some t))
      × ((t : System) × (pop_step s ≡ some t))
threads_fifo {n} {s} h run =
    let k = Reaches-IsConsistent run (initial-IsConsistent n h) in
    let (t, e, _, _) = push_step-some s k in
    let (u, f, _, _) = pop_step-some s k in (k.ordered, k.valid, (t, e), (u, f))

-- In any interleaving of one pushing and one popping thread from a new ring of a requested
-- capacity up to 2^63, a push is refused by its test only when the ring holds as many words as
-- its capacity at that moment.
pub push_refused :
    {n value write : ℕ} {s t : System}
    → n ≤ 2 ^ 63
    → Reaches (initial (new n)) s
    → push_step s ≡ some t
    → s.producer ≡ started value write
    → t.producer ≡ answered false
    → length (contents t.queue) ≡ t.queue.capacity
push_refused {n} {value} {write} {s} {t} h run e from to =
    let (t', e', _, right) =
      push_step-some s (Reaches-IsConsistent run (initial-IsConsistent n h)) in
    let right' : PushAnswerOk t.queue s.producer t.producer =
      along_some (λ (u : System). PushAnswerOk u.queue s.producer u.producer) e' e right in
    subst (λ p. PushAnswerOk t.queue (started value write) p) to
      (subst (λ p. PushAnswerOk t.queue p t.producer) from right')

-- In any interleaving of one pushing and one popping thread from a new ring of a requested
-- capacity up to 2^63, a pop finds nothing by its test only when the ring holds no word at that
-- moment.
pub pop_refused :
    {n read : ℕ} {s t : System}
    → n ≤ 2 ^ 63
    → Reaches (initial (new n)) s
    → pop_step s ≡ some t
    → s.consumer ≡ started read
    → t.consumer ≡ answered none
    → contents t.queue ≡ []
pop_refused {n} {read} {s} {t} h run e from to =
    let (t', e', _, right) =
      pop_step-some s (Reaches-IsConsistent run (initial-IsConsistent n h)) in
    let right' : PopAnswerOk t.queue s.consumer t.consumer =
      along_some (λ (u : System). PopAnswerOk u.queue s.consumer u.consumer) e' e right in
    subst (λ c. PopAnswerOk t.queue (started read) c) to
      (subst (λ c. PopAnswerOk t.queue c t.consumer) from right')
