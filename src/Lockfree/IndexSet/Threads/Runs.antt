-- ===== src/Lockfree/IndexSet/Threads/Runs.antt =====
-- All the interleavings of the threads on a new index set.
use entangle.Prelude.{
  ℕ, zero, suc, ◌+◌, ◌^◌, ◌≤◌, ◌<◌, ◌≡◌, refl, ap, ◌∙◌, inl, inr, Bool, true, false, some, List, [],
  ◌∷◌, map, arith, dec_lt, lt→ltb, length, get_or, replicate, range_from, length-range_from, count,
  count-append, count_self, length-le_of_count, count-range_from, along_some,
}
use entangle.Lockfree.IndexSet.{
  UniqueIndexSet, sentinel, new, initial_link, available, borrowed_count, extract_head, extract_tag,
  pack,
}
use entangle.Lockfree.IndexSet.Inv.{Chain}
use entangle.Lockfree.IndexSet.Refine.{new-IsValid}
use entangle.Lockfree.IndexSet.Words.{pack-fields}
use entangle.Lockfree.IndexSet.Threads.{
  Pc, idle, refused, uncounting, acquiring, linked, counting, releasing, stored, Thread, resting,
  System, thread, after, thread_next, IsReady, Step, call_acquire, call_release, access, Reaches,
  here, onward, initial,
}
use entangle.Lockfree.IndexSet.Threads.Family.{total, total-replicate}
use entangle.Lockfree.IndexSet.Threads.Inv.{
  in_hand, owns, in_due, out_due, due_in, due_out, Tally-eq, Tally-none, IsConsistent, owned_lt,
  tally_le, head-SeenOk,
}
use entangle.Lockfree.IndexSet.Threads.Steps.{unchanged}
use entangle.Lockfree.IndexSet.Threads.Moves.{thread_next-Moves}

-- A thread between two calls.
ready_lem : (pc : Pc) → IsReady pc → (in_hand pc ≡ []) × (due_in pc ≡ 0) × (due_out pc ≡ 0)
ready_lem idle ready = (refl, refl, refl)
ready_lem refused ready = (refl, refl, refl)
ready_lem uncounting ready = absurd ready
ready_lem (acquiring old seen) ready = absurd ready
ready_lem (linked old seen next_idx) ready = absurd ready
ready_lem (counting index) ready = absurd ready
ready_lem (releasing index old seen) ready = absurd ready
ready_lem (stored index old seen) ready = absurd ready

version-le : {s t : System} → Step s t → s.version ≤ t.version
version-le (call_acquire t h ready) = omega arith
version-le (call_release t index before behind h ready e) = omega arith
version-le (access t spurious {updated = true} h e) = omega arith
version-le (access t spurious {updated = false} h e) = omega arith

Step-IsConsistent :
    {s s' : System} (free : List ℕ)
    → Step s s'
    → s.version < 2 ^ 32
    → IsConsistent s free
    → (free' : List ℕ) × IsConsistent s' free'
Step-IsConsistent {s} free (call_acquire t h ready) bound k =
    let (no_hand, no_in, no_out) = ready_lem (thread s t).pc ready in
    (free, unchanged k t h (thread s t) refl _ (λ i. rw no_hand refl) (omega arith) (head-SeenOk k))
Step-IsConsistent {s} free (call_release t index before behind h ready e) bound k =
    let (no_hand, no_in, no_out) = ready_lem (thread s t).pc ready in
    let split = λ (i : ℕ). count-append i before (index ∷ behind) in
    let join = λ (i : ℕ). count-append i before behind in
    let here : (i : ℕ) → count i (thread s t).held ≡ count i before + count i (index ∷ behind) =
      λ i. ap (count i) e ∙ split i in
    let lt = owned_lt k index t (omega (arith, here index, count_self index behind)) h in
    (
      free,
      unchanged k t h (thread s t) refl _ (λ i. rw (no_hand, here i, join i) (omega arith))
          (omega arith) (head-SeenOk k, lt),
    )
Step-IsConsistent {s} free (access t spurious {r} {th} {updated} h e) bound k =
    let (r', th', updated', free', e', k') =
      thread_next-Moves free t spurious (thread s t).pc (thread s t).held k h refl (k.sane t h)
        bound in
    (
      free',
      along_some
          (λ (o : UniqueIndexSet × Thread × Bool). IsConsistent (after s t o.0 o.1 o.2) free') e' e
          k',
    )

Reaches-IsConsistent :
    {s s' : System} (free : List ℕ)
    → Reaches s s'
    → s'.version < 2 ^ 32
    → IsConsistent s free
    → (free' : List ℕ) × IsConsistent s' free'
Reaches-IsConsistent free here bound k = (free, k)
Reaches-IsConsistent free (onward run step) bound k =
    let le = version-le step in
    let (free', k') = Reaches-IsConsistent free run (omega arith) k in
    Step-IsConsistent free' step (omega arith) k'

new-tag :
    (capacity : ℕ) {s : UniqueIndexSet}
    → 0 < capacity
    → capacity < sentinel
    → new capacity ≡ some s
    → extract_tag s.head ≡ 0
unfolding new
new-tag capacity pos small e =
    along_some (λ (r : UniqueIndexSet). extract_tag r.head ≡ 0)
      {x = record {
        head = pack 0 0;
        next = map (initial_link capacity) (range_from 0 capacity);
        capacity = capacity;
        borrowed = 0;
      }}
      (rw (lt→ltb 0 capacity pos, lt→ltb capacity sentinel small) refl) e
      (pack-fields 0 0 (omega arith) (omega arith)).1

get_or-resting : (n u : ℕ) → get_or (replicate n resting) u resting ≡ resting
get_or-resting zero u = refl
get_or-resting (suc n) zero = refl
get_or-resting (suc n) (suc u) = get_or-resting n u

initial-IsConsistent :
    {capacity : ℕ} {s : UniqueIndexSet} (n : ℕ)
    → 0 < capacity
    → capacity < sentinel
    → new capacity ≡ some s
    → IsConsistent (initial s n) (range_from 0 capacity)
initial-IsConsistent {capacity} n pos small e =
    let (r, e', v, nothing, cap) = new-IsValid capacity pos small in
    along_some (λ (s : UniqueIndexSet). IsConsistent (initial s n) (range_from 0 capacity)) e' e
      (record {
        sized = v.sized;
        small = v.small;
        chain = v.chain;
        tag = new-tag capacity pos small e';
        tallied = λ i.
            let none_owned = total-replicate (owns i) n refl in
            let (within, above, below) = count-range_from 0 capacity i in
            rw cap (elim (dec_lt i capacity) [
              | yes lt ↦ inl (lt, omega (arith, within (omega arith) (omega arith)))
              | no ge ↦ inr (omega arith, omega (arith, above (omega arith)))
            ]);
        counter = omega arith;
        accounted =
            let none_in = total-replicate in_due n refl in
            let none_out = total-replicate out_due n refl in
            omega (arith, length-range_from 0 capacity);
        sane = λ u h. rw (get_or-resting n u) tt;
      })

-- However the accesses of acquire and release in any number of threads are interleaved from a new
-- index set, spurious failures of the compare-exchange included, and as long as the head was
-- updated fewer than 2^32 times, the links from the head go through the free indices in order to
-- the sentinel, and each index below the capacity is once there or once with one thread, never
-- both and never twice.
pub threads_own_apart :
    {capacity i : ℕ} (n : ℕ) {s : UniqueIndexSet} {r : System}
    → 0 < capacity
    → capacity < sentinel
    → new capacity ≡ some s
    → Reaches (initial s n) r
    → r.version < 2 ^ 32
    → i < r.index_set.capacity
    → (free : List ℕ) × Chain r.index_set.next (extract_head r.index_set.head) free
      × (count i free + total (owns i) r.threads ≡ 1)
threads_own_apart {i = i} n {r = r} pos small e run bound lt =
    let (free, k) = Reaches-IsConsistent _ run bound (initial-IsConsistent n pos small e) in
    (free, k.chain, Tally-eq r.index_set.capacity i _ lt (k.tallied i))

-- In any interleaving of threads on a new index set with fewer than 2^32 updates of the head, the
-- next access of every thread returns without an index out of bounds, whether or not its
-- compare-exchange fails spuriously.
pub threads_return :
    {capacity t : ℕ} (n : ℕ) {s : UniqueIndexSet} {r : System} (spurious : Bool)
    → 0 < capacity
    → capacity < sentinel
    → new capacity ≡ some s
    → Reaches (initial s n) r
    → r.version < 2 ^ 32
    → t < length r.threads
    → (u : UniqueIndexSet) × (th : Thread) × (updated : Bool) × (thread_next spurious r.index_set
          r.version
          (thread r t).pc
          (thread r t).held
        ≡ some (u, th, updated))
threads_return {t = t} n {r = r} spurious pos small e run bound h =
    let (free, k) = Reaches-IsConsistent _ run bound (initial-IsConsistent n pos small e) in
    let (u, th, updated, _, e', _) =
      thread_next-Moves free t spurious (thread r t).pc (thread r t).held k h refl (k.sane t h)
        bound in
    (u, th, updated, e')

total-quiet :
    (w : Thread → ℕ) (ts : List Thread)
    → ((u : ℕ) → u < length ts → w (get_or ts u resting) ≡ 0)
    → total w ts ≡ 0
total-quiet w [] quiet = refl
total-quiet w (x ∷ xs) quiet =
    let first = quiet 0 (omega arith) in
    let others = total-quiet w xs (λ u h. quiet (suc u) (omega arith)) in omega arith

-- In any interleaving of threads on a new index set with fewer than 2^32 updates of the head,
-- when every thread is between two calls, available is the number of free indices, and the
-- borrowed count and the free indices together are the capacity.
pub available_at_rest :
    {capacity : ℕ} (n : ℕ) {s : UniqueIndexSet} {r : System}
    → 0 < capacity
    → capacity < sentinel
    → new capacity ≡ some s
    → Reaches (initial s n) r
    → r.version < 2 ^ 32
    → ((u : ℕ) → u < length r.threads → IsReady (thread r u).pc)
    → (free : List ℕ) × Chain r.index_set.next (extract_head r.index_set.head) free
      × (available r.index_set ≡ length free)
      × (borrowed_count r.index_set + length free ≡ r.index_set.capacity)
unfolding available
available_at_rest n {r = r} pos small e run bound ready =
    let (free, k) = Reaches-IsConsistent _ run bound (initial-IsConsistent n pos small e) in
    let no_in = total-quiet in_due r.threads (λ u h. (ready_lem (thread r u).pc (ready u h)).1) in
    let no_out = total-quiet out_due r.threads (λ u h. (ready_lem (thread r u).pc (ready u h)).2) in
    let fits =
      length-le_of_count r.index_set.capacity free (λ i. omega (arith, tally_le k i))
        (λ i ge. Tally-none r.index_set.capacity i _ _ ge (k.tallied i)) in
    (
      free,
      k.chain,
      omega (arith, k.small, k.counter, k.accounted),
      omega (arith, k.small, k.counter, k.accounted),
    )
