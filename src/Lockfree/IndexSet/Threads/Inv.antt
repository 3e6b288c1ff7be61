-- ===== src/Lockfree/IndexSet/Threads/Inv.antt =====
-- What holds between any two accesses of the threads.
use entangle.Prelude.{
  ℕ, ◌+◌, ◌%◌, ◌^◌, ◌≤◌, ◌<◌, ◌≡◌, refl, ◌≢◌, ◌⊎◌, inl, inr, List, [], ◌∷◌, arith, length, get_or,
  All, count, All-ne_of_count,
}
use entangle.Lockfree.IndexSet.{UniqueIndexSet, sentinel, extract_head, extract_tag}
use entangle.Lockfree.IndexSet.Inv.{Chain}
use entangle.Lockfree.IndexSet.Threads.{
  Pc, idle, refused, uncounting, acquiring, linked, counting, releasing, stored, Thread, System,
  thread,
}
use entangle.Lockfree.IndexSet.Threads.Family.{total, total_one, total_two}

-- The index that a call has in hand: acquired and not yet given to the caller, or taken back and
-- not yet free.
abbrev pub in_hand : Pc → List ℕ
in_hand (counting index) = index ∷ []
in_hand (releasing index old seen) = index ∷ []
in_hand (stored index old seen) = index ∷ []
in_hand _ = []

-- How often a thread has an index.
abbrev pub owns : ℕ → Thread → ℕ
owns i th = count i (in_hand th.pc) + count i th.held

-- What the thread has still to add to the counter, and to take from it.
abbrev pub due_in : Pc → ℕ
due_in (counting index) = 1
due_in _ = 0

abbrev pub due_out : Pc → ℕ
due_out uncounting = 1
due_out _ = 0

abbrev pub in_due : Thread → ℕ
in_due th = due_in th.pc

abbrev pub out_due : Thread → ℕ
out_due th = due_out th.pc

-- A head word that was loaded after `seen` of the `version` updates.
abbrev pub SeenOk : UniqueIndexSet → ℕ → ℕ → ℕ → Type 0
SeenOk s version old seen =
    (seen ≤ version)
    × (extract_tag old ≡ seen % 2 ^ 32)
    × ((extract_head old ≡ sentinel) ⊎ (extract_head old < s.capacity))
    × (seen ≡ version → old ≡ s.head)

abbrev pub PcOk : UniqueIndexSet → ℕ → Pc → Type 0
PcOk s version idle = Unit
PcOk s version refused = Unit
PcOk s version uncounting = Unit
PcOk s version (acquiring old seen) = SeenOk s version old seen
PcOk s version (linked old seen next_idx) =
    SeenOk s version old seen
    × (extract_head old ≢ sentinel)
    × (seen ≡ version → next_idx ≡ get_or s.next (extract_head old) 0)
PcOk s version (counting index) = Unit
PcOk s version (releasing index old seen) = SeenOk s version old seen × (index < s.capacity)
PcOk s version (stored index old seen) =
    SeenOk s version old seen × (index < s.capacity) × (get_or s.next index 0 ≡ extract_head old)

-- Each index below the capacity is somewhere exactly once, and no other is anywhere.
abbrev pub Tally : ℕ → ℕ → ℕ → Type 0
Tally capacity i n = ((i < capacity) × (n ≡ 1)) ⊎ ((capacity ≤ i) × (n ≡ 0))

pub record IsConsistent (s : System) (free : List ℕ) : Type 0 where
  pub sized : length s.index_set.next ≡ s.index_set.capacity
  pub small : s.index_set.capacity < sentinel
  pub chain : Chain s.index_set.next (extract_head s.index_set.head) free
  pub tag : extract_tag s.index_set.head ≡ s.version % 2 ^ 32
  pub tallied : (i : ℕ) → Tally s.index_set.capacity i (count i free + total (owns i) s.threads)
  pub counter : s.index_set.borrowed < 2 ^ 32
  pub accounted :
      (s.index_set.borrowed + length free + total in_due s.threads) % 2 ^ 32
      ≡ (s.index_set.capacity + total out_due s.threads) % 2 ^ 32
  pub sane : (u : ℕ) → u < length s.threads → PcOk s.index_set s.version (thread s u).pc

Tally-le : (capacity i n : ℕ) → Tally capacity i n → n ≤ 1
Tally-le capacity i n (inl (_, e)) = omega arith
Tally-le capacity i n (inr (_, e)) = omega arith

pub Tally-lt : (capacity i n : ℕ) → Tally capacity i n → 0 < n → i < capacity
Tally-lt capacity i n (inl (lt, e)) pos = lt
Tally-lt capacity i n (inr (ge, e)) pos = absurd (omega arith)

pub Tally-eq : (capacity i n : ℕ) → i < capacity → Tally capacity i n → n ≡ 1
Tally-eq capacity i n lt (inl (_, e)) = e
Tally-eq capacity i n lt (inr (ge, e)) = absurd (omega arith)

pub Tally-none : (capacity i n m : ℕ) → capacity ≤ i → Tally capacity i (n + m) → n ≡ 0
Tally-none capacity i n m ge (inl (lt, e)) = absurd (omega arith)
Tally-none capacity i n m ge (inr (_, e)) = omega arith

Chain-head :
    (next : List ℕ) (h : ℕ) (free : List ℕ) → Chain next h free → (h ≡ sentinel) ⊎ (h < length next)
Chain-head next h [] c = inl c
Chain-head next h (i ∷ free) (e, lt, _) = inr (omega arith)

module _ {s : System} {free : List ℕ} (k : IsConsistent s free) where
  pub tally_le : (i : ℕ) → count i free + total (owns i) s.threads ≤ 1
  tally_le i = Tally-le s.index_set.capacity i _ (k.tallied i)

  -- An index that a thread has is below the capacity, not free, and no other thread's.
  pub owned_lt :
      (i u : ℕ) → 0 < owns i (thread s u) → u < length s.threads → i < s.index_set.capacity
  owned_lt i u pos h =
      Tally-lt s.index_set.capacity i _ (k.tallied i)
        (let one = total_one (owns i) s.threads u h in omega arith)

  pub owned_ne_free :
      (i u : ℕ) → 0 < owns i (thread s u) → u < length s.threads → All (λ j. j ≢ i) free
  owned_ne_free i u pos h =
      All-ne_of_count i free
        (let one = total_one (owns i) s.threads u h in let most = tally_le i in omega arith)

  pub owned_apart :
      (i j t u : ℕ)
      → t ≢ u
      → t < length s.threads
      → u < length s.threads
      → 0 < owns i (thread s t)
      → 0 < owns j (thread s u)
      → i ≢ j
  owned_apart i j t u ne h k' pos pos' e =
      let pos'' : 0 < owns i (thread s u) = rw e pos' in
      let two = total_two (owns i) s.threads t u h k' ne in
      let most = tally_le i in absurd (omega arith)

  -- The word that the head holds, as a load finds it.
  pub head-SeenOk : SeenOk s.index_set s.version s.index_set.head s.version
  head-SeenOk =
      (omega arith, k.tag, rw (← k.sized) (Chain-head s.index_set.next _ free k.chain), λ e. refl)
