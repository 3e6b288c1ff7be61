-- ===== src/Lockfree/SpscQueue/Refine.antt =====
-- A valid `SpscQueue` behaves as the bounded queue of the words that it holds.
use entangle.Prelude.{
  ℕ, suc, ◌+◌, ◌%◌, ◌^◌, ◌≤◌, ◌<◌, ◌≡◌, ◌≢◌, ◌↔◌, refl, ap, ◌∙◌, sym, List, [], ◌∷◌, ◌++◌, none,
  some, true, false, length, get_or, set, bit_and, leb, Bool-cases, inl, inr, length-set,
  get_elem?-eq-get_or, store-in_range, arith, subst, ne→==, eq→==, ==→eq, ℕ_discrete,
}
use entangle.Prelude.Bits.{bit_and-mask}
use entangle.Prelude.Modular.{mod-word-mod}
use native.Mathlib.Nat.{mod-lt, one-le-pow, pow-le-pow_right}
use entangle.Lockfree.Fifo
use entangle.Lockfree.SpscQueue.{SpscQueue, wrapping_add, push, pop, len, is_empty, is_full}
use entangle.Lockfree.SpscQueue.Inv.{IsValid, contents, length-window, window-congr, window-set}

pub length-contents : (q : SpscQueue) → length (contents q) ≡ len q
length-contents q = length-window q.slots q.capacity q.read_pos (len q)

-- The masked index is the position modulo the capacity, wrapped at 64 bits or not.
pub index-mod : {q : SpscQueue} → IsValid q → (p : ℕ) → bit_and p q.mask ≡ p % q.capacity
index-mod {q} v p = rw (v.masked, v.sized) (bit_and-mask v.log p)

pub index-wrap : {q : SpscQueue} → IsValid q → (p : ℕ) → p % 2 ^ 64 % q.capacity ≡ p % q.capacity
index-wrap {q} v p = rw v.sized (mod-word-mod v.log p (omega (arith, v.log_small)))

pub index-lt : {q : SpscQueue} → IsValid q → (p : ℕ) → p % q.capacity < length q.slots
index-lt {q} v p = rw v.stored (mod-lt p (omega (arith, v.sized, one-le-pow v.log 2)))

pub capacity-le : {q : SpscQueue} → IsValid q → q.capacity ≤ 2 ^ 63
capacity-le v =
    rw v.sized
      (pow-le-pow_right {n = 2} (omega arith) {i = v.log} {j = 63} (omega (arith, v.log_small)))

abbrev pub pushed : ℕ → SpscQueue → SpscQueue
pushed x q = record q {
  slots = set q.slots (q.write_pos % q.capacity) x;
  write_pos = wrapping_add q.write_pos 1;
}

abbrev pub popped : SpscQueue → SpscQueue
popped q = record q { read_pos = wrapping_add q.read_pos 1 }

push-room :
    {q : SpscQueue} (x : ℕ) → IsValid q → len q < q.capacity → push x q ≡ some (true, pushed x q)
unfolding push len
push-room {q} x v room =
    rw (index-mod v q.write_pos)
      (ground (arith, store-in_range q.slots (q.write_pos % q.capacity) x (index-lt v q.write_pos)))

pub push-full : {q : SpscQueue} (x : ℕ) → q.capacity ≤ len q → push x q ≡ some (false, q)
unfolding push len
push-full {q} x full = ground arith

pub len-pushed :
    {q : SpscQueue} (x : ℕ) → IsValid q → len q < q.capacity → len (pushed x q) ≡ suc (len q)
unfolding len
len-pushed {q} x v room = omega (arith, capacity-le v)

pub pushed-IsValid : {q : SpscQueue} (x : ℕ) → IsValid q → len q < q.capacity → IsValid (pushed x q)
pushed-IsValid {q} x v room = record {
  log = v.log;
  log_small = v.log_small;
  sized = v.sized;
  masked = v.masked;
  stored = omega (arith, length-set {0} q.slots (q.write_pos % q.capacity) x, v.stored);
  write_word = omega arith;
  read_word = v.read_word;
  fits = omega (arith, len-pushed x v room);
}

pub write-eq-read-add-len :
    {q : SpscQueue} → IsValid q → q.write_pos ≡ (q.read_pos + len q) % 2 ^ 64
unfolding len
write-eq-read-add-len v = omega arith

pub contents-pushed :
    {q : SpscQueue} (x : ℕ)
    → IsValid q
    → len q < q.capacity
    → contents (pushed x q) ≡ contents q ++ (x ∷ [])
contents-pushed {q} x v room = rw (len-pushed x v room) (
    window-set q.slots q.capacity x (len q) q.read_pos (q.write_pos % q.capacity)
      (omega (arith, v.stored)) room
      (ap (λ (p : ℕ). p % q.capacity) (write-eq-read-add-len v)
        ∙ index-wrap v (q.read_pos + len q)))

-- On a valid ring, push answers as the bounded first-in first-out queue of the same capacity
-- does, leaves a valid ring of that capacity, and its contents are those of the abstract queue.
pub push-refines :
    {q : SpscQueue} (x : ℕ)
    → IsValid q
    → (r : SpscQueue) × (push x q ≡ some ((Fifo.push q.capacity x (contents q)).0, r))
      × IsValid r
      × (contents r ≡ (Fifo.push q.capacity x (contents q)).1)
      × (r.capacity ≡ q.capacity)
unfolding Fifo.push
push-refines {q} x v = elim (Bool-cases (leb q.capacity (len q))) [
  | inl full ↦ rw (length-contents q, full) (q, push-full x (ground arith), v, refl, refl)
  | inr room ↦
      rw (length-contents q, room)
        (let lt : len q < q.capacity = ground arith in
          (pushed x q, push-room x v lt, pushed-IsValid x v lt, contents-pushed x v lt, refl))
]

-- A queue that is not empty, as the code tests it.
pub len-popped :
    {q : SpscQueue} → IsValid q → q.read_pos ≢ q.write_pos → len q ≡ suc (len (popped q))
unfolding len
len-popped v ne = omega (arith, capacity-le v)

pop-some :
    {q : SpscQueue}
    → IsValid q
    → q.read_pos ≢ q.write_pos
    → pop q ≡ some (some (get_or q.slots (q.read_pos % q.capacity) 0), popped q)
unfolding pop
pop-some {q} v ne = rw (
  ne→== q.read_pos q.write_pos ne,
  index-mod v q.read_pos,
  get_elem?-eq-get_or q.slots (q.read_pos % q.capacity) 0 (index-lt v q.read_pos),
)

pop-none : {q : SpscQueue} → q.read_pos ≡ q.write_pos → pop q ≡ some (none, q)
unfolding pop
pop-none {q} e = rw (eq→== q.read_pos q.write_pos e)

pub len-empty : (q : SpscQueue) → q.read_pos ≡ q.write_pos → len q ≡ 0
unfolding len
len-empty q e = omega arith

pub contents-popped :
    {q : SpscQueue}
    → IsValid q
    → q.read_pos ≢ q.write_pos
    → contents q ≡ get_or q.slots (q.read_pos % q.capacity) 0 ∷ contents (popped q)
contents-popped {q} v ne = rw (len-popped v ne) (
    ap (λ rest. get_or q.slots (q.read_pos % q.capacity) 0 ∷ rest)
      (window-congr q.slots q.capacity (q.read_pos + 1) (wrapping_add q.read_pos 1) (len (popped q))
        (sym (index-wrap v (q.read_pos + 1)))))

pub popped-IsValid : {q : SpscQueue} → IsValid q → q.read_pos ≢ q.write_pos → IsValid (popped q)
popped-IsValid {q} v ne = record {
  log = v.log;
  log_small = v.log_small;
  sized = v.sized;
  masked = v.masked;
  stored = v.stored;
  write_word = v.write_word;
  read_word = omega arith;
  fits = omega (arith, len-popped v ne, v.fits);
}

-- On a valid ring, pop answers as the first-in first-out queue does, leaves a valid ring of the
-- same capacity, and its contents are those of the abstract queue.
pub pop-refines :
    {q : SpscQueue}
    → IsValid q
    → (r : SpscQueue) × (pop q ≡ some ((Fifo.pop (contents q)).0, r))
      × IsValid r
      × (contents r ≡ (Fifo.pop (contents q)).1)
      × (r.capacity ≡ q.capacity)
unfolding Fifo.pop
pop-refines {q} v = elim (ℕ_discrete q.read_pos q.write_pos) [
  | yes e ↦ rw (len-empty q e) (q, pop-none e, v, rw (len-empty q e), refl)
  | no ne ↦ rw (contents-popped v ne) (popped q, pop-some v ne, popped-IsValid v ne, refl, refl)
]

-- `pop` where the contents are known.
pub pop-nil :
    {q : SpscQueue}
    → IsValid q
    → contents q ≡ []
    → (r : SpscQueue) × (pop q ≡ some (none, r))
      × IsValid r
      × (contents r ≡ [])
      × (r.capacity ≡ q.capacity)
unfolding Fifo.pop
pop-nil {q} v e = subst Popped e (pop-refines v)
  where
    Popped : List ℕ → Type 0
    Popped xs =
        (r : SpscQueue) × (pop q ≡ some ((Fifo.pop xs).0, r))
        × IsValid r
        × (contents r ≡ (Fifo.pop xs).1)
        × (r.capacity ≡ q.capacity)

pub pop-cons :
    {q : SpscQueue} {x : ℕ} {xs : List ℕ}
    → IsValid q
    → contents q ≡ x ∷ xs
    → (r : SpscQueue) × (pop q ≡ some (some x, r))
      × IsValid r
      × (contents r ≡ xs)
      × (r.capacity ≡ q.capacity)
unfolding Fifo.pop
pop-cons {q} v e = subst Popped e (pop-refines v)
  where
    Popped : List ℕ → Type 0
    Popped xs =
        (r : SpscQueue) × (pop q ≡ some ((Fifo.pop xs).0, r))
        × IsValid r
        × (contents r ≡ (Fifo.pop xs).1)
        × (r.capacity ≡ q.capacity)

-- `push` where there is room.
pub push-append :
    {q : SpscQueue} (x : ℕ)
    → IsValid q
    → length (contents q) < q.capacity
    → (r : SpscQueue) × (push x q ≡ some (true, r))
      × IsValid r
      × (contents r ≡ contents q ++ (x ∷ []))
      × (r.capacity ≡ q.capacity)
push-append {q} x v room =
    let lt : len q < q.capacity = omega (arith, length-contents q) in
    (pushed x q, push-room x v lt, pushed-IsValid x v lt, contents-pushed x v lt, refl)

-- `is_empty` and `is_full` say what they mean of the words held.
pub is_empty_iff : {q : SpscQueue} → IsValid q → (is_empty q ≡ true) ↔ (contents q ≡ [])
unfolding is_empty
is_empty_iff {q} v = elim (ℕ_discrete q.read_pos q.write_pos) [
  | yes e ↦ (λ h. rw (len-empty q e), λ h. eq→== _ _ e)
  | no ne ↦ (λ h. absurd (ne (==→eq _ _ h)), λ h. let bad = contents-popped v ne in cc)
]

pub is_empty-cons :
    {q : SpscQueue} {x : ℕ} {xs : List ℕ} → IsValid q → contents q ≡ x ∷ xs → is_empty q ≡ false
is_empty-cons {q} v e = elim (Bool-cases (is_empty q)) [
  | inl true' ↦ let nothing = (is_empty_iff v).0 true' in cc
  | inr false' ↦ false'
]

pub is_full_iff : (q : SpscQueue) → (is_full q ≡ true) ↔ (q.capacity ≤ length (contents q))
unfolding is_full len
is_full_iff q = rw (length-contents q) (ground arith)
