-- ===== src/Lockfree/SpscQueue/Threads/Steps.antt =====
-- What one access of the producer, or of the consumer, does to the ring and to the other thread.
use entangle.Prelude.{
  ℕ, suc, ◌+◌, ◌-◌, ◌%◌, ◌<◌, bit_and, ◌≡◌, refl, sym, ap, subst, ◌∙◌, ◌≢◌, inl, inr, true, false,
  none, some, List, [], ◌∷◌, ◌++◌, arith, ℕ_discrete, leb, eq→==, ne→==, Bool-cases, length, get_or,
  set, length-set, get_elem?-eq-get_or, get_or-set_self, get_or-set_ne, set-get_or_self,
  store-in_range,
}
use entangle.Prelude.Modular.{add-mod-ne}
use mathlib.Core.List.{append-nil}
use entangle.Lockfree.SpscQueue.{SpscQueue, wrapping_sub, wrapping_add, len}
use entangle.Lockfree.SpscQueue.Inv.{IsValid, contents, window-set_past}
use entangle.Lockfree.SpscQueue.Refine.{
  pushed, popped, index-mod, index-lt, index-wrap, pushed-IsValid, write-eq-read-add-len,
  contents-pushed, len-popped, len-empty, contents-popped, popped-IsValid, length-contents,
  capacity-le,
}
use entangle.Lockfree.SpscQueue.Threads.{
  Producer, idle, started, room, stored, answered, Consumer, taking, taken, push_next, pop_next,
}

-- What the producer knows of the ring, whatever the consumer does.
abbrev pub ProducerOk : SpscQueue → Producer → Type 0
ProducerOk q (started value write) = write ≡ q.write_pos
ProducerOk q (room value write) = (write ≡ q.write_pos) × (len q < q.capacity)
ProducerOk q (stored value write) =
    (write ≡ q.write_pos)
    × (len q < q.capacity)
    × (get_or q.slots (q.write_pos % q.capacity) 0 ≡ value)
ProducerOk q idle = Unit
ProducerOk q (answered b) = Unit

-- What the consumer knows of the ring, whatever the producer does.
abbrev pub ConsumerOk : SpscQueue → Consumer → Type 0
ConsumerOk q (started read) = read ≡ q.read_pos
ConsumerOk q (taking read) = (read ≡ q.read_pos) × (0 < len q)
ConsumerOk q (taken read value) =
    (read ≡ q.read_pos) × (0 < len q) × (get_or q.slots (q.read_pos % q.capacity) 0 ≡ value)
ConsumerOk q idle = Unit
ConsumerOk q (answered x) = Unit

-- A refusal is right at the moment of the test.
abbrev pub PushAnswerOk : SpscQueue → Producer → Producer → Type 0
PushAnswerOk q (started value write) (answered false) = length (contents q) ≡ q.capacity
PushAnswerOk q _ _ = Unit

abbrev pub PopAnswerOk : SpscQueue → Consumer → Consumer → Type 0
PopAnswerOk q (started read) (answered none) = contents q ≡ []
PopAnswerOk q _ _ = Unit

ne_of_len : (q : SpscQueue) → 0 < len q → q.read_pos ≢ q.write_pos
ne_of_len q pos e = absurd (omega (arith, len-empty q e))

len_of_ne : {q : SpscQueue} → IsValid q → q.read_pos ≢ q.write_pos → 0 < len q
len_of_ne v ne = omega (arith, len-popped v ne)

-- The ring with a word stored just past its contents.
abbrev with_word : SpscQueue → ℕ → SpscQueue
with_word q x = record q { slots = set q.slots (q.write_pos % q.capacity) x }

len-with_word : (q : SpscQueue) (x : ℕ) → len (with_word q x) ≡ len q
unfolding len
len-with_word q x = refl

with_word-IsValid : {q : SpscQueue} (x : ℕ) → IsValid q → IsValid (with_word q x)
with_word-IsValid {q} x v = record {
  log = v.log;
  log_small = v.log_small;
  sized = v.sized;
  masked = v.masked;
  stored = omega (arith, length-set {0} q.slots (q.write_pos % q.capacity) x, v.stored);
  write_word = v.write_word;
  read_word = v.read_word;
  fits = omega (arith, len-with_word q x, v.fits);
}

write-mod :
    {q : SpscQueue} → IsValid q → q.write_pos % q.capacity ≡ (q.read_pos + len q) % q.capacity
write-mod {q} v =
    ap (λ (p : ℕ). p % q.capacity) (write-eq-read-add-len v) ∙ index-wrap v (q.read_pos + len q)

contents-with_word :
    {q : SpscQueue} (x : ℕ) → IsValid q → len q < q.capacity → contents (with_word q x) ≡ contents q
contents-with_word {q} x v lt = rw (len-with_word q x) (
    window-set_past q.slots q.capacity x (len q) q.read_pos (q.write_pos % q.capacity) lt
      (write-mod v))

-- The oldest word is not the one that is written.
read-ne-write :
    {q : SpscQueue}
    → IsValid q
    → 0 < len q
    → len q < q.capacity
    → q.write_pos % q.capacity ≢ q.read_pos % q.capacity
read-ne-write {q} v pos lt =
    let n : len q ≡ suc (len q - 1) = omega arith in
    rw (write-mod v, n) (add-mod-ne q.capacity q.read_pos (len q - 1) (omega arith))

-- The outcome of an access of the producer.
abbrev pub Pushes : SpscQueue → Producer → Consumer → Type 0
Pushes q p c =
    (r : SpscQueue) × (p' : Producer) × (words : List ℕ) × (push_next q p ≡ some (r, p', words))
    × IsValid r
    × ProducerOk r p'
    × ConsumerOk r c
    × (contents r ≡ contents q ++ words)
    × PushAnswerOk r p p'

push_started :
    {q : SpscQueue} (value write : ℕ) (c : Consumer)
    → IsValid q
    → write ≡ q.write_pos
    → ConsumerOk q c
    → Pushes q (started value write) c
unfolding push_next len
push_started {q} value write c v e ok_c =
    elim (Bool-cases (leb q.capacity (wrapping_sub write q.read_pos))) [
      | inl full ↦ (
        q,
        answered false,
        [],
        rw full refl,
        v,
        tt,
        ok_c,
        sym (append-nil (contents q)),
        rw (length-contents q) (ground (arith, v.fits)),
      )
      | inr free ↦ (
        q,
        room value write,
        [],
        rw free refl,
        v,
        (e, ground arith),
        ok_c,
        sym (append-nil (contents q)),
        tt,
      )
    ]

ConsumerOk-with_word :
    {q : SpscQueue} (x : ℕ) (c : Consumer)
    → IsValid q
    → len q < q.capacity
    → ConsumerOk q c
    → ConsumerOk (with_word q x) c
ConsumerOk-with_word x idle v lt ok_c = tt
ConsumerOk-with_word x (started read) v lt ok_c = ok_c
ConsumerOk-with_word {q} x (taking read) v lt (e, pos) = (e, omega (arith, len-with_word q x))
ConsumerOk-with_word {q} x (taken read value) v lt (e, pos, at) = (
  e,
  omega (arith, len-with_word q x),
  get_or-set_ne q.slots (q.write_pos % q.capacity) (q.read_pos % q.capacity) x 0
        (read-ne-write v pos lt)
      ∙ at,
)
ConsumerOk-with_word x (answered r) v lt ok_c = tt

push_room :
    {q : SpscQueue} (value write : ℕ) (c : Consumer)
    → IsValid q
    → write ≡ q.write_pos
    → len q < q.capacity
    → ConsumerOk q c
    → Pushes q (room value write) c
unfolding push_next
push_room {q} value write c v e lt ok_c =
    let at : bit_and write q.mask ≡ q.write_pos % q.capacity =
      index-mod v write ∙ ap (λ (p : ℕ). p % q.capacity) e in
    let in_range = index-lt v q.write_pos in
    (
      with_word q value,
      stored value write,
      [],
      rw (at, store-in_range q.slots (q.write_pos % q.capacity) value in_range) refl,
      with_word-IsValid value v,
      (
        e,
        rw (len-with_word q value) lt,
        get_or-set_self q.slots (q.write_pos % q.capacity) value 0 in_range,
      ),
      ConsumerOk-with_word value c v lt ok_c,
      contents-with_word value v lt ∙ sym (append-nil (contents q)),
      tt,
    )

-- A word that stands past the contents is published by the new write position.
abbrev advanced : SpscQueue → SpscQueue
advanced q = record q { write_pos = wrapping_add q.write_pos 1 }

advanced-pushed :
    (q : SpscQueue) {value : ℕ}
    → get_or q.slots (q.write_pos % q.capacity) 0 ≡ value
    → advanced q ≡ pushed value q
advanced-pushed q at =
    ap (λ (slots : List ℕ). record q { slots = slots; write_pos = wrapping_add q.write_pos 1 })
      (sym (set-get_or_self q.slots (q.write_pos % q.capacity) 0)
        ∙ ap (λ (x : ℕ). set q.slots (q.write_pos % q.capacity) x) at)

len-advanced : {q : SpscQueue} → IsValid q → len q < q.capacity → len (advanced q) ≡ suc (len q)
unfolding len
len-advanced v lt = omega (arith, capacity-le v)

ConsumerOk-advanced :
    {q : SpscQueue} (c : Consumer)
    → IsValid q
    → len q < q.capacity
    → ConsumerOk q c
    → ConsumerOk (advanced q) c
ConsumerOk-advanced idle v lt ok_c = tt
ConsumerOk-advanced (started read) v lt ok_c = ok_c
ConsumerOk-advanced (taking read) v lt (e, pos) = (e, omega (arith, len-advanced v lt))
ConsumerOk-advanced (taken read value) v lt (e, pos, at) = (e, omega (arith, len-advanced v lt), at)
ConsumerOk-advanced (answered r) v lt ok_c = tt

push_stored :
    {q : SpscQueue} (value write : ℕ) (c : Consumer)
    → IsValid q
    → write ≡ q.write_pos
    → len q < q.capacity
    → get_or q.slots (q.write_pos % q.capacity) 0 ≡ value
    → ConsumerOk q c
    → Pushes q (stored value write) c
unfolding push_next
push_stored {q} value write c v e lt at ok_c = (
  advanced q,
  answered true,
  value ∷ [],
  ap (λ (w : ℕ). some (record q { write_pos = wrapping_add w 1 }, answered true, value ∷ [])) e,
  subst IsValid (sym (advanced-pushed q at)) (pushed-IsValid value v lt),
  tt,
  ConsumerOk-advanced c v lt ok_c,
  ap contents (advanced-pushed q at) ∙ contents-pushed value v lt,
  tt,
)

-- Whatever the consumer is doing, an access of the producer keeps the ring and both threads right.
pub push_next-Pushes :
    {q : SpscQueue} (p : Producer) (c : Consumer)
    → IsValid q
    → ProducerOk q p
    → ConsumerOk q c
    → Pushes q p c
unfolding push_next
push_next-Pushes {q} idle c v ok_p ok_c =
    (q, idle, [], refl, v, tt, ok_c, sym (append-nil (contents q)), tt)
push_next-Pushes (started value write) c v e ok_c = push_started value write c v e ok_c
push_next-Pushes (room value write) c v (e, lt) ok_c = push_room value write c v e lt ok_c
push_next-Pushes (stored value write) c v (e, lt, at) ok_c =
    push_stored value write c v e lt at ok_c
push_next-Pushes {q} (answered b) c v ok_p ok_c =
    (q, answered b, [], refl, v, tt, ok_c, sym (append-nil (contents q)), tt)

-- The outcome of an access of the consumer.
abbrev pub Pops : SpscQueue → Producer → Consumer → Type 0
Pops q p c =
    (r : SpscQueue) × (c' : Consumer) × (words : List ℕ) × (pop_next q c ≡ some (r, c', words))
    × IsValid r
    × ProducerOk r p
    × ConsumerOk r c'
    × (contents q ≡ words ++ contents r)
    × PopAnswerOk r c c'

pop_started :
    {q : SpscQueue} (p : Producer) (read : ℕ)
    → IsValid q
    → ProducerOk q p
    → read ≡ q.read_pos
    → Pops q p (started read)
unfolding pop_next
pop_started {q} p read v ok_p e = elim (ℕ_discrete read q.write_pos) [
  | yes same ↦
      let nothing : len q ≡ 0 = len-empty q (sym e ∙ same) in
      (q, answered none, [], rw (eq→== _ _ same) refl, v, ok_p, tt, refl, rw nothing refl)
  | no ne ↦
      let some_word : 0 < len q = len_of_ne v (λ h. ne (e ∙ h)) in
      (q, taking read, [], rw (ne→== _ _ ne) refl, v, ok_p, (e, some_word), refl, tt)
]

pop_taking :
    {q : SpscQueue} (p : Producer) (read : ℕ)
    → IsValid q
    → ProducerOk q p
    → read ≡ q.read_pos
    → 0 < len q
    → Pops q p (taking read)
unfolding pop_next
pop_taking {q} p read v ok_p e pos = (
  q,
  taken read (get_or q.slots (q.read_pos % q.capacity) 0),
  [],
  rw
      (
        index-mod v read,
        e,
        get_elem?-eq-get_or q.slots (q.read_pos % q.capacity) 0 (index-lt v q.read_pos),
      )
      refl,
  v,
  ok_p,
  (e, pos, refl),
  refl,
  tt,
)

ProducerOk-popped :
    {q : SpscQueue} (p : Producer)
    → IsValid q
    → 0 < len q
    → ProducerOk q p
    → ProducerOk (popped q) p
ProducerOk-popped idle v pos ok_p = tt
ProducerOk-popped (started value write) v pos ok_p = ok_p
ProducerOk-popped {q} (room value write) v pos (e, lt) =
    (e, omega (arith, len-popped v (ne_of_len q pos)))
ProducerOk-popped {q} (stored value write) v pos (e, lt, at) =
    (e, omega (arith, len-popped v (ne_of_len q pos)), at)
ProducerOk-popped (answered b) v pos ok_p = tt

pop_taken :
    {q : SpscQueue} (p : Producer) (read value : ℕ)
    → IsValid q
    → ProducerOk q p
    → read ≡ q.read_pos
    → 0 < len q
    → get_or q.slots (q.read_pos % q.capacity) 0 ≡ value
    → Pops q p (taken read value)
unfolding pop_next
pop_taken {q} p read value v ok_p e pos at = (
  popped q,
  answered (some value),
  value ∷ [],
  ap (λ (r : ℕ). some (record q { read_pos = wrapping_add r 1 }, answered (some value), value ∷ []))
      e,
  popped-IsValid v (ne_of_len q pos),
  ProducerOk-popped p v pos ok_p,
  tt,
  contents-popped v (ne_of_len q pos) ∙ ap (λ (x : ℕ). x ∷ contents (popped q)) at,
  tt,
)

-- Whatever the producer is doing, an access of the consumer keeps the ring and both threads right.
pub pop_next-Pops :
    {q : SpscQueue} (p : Producer) (c : Consumer)
    → IsValid q
    → ProducerOk q p
    → ConsumerOk q c
    → Pops q p c
unfolding pop_next
pop_next-Pops {q} p idle v ok_p ok_c = (q, idle, [], refl, v, ok_p, tt, refl, tt)
pop_next-Pops p (started read) v ok_p e = pop_started p read v ok_p e
pop_next-Pops p (taking read) v ok_p (e, pos) = pop_taking p read v ok_p e pos
pop_next-Pops p (taken read value) v ok_p (e, pos, at) = pop_taken p read value v ok_p e pos at
pop_next-Pops {q} p (answered x) v ok_p ok_c = (q, answered x, [], refl, v, ok_p, tt, refl, tt)
