-- ===== src/Port/ReqRes/Lanes.antt =====
-- A channel with the chunks on their way over it and the values that they hold, and what `post` and
-- `fetch` do to it and to the segment.
use entangle.Prelude.{
  ℕ, ◌+◌, ◌*◌, ◌≤◌, ◌<◌, ◌≡◌, refl, sym, ap, subst, ◌∙◌, ◌≢◌, ◌⊎◌, inl, inr, none, some, List, [],
  ◌∷◌, ◌++◌, map, arith, dec_lt, length, All, length-map, ok, err,
}
use mathlib.Core.List.{map-append}
use entangle.Platform.SharedMemory.{Memory}
use entangle.Lockfree.IndexSet.{UniqueIndexSet}
use entangle.Lockfree.SpscQueue.Inv.{contents}
use entangle.Lockfree.SpscQueue.Refine.{push-full, length-contents}
use entangle.Transport.Contracts.{connected, out_of_memory, queue_full}
use entangle.Transport.PointerOffset.{PointerOffset, raw}
use entangle.Transport.PoolAllocator.{chunk}
use entangle.Transport.DataSegment
use entangle.Transport.DataSegment.{DataSegment}
use entangle.Transport.DataSegment.Refine.{
  IsValid as IsValidSegment, resolve_ptr-chunk, allocate-refines, deallocate-refines,
}
use entangle.Transport.Channel.{ZeroCopyChannel, state, send}
use entangle.Transport.Channel.Refine.{IsValid as IsValidChannel}
use entangle.Transport.Channel.Known.{send-append, receive-cons, receive-nil}
use entangle.Errors.{loan as loan_failed, send as send_failed}
use entangle.Port.ReqRes.{write_bytes, read_bytes, post, fetch}
use entangle.Port.ReqRes.Bytes.{read_bytes-write_bytes, read_bytes-apart}

-- Where chunk `i` starts.
abbrev pub place : DataSegment → ℕ → ℕ
place d i = 64 + i * d.chunk_size

-- The values in the chunks, of so many bytes each.
abbrev pub Written : DataSegment → ℕ → List ℕ → List (List ℕ) → Type 0
Written d size [] [] = Unit
Written d size (i ∷ is) (v ∷ vs) =
    (read_bytes (place d i) size d.shm.memory ≡ v) × Written d size is vs
Written d size _ _ = ⊥

abbrev pub words : DataSegment → List ℕ → List ℕ
words d is = map (λ i. raw (chunk (d.allocator) i)) is

pub record Carries (d : DataSegment) (size : ℕ) (ch : ZeroCopyChannel) (is : List ℕ)
    (vs : List (List ℕ)) : Type 0 where
  pub channel : IsValidChannel ch
  pub alive : state ch ≡ connected
  pub sends : contents ch.send_queue ≡ words d is
  pub written : Written d size is vs

-- The segment with another pool and another memory.
abbrev pub changed : DataSegment → UniqueIndexSet → Memory → DataSegment
changed d s m = record d {
  allocator = record (d.allocator) { index_set = s };
  shm = record (d.shm) { memory = m };
}

-- Chunks of different numbers lie apart.
places_apart :
    (d : DataSegment) (size i k : ℕ) (v : List ℕ)
    → size ≤ d.chunk_size
    → length v ≤ d.chunk_size
    → i ≢ k
    → (place d i + size ≤ place d k) ⊎ (place d k + length v ≤ place d i)
places_apart d size i k v fits fits' ne = elim (dec_lt i k) [
  | yes lt ↦ inl (let gap : (i + 1) * d.chunk_size ≤ k * d.chunk_size = grind arith in omega arith)
  | no ge ↦ inr (let gap : (k + 1) * d.chunk_size ≤ i * d.chunk_size = grind arith in omega arith)
]

-- A value written into a chunk leaves those in other chunks.
Written-apart :
    (d : DataSegment) (s : UniqueIndexSet) (size k : ℕ) (v : List ℕ) (is : List ℕ)
    (vs : List (List ℕ))
    → size ≤ d.chunk_size
    → length v ≤ d.chunk_size
    → All (λ i. i ≢ k) is
    → Written d size is vs
    → Written (changed d s (write_bytes (place d k) v d.shm.memory)) size is vs
Written-apart d s size k v [] [] fits fits' apart w = tt
Written-apart d s size k v (i ∷ is) (x ∷ xs) fits fits' (ne, apart) (here, w) = (
  read_bytes-apart (place d i) size (place d k) v d.shm.memory
        (places_apart d size i k v fits fits' ne)
      ∙ here,
  Written-apart d s size k v is xs fits fits' apart w,
)
Written-apart d s size k v [] (x ∷ xs) fits fits' apart w = absurd w
Written-apart d s size k v (i ∷ is) [] fits fits' apart w = absurd w

Written-same :
    (d : DataSegment) (s : UniqueIndexSet) (size : ℕ) (is : List ℕ) (vs : List (List ℕ))
    → Written d size is vs
    → Written (changed d s d.shm.memory) size is vs
Written-same d s size [] [] w = tt
Written-same d s size (i ∷ is) (x ∷ xs) (here, w) = (here, Written-same d s size is xs w)
Written-same d s size [] (x ∷ xs) w = absurd w
Written-same d s size (i ∷ is) [] w = absurd w

Written-append :
    (d : DataSegment) (size k : ℕ) (v : List ℕ) (is : List ℕ) (vs : List (List ℕ))
    → Written d size is vs
    → read_bytes (place d k) size d.shm.memory ≡ v
    → Written d size (is ++ (k ∷ [])) (vs ++ (v ∷ []))
Written-append d size k v [] [] w e = (e, tt)
Written-append d size k v (i ∷ is) (x ∷ xs) (here, w) e =
    (here, Written-append d size k v is xs w e)
Written-append d size k v [] (x ∷ xs) w e = absurd w
Written-append d size k v (i ∷ is) [] w e = absurd w

-- What the operations on one lane leave of another.
pub Carries-apart :
    {d : DataSegment} {size : ℕ} {ch : ZeroCopyChannel} {is : List ℕ} {vs : List (List ℕ)}
    (s : UniqueIndexSet) (k : ℕ) (v : List ℕ)
    → size ≤ d.chunk_size
    → length v ≤ d.chunk_size
    → All (λ i. i ≢ k) is
    → Carries d size ch is vs
    → Carries (changed d s (write_bytes (place d k) v d.shm.memory)) size ch is vs
Carries-apart {d} {size} {ch} {is} {vs} s k v fits fits' apart c = record {
  channel = c.channel;
  alive = c.alive;
  sends = c.sends;
  written = Written-apart d s size k v is vs fits fits' apart c.written;
}

pub Carries-same :
    {d : DataSegment} {size : ℕ} {ch : ZeroCopyChannel} {is : List ℕ} {vs : List (List ℕ)}
    (s : UniqueIndexSet)
    → Carries d size ch is vs
    → Carries (changed d s d.shm.memory) size ch is vs
Carries-same {d} {size} {ch} {is} {vs} s c = record {
  channel = c.channel;
  alive = c.alive;
  sends = c.sends;
  written = Written-same d s size is vs c.written;
}

IsValid-changed :
    {d : DataSegment} {free : List ℕ} (m : Memory)
    → IsValidSegment d free
    → IsValidSegment (record d { shm = record (d.shm) { memory = m } }) free
IsValid-changed m v = record {
  pool = v.pool;
  same_size = v.same_size;
  based = v.based;
  room = v.room;
}

-- The segment and the channel after an operation that leaves `free`.
pub record Left (d : DataSegment) (s : UniqueIndexSet) (m : Memory) (ch c : ZeroCopyChannel)
    (free : List ℕ) : Type 0 where
  pub segment : IsValidSegment (changed d s m) free
  pub same_capacity : s.capacity ≡ d.allocator.index_set.capacity
  pub same_room : c.send_queue.capacity ≡ ch.send_queue.capacity

-- A free chunk and room in the queue: the value is on its way.
pub post-room :
    {d : DataSegment} {size : ℕ} {ch : ZeroCopyChannel} {is : List ℕ} {vs : List (List ℕ)} (k : ℕ)
    (rest : List ℕ) (v : List ℕ)
    → IsValidSegment d (k ∷ rest)
    → Carries d size ch is vs
    → k < d.allocator.index_set.capacity
    → length is < ch.send_queue.capacity
    → length v ≡ size
    → size ≤ d.chunk_size
    → All (λ i. i ≢ k) is
    → (s : UniqueIndexSet) × (c : ZeroCopyChannel) × (post v ch d
        ≡ some (ok tt, c, changed d s (write_bytes (place d k) v d.shm.memory)))
      × Left d s (write_bytes (place d k) v d.shm.memory) ch c rest
      × Carries
          (changed d s (write_bytes (place d k) v d.shm.memory))
          size
          c
          (is ++ (k ∷ []))
          (vs ++ (v ∷ []))
unfolding post
post-room {d} {size} {ch} {is} {vs} k rest v valid lane inside room sized fits apart =
    let (e, answered, valid', kept, same) = allocate-refines (k ∷ rest) valid in
    let s = e.allocator.index_set in
    let valid'' : IsValidSegment (changed d s d.shm.memory) rest =
      subst (λ x. IsValidSegment x rest) kept valid' in
    let m = write_bytes (place d k) v d.shm.memory in
    let at : DataSegment.resolve_ptr (chunk (d.allocator) k) (changed d s d.shm.memory)
        ≡ some (place d k) =
      resolve_ptr-chunk rest k valid'' (omega arith) in
    let (c, sent, follows, held, _) =
      send-append (chunk (d.allocator) k) lane.channel lane.alive
        (rw (lane.sends, length-map (λ i. raw (chunk (d.allocator) i)) is) room) in
    (
      s,
      c,
      rw (answered, kept, at, sent) refl,
      record {
        segment = IsValid-changed m valid'';
        same_capacity = same;
        same_room = follows.same_send;
      },
      record {
        channel = follows.valid;
        alive = follows.same_state ∙ lane.alive;
        sends =
            held
            ∙ ap (λ ws. ws ++ (raw (chunk (d.allocator) k) ∷ [])) lane.sends
            ∙ sym (map-append (λ j. raw (chunk (d.allocator) j)) is (k ∷ []));
        written =
            Written-append (changed d s m) size k v is vs
              (Written-apart d s size k v is vs fits (omega arith) apart lane.written)
              (rw (← sized) (read_bytes-write_bytes (place d k) v d.shm.memory));
      },
    )

-- No free chunk.
pub post-none :
    {d : DataSegment} (ch : ZeroCopyChannel) (v : List ℕ)
    → IsValidSegment d []
    → (s : UniqueIndexSet) × (post v ch d
        ≡ some (err (loan_failed out_of_memory), ch, changed d s d.shm.memory))
      × Left d s d.shm.memory ch ch []
unfolding post
post-none {d} ch v valid =
    let (e, answered, valid', kept, same) = allocate-refines [] valid in
    (
      e.allocator.index_set,
      rw (answered, kept) refl,
      record {
        segment = subst (λ x. IsValidSegment x []) kept valid';
        same_capacity = same;
        same_room = refl;
      },
    )

send-full :
    {ch : ZeroCopyChannel} (offset : PointerOffset)
    → state ch ≡ connected
    → ch.send_queue.capacity ≤ length (contents ch.send_queue)
    → send offset ch ≡ some (err queue_full, ch)
unfolding send
send-full {ch} offset alive full =
    rw
      (
        alive,
        push-full {q = ch.send_queue} (raw offset) (omega (arith, length-contents ch.send_queue)),
      )
      refl

-- A free chunk, but no room in the queue: the chunk is taken and written, and its offset is nowhere.
pub post-full :
    {d : DataSegment} {size : ℕ} {ch : ZeroCopyChannel} {is : List ℕ} {vs : List (List ℕ)} (k : ℕ)
    (rest : List ℕ) (v : List ℕ)
    → IsValidSegment d (k ∷ rest)
    → Carries d size ch is vs
    → k < d.allocator.index_set.capacity
    → ch.send_queue.capacity ≤ length is
    → (s : UniqueIndexSet) × (post v ch d
        ≡ some (
          err (send_failed queue_full),
          ch,
          changed d s (write_bytes (place d k) v d.shm.memory),
        ))
      × Left d s (write_bytes (place d k) v d.shm.memory) ch ch rest
unfolding post
post-full {d} {size} {ch} {is} {vs} k rest v valid lane inside full =
    let (e, answered, valid', kept, same) = allocate-refines (k ∷ rest) valid in
    let s = e.allocator.index_set in
    let valid'' : IsValidSegment (changed d s d.shm.memory) rest =
      subst (λ x. IsValidSegment x rest) kept valid' in
    let at : DataSegment.resolve_ptr (chunk (d.allocator) k) (changed d s d.shm.memory)
        ≡ some (place d k) =
      resolve_ptr-chunk rest k valid'' (omega arith) in
    let refused =
      send-full {ch = ch} (chunk (d.allocator) k) lane.alive
        (rw (lane.sends, length-map (λ i. raw (chunk (d.allocator) i)) is) full) in
    (
      s,
      rw (answered, kept, at, refused) refl,
      record {
        segment = IsValid-changed (write_bytes (place d k) v d.shm.memory) valid'';
        same_capacity = same;
        same_room = refl;
      },
    )

-- The oldest value is read and its chunk freed.
pub fetch-cons :
    {d : DataSegment} {size : ℕ} {ch : ZeroCopyChannel} {i : ℕ} {is : List ℕ} {v : List ℕ}
    {vs : List (List ℕ)} (free : List ℕ)
    → IsValidSegment d free
    → Carries d size ch (i ∷ is) (v ∷ vs)
    → i < d.allocator.index_set.capacity
    → All (λ j. j ≢ i) free
    → (s : UniqueIndexSet) × (c : ZeroCopyChannel) × (fetch size ch d
        ≡ some (ok (some v), c, changed d s d.shm.memory))
      × Left d s d.shm.memory ch c (i ∷ free)
      × Carries (changed d s d.shm.memory) size c is vs
unfolding fetch
fetch-cons {d} {size} {ch} {i} {is} {v} {vs} free valid lane inside out =
    let (c, got, follows, held, _) = receive-cons lane.channel lane.alive lane.sends in
    let (e, released, valid', kept, same) = deallocate-refines free i valid inside out in
    let s = e.allocator.index_set in
    (
      s,
      c,
      rw (got, resolve_ptr-chunk free i valid inside, released, kept, lane.written.0) refl,
      record {
        segment = subst (λ x. IsValidSegment x (i ∷ free)) kept valid';
        same_capacity = same;
        same_room = follows.same_send;
      },
      record {
        channel = follows.valid;
        alive = follows.same_state ∙ lane.alive;
        sends = held;
        written = Written-same d s size is vs lane.written.1;
      },
    )

-- Nothing is on its way.
pub fetch-nil :
    {d : DataSegment} {size : ℕ} {ch : ZeroCopyChannel}
    → Carries d size ch [] []
    → (c : ZeroCopyChannel) × (fetch size ch d ≡ some (ok none, c, d))
      × Carries d size c [] []
      × (c.send_queue.capacity ≡ ch.send_queue.capacity)
unfolding fetch
fetch-nil lane =
    let (c, got, follows, held, _) = receive-nil lane.channel lane.alive lane.sends in
    (
      c,
      rw got refl,
      record {
        channel = follows.valid;
        alive = follows.same_state ∙ lane.alive;
        sends = held;
        written = tt;
      },
      follows.same_send,
    )
