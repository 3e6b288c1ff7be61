-- ===== src/Port/PubSub.antt =====
-- One publisher and one subscriber over one channel: who owns which chunk.
pub mod Lending
pub mod Receiving
pub mod Reclaiming
pub mod Session
mod Tests
use entangle.Prelude.{
  ℕ, zero, suc, ◌+◌, ◌-◌, ◌*◌, ◌/◌, ◌%◌, ◌^◌, ◌≤◌, ◌<◌, bit_and, bit_or, min, max, ◌≡◌, refl, sym,
  ap, ap₂, subst, ◌∙◌, ◌≢◌, ◌↔◌, ◌⊎◌, inl, inr, Bool, true, false, not, ◌&&◌, ◌||◌, Option, none,
  some, List, [], ◌∷◌, ◌++◌, map, arith, dec_lt, ℕ_discrete, ltb, leb, ◌==◌, if◌then◌else◌, ltb→lt,
  lt→ltb, le→leb, ==→eq, eq→==, ne→==, Bool-cases, Option-cases, length, get_elem?, get_or, set,
  replicate, length-replicate, length-append, length-set, get_elem?-eq-get_or, get_or-set_self,
  get_or-set_ne, store, store-in_range, range_from, All, Distinct, All-map, length-range_from,
  length-map, get_or-map_range, All-range_from, Distinct-range_from, pigeonhole, count,
  count-append, count_self, All-ne_of_count, Distinct-of_count, All-lt_of_count, length-le_of_count,
  Result, ok, err, map_err, assert, ◌>>=◌, ◌>>◌,
}
use entangle.Lockfree.SpscQueue.Inv.{contents}
use entangle.Transport.Contracts.{connected}
use entangle.Transport.PointerOffset.{PointerOffset, raw}
use entangle.Transport.PoolAllocator.{chunk}
use entangle.Transport.DataSegment.Refine.{IsValid as IsValidSegment}
use entangle.Transport.Channel.{ZeroCopyChannel, state}
use entangle.Transport.Channel.Refine.{IsValid as IsValidChannel}
use entangle.Port.Publisher.{Publisher, SampleMut}
use entangle.Port.Subscriber.{Sample}

-- The chunks by owner: the pool, loaned samples, the send queue, received samples, the return queue.
pub record Owners : Type 0 where
  pub free : List ℕ
  pub loaned : List ℕ
  pub sending : List ℕ
  pub held : List ℕ
  pub returning : List ℕ

abbrev pub owners : ℕ → Owners → ℕ
owners i o =
    count i o.free + count i o.loaned + count i o.sending + count i o.held + count i o.returning

abbrev pub in_flight : Owners → ℕ
in_flight o = length o.loaned + length o.sending + length o.held + length o.returning

abbrev pub chunk_at : Publisher → ℕ → PointerOffset
chunk_at p i = chunk (p.segment.allocator) i

abbrev pub words : Publisher → List ℕ → List ℕ
words p is = map (λ i. raw (chunk_at p i)) is

abbrev pub capacity : Publisher → ℕ
capacity p = p.segment.allocator.index_set.capacity

-- The loaned sample of chunk `i`, and the received one over the first connection.
abbrev pub lent : Publisher → ℕ → SampleMut
lent p i = record { offset = chunk_at p i; has_send_fn = true; has_drop_fn = true }

abbrev pub delivered : Publisher → ℕ → Sample
delivered p i = record {
  connection = record { publisher = 0; channel = 0 };
  offset = chunk_at p i;
  has_drop_fn = true;
}

-- Every chunk has exactly one owner, the queues hold what the lists say, and the publisher counts
-- the chunks in flight.
pub record IsOwned (p : Publisher) (ch : ZeroCopyChannel) (o : Owners) : Type 0 where
  pub segment : IsValidSegment p.segment o.free
  pub payload : p.payload_size ≤ p.segment.chunk_size
  pub channel : IsValidChannel ch
  pub wired : p.channels ≡ ch ∷ []
  pub alive : state ch ≡ connected
  pub sends : contents ch.send_queue ≡ words p o.sending
  pub returns : contents ch.return_queue ≡ words p o.returning
  pub send_room : capacity p ≤ ch.send_queue.capacity
  pub return_room : capacity p ≤ ch.return_queue.capacity
  pub once : (i : ℕ) → i < capacity p → owners i o ≡ 1
  pub inside : (i : ℕ) → capacity p ≤ i → owners i o ≡ 0
  pub active : p.active_loans ≡ in_flight o
