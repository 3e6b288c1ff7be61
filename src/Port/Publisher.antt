-- ===== src/Port/Publisher.antt =====
-- `Publisher` of crates/entangle/src/port/publisher.rs, with the `SampleMut` of
-- crates/entangle/src/sample.rs that it lends. A publisher and its registration in the service share
-- the segment and the channels: they are one record here. The mutexes make each operation atomic.
pub mod Sending
use Prim.Native.String.{String}
use entangle.Prelude.{
  ℕ, zero, suc, ◌+◌, ◌-◌, ◌*◌, ◌/◌, ◌%◌, ◌^◌, ◌≤◌, ◌<◌, bit_and, bit_or, min, max, ◌≡◌, refl, sym,
  ap, ap₂, subst, ◌∙◌, ◌≢◌, ◌↔◌, ◌⊎◌, inl, inr, Bool, true, false, not, ◌&&◌, ◌||◌, Option, none,
  some, List, [], ◌∷◌, ◌++◌, map, arith, dec_lt, ℕ_discrete, ltb, leb, ◌==◌, if◌then◌else◌, ltb→lt,
  lt→ltb, le→leb, ==→eq, eq→==, ne→==, Bool-cases, Option-cases, length, get_elem?, get_or, set,
  replicate, length-replicate, length-append, length-set, get_elem?-eq-get_or, get_or-set_self,
  get_or-set_ne, store, store-in_range, range_from, All, Distinct, All-map, length-range_from,
  length-map, get_or-map_range, All-range_from, Distinct-range_from, pigeonhole, Result, ok, err,
  map_err, assert, ◌>>=◌, ◌>>◌,
}
use entangle.Platform.SharedMemory.{SharedMemory, Memory, Answers}
use entangle.Platform.Errors.{PlatformError}
use entangle.Transport.Contracts.{LoanError, out_of_memory, exceeds_max_loans, SendError}
use entangle.Transport.PointerOffset.{PointerOffset}
use entangle.Transport.DataSegment
use entangle.Transport.DataSegment.{DataSegment}
use entangle.Transport.Channel
use entangle.Transport.Channel.{ZeroCopyChannel}
use entangle.Errors.{PortError, loan as loan_failed, send as send_failed}
use entangle.Qos.{PubSubQos}

-- `payload_size` is `size_of::<T>()`.
pub record Publisher : Type 0 where
  pub node_id : ℕ
  pub payload_size : ℕ
  pub segment : DataSegment
  pub channels : List ZeroCopyChannel
  pub max_loaned : ℕ
  pub active_loans : ℕ

-- `PubSubShared` with its wiring.
pub record PubSubShared : Type 0 where
  pub publishers : List Publisher
  pub service_name : String
  pub qos : PubSubQos
  pub publisher_counter : ℕ

abbrev created :
    ℕ
    → ℕ
    → PubSubQos
    → PubSubShared
    → Result PlatformError DataSegment
    → Result PlatformError Publisher × PubSubShared
created node_id payload_size qos shared (err e) = (err e, shared)
created node_id payload_size qos shared (ok segment) =
    let p : Publisher = record {
      node_id = node_id;
      payload_size = payload_size;
      segment = segment;
      channels = [];
      max_loaned = qos.max_loaned_samples;
      active_loans = 0;
    } in
    (ok p, record shared { publishers = shared.publishers ++ (p ∷ []) })

-- `PublisherBuilder::create`. The name of the segment is a function of the publisher's number.
unfoldable pub create :
    (ℕ → String)
    → ℕ
    → ℕ
    → PubSubQos
    → Answers
    → PubSubShared
    → Option (Result PlatformError Publisher × PubSubShared)
create seg_name node_id payload_size qos os shared =
    DataSegment.create (seg_name shared.publisher_counter) (max payload_size 8)
      (qos.buffer_size % 2 ^ 32) 0 os
    >>= λ made. some (
        created node_id payload_size qos
          (record shared { publisher_counter = (shared.publisher_counter + 1) % 2 ^ 32 }) made)

-- `write_bytes(ptr, 0, n)`.
unfoldable pub zero_bytes : ℕ → ℕ → Memory → Memory
zero_bytes at n m i = if leb at i && ltb i (at + n) then 0 else m i

-- A loaned sample: its offset, and whether its two closures are still there.
pub record SampleMut : Type 0 where
  pub offset : PointerOffset
  pub has_send_fn : Bool
  pub has_drop_fn : Bool

-- The part of `loan` behind a successful allocation.
unfoldable pub lend :
    Publisher → PointerOffset → DataSegment → Option (Result PortError SampleMut × Publisher)
lend p offset segment = do
  at ← DataSegment.resolve_ptr offset segment
  some (
    ok (record { offset = offset; has_send_fn = true; has_drop_fn = true }),
    record p {
      segment = record segment {
        shm = record (segment.shm) { memory = zero_bytes at p.payload_size segment.shm.memory };
      };
      active_loans = (p.active_loans + 1) % 2 ^ 64;
    },
  )

lend_allocated :
    Publisher
    → Result LoanError PointerOffset × DataSegment
    → Option (Result PortError SampleMut × Publisher)
lend_allocated p (ok offset, segment) = lend p offset segment
lend_allocated p (err e, segment) = some (err (loan_failed e), record p { segment = segment })

unfoldable pub loan : Publisher → Option (Result PortError SampleMut × Publisher)
unfolding lend_allocated
loan p =
    if leb p.max_loaned p.active_loans
    then some (err (loan_failed (exceeds_max_loans p.max_loaned)), p)
    else DataSegment.allocate p.segment >>= lend_allocated p

-- The send closure: the offset goes to every channel in order, up to the first that fails.
send_next :
    ZeroCopyChannel
    → Result SendError (Unit {0})
    → List ZeroCopyChannel
    → Option (Result PortError (Unit {0}) × List ZeroCopyChannel)
    → Option (Result PortError (Unit {0}) × List ZeroCopyChannel)
send_next ch (err e) rest others = some (err (send_failed e), ch ∷ rest)
send_next ch (ok sent) rest others = others >>= λ (answer, chs). some (answer, ch ∷ chs)

unfoldable pub send_all :
    PointerOffset
    → List ZeroCopyChannel
    → Option (Result PortError (Unit {0}) × List ZeroCopyChannel)
unfolding send_next
send_all offset [] = some (ok tt, [])
send_all offset (ch ∷ rest) =
    let others = send_all offset rest in
    Channel.send offset ch >>= λ (answer, ch'). send_next ch' answer rest others

-- The drop closure of a loaned sample: the chunk goes back to the pool.
unfoldable pub give_back : PointerOffset → Publisher → Option Publisher
give_back offset p = DataSegment.deallocate offset p.segment >>= λ segment.
    some (record p { segment = segment; active_loans = (p.active_loans + 2 ^ 64 - 1) % 2 ^ 64 })

-- `Drop` for `SampleMut`.
unfoldable pub drop_sample_mut : SampleMut → Publisher → Option Publisher
unfolding give_back
drop_sample_mut s p = if s.has_drop_fn then give_back s.offset p else some p

sent_and_dropped :
    SampleMut
    → Publisher
    → Option (Result PortError (Unit {0}) × List ZeroCopyChannel)
    → Option (Result PortError (Unit {0}) × Publisher)
sent_and_dropped s p none = none
sent_and_dropped s p (some (answer, chs)) =
    drop_sample_mut (record s { has_send_fn = false; has_drop_fn = false })
      (record p { channels = chs })
    >>= λ p'. some (answer, p')

-- `SampleMut::send`: both closures are taken before the send closure runs, and the sample is dropped
-- at the end. Without a send closure the `unwrap` panics.
unfoldable pub send : SampleMut → Publisher → Option (Result PortError (Unit {0}) × Publisher)
unfolding send_all drop_sample_mut sent_and_dropped
send s p = if s.has_send_fn then sent_and_dropped s p (send_all s.offset p.channels) else none

-- `while let Some(offset) = channel.reclaim()`, with a bound on the rounds.
unfoldable pub drain : ℕ → ZeroCopyChannel → Publisher → Option (ZeroCopyChannel × Publisher)
unfolding give_back
drain zero ch p = some (ch, p)
drain (suc rounds) ch p = Channel.reclaim ch >>= λ (returned, ch'). elim returned [
  | none ↦ some (ch', p)
  | some offset ↦ give_back offset p >>= λ p'. drain rounds ch' p'
]

-- The channels in order; a channel can hold no more words than it counts.
unfoldable pub drain_all :
    List ZeroCopyChannel → Publisher → Option (List ZeroCopyChannel × Publisher)
unfolding drain
drain_all [] p = some ([], p)
drain_all (ch ∷ rest) p = drain (suc (Channel.return_count ch)) ch p >>= λ (ch', p').
    drain_all rest p' >>= λ (chs, p''). some (ch' ∷ chs, p'')

unfoldable pub reclaim : Publisher → Option Publisher
unfolding drain_all
reclaim p = drain_all p.channels p >>= λ (chs, p'). some (record p' { channels = chs })
