-- ===== src/Port/PubSub/Session/Starting.antt =====
-- A session starts with a publisher, and then a subscriber, of a new service.
use entangle.Prelude.{
  ℕ, ◌+◌, ◌*◌, ◌%◌, ◌^◌, ◌≤◌, ◌<◌, max, ◌≡◌, refl, ap, some, [], ◌∷◌, arith, range_from,
  count-range_from, ok,
}
use Prim.Native.String.{String}
use entangle.Platform.SharedMemory
use entangle.Platform.SharedMemory.{SharedMemory, Answers}
use entangle.Lockfree.IndexSet.{sentinel}
use entangle.Transport.DataSegment
use entangle.Transport.DataSegment.{DataSegment, header_size, align8}
use entangle.Transport.DataSegment.Refine.{create-IsValid, align8_bounds}
use entangle.Transport.Channel
use entangle.Transport.Channel.{ZeroCopyChannel, state}
use entangle.Transport.Channel.Refine.{new-IsValid}
use entangle.Qos.{PubSubQos}
use entangle.Port.Publisher
use entangle.Port.Publisher.{Publisher, PubSubShared}
use entangle.Port.Subscriber
use entangle.Port.Subscriber.{connect_all}
use entangle.Port.PubSub.{Owners}
use entangle.Port.PubSub.Receiving.{listener}
use entangle.Port.PubSub.Session.{Session}
use entangle.Port.PubSub.Session.Runs.{Holds}

-- A service without ports.
abbrev pub fresh : String → PubSubQos → PubSubShared
fresh service_name qos = record {
  publishers = [];
  service_name = service_name;
  qos = qos;
  publisher_counter = 0;
}

-- All chunks are free.
abbrev pub unused : ℕ → Owners
unused n = record { free = range_from 0 n; loaned = []; sending = []; held = []; returning = [] }

abbrev pub session_of : ℕ → Publisher → Session
session_of node p = record { publisher = p; subscriber = listener node; loaned = []; held = [] }

-- The first publisher of a service, on its segment.
abbrev first : ℕ → ℕ → PubSubQos → DataSegment → Publisher
first publisher_id payload_size qos segment = record {
  node_id = publisher_id;
  payload_size = payload_size;
  segment = segment;
  channels = [];
  max_loaned = qos.max_loaned_samples;
  active_loans = 0;
}

create-first :
    (service_name : String) (seg_name : ℕ → String) (publisher_id payload_size : ℕ)
    (qos : PubSubQos) (os : Answers) {d : DataSegment}
    → qos.buffer_size < sentinel
    → DataSegment.create (seg_name 0) (max payload_size 8) qos.buffer_size 0 os ≡ some (ok d)
    → let p = first publisher_id payload_size qos d in
      Publisher.create seg_name publisher_id payload_size qos os (fresh service_name qos)
      ≡ some (ok p, record (fresh service_name qos) { publishers = p ∷ []; publisher_counter = 1 })
unfolding Publisher.create
create-first service_name seg_name publisher_id payload_size qos os small made =
    let word : qos.buffer_size % 2 ^ 32 ≡ qos.buffer_size = omega arith in rw (word, made) refl

-- When the system grants the region, the buffer size is between 1 and 2^32 - 2 and the segment
-- fits 48 bits, creating a publisher and then a subscriber on a service without ports succeeds,
-- registers the publisher, connects the subscriber to it, and gives a session in which every
-- chunk is free.
pub create-Holds :
    (service_name : String) (seg_name : ℕ → String) (publisher_id subscriber_id payload_size : ℕ)
    (qos : PubSubQos) (os : Answers) {shm : SharedMemory}
    → 0 < qos.buffer_size
    → qos.buffer_size < sentinel
    → header_size + align8 (max payload_size 8) * qos.buffer_size ≤ 2 ^ 48
    → SharedMemory.create
        (seg_name 0)
        (header_size + align8 (max payload_size 8) * qos.buffer_size)
        os
      ≡ ok shm
    → (p q : Publisher) × (shared last : PubSubShared) × (ch : ZeroCopyChannel) × (Publisher.create
          seg_name publisher_id payload_size qos os
          (fresh service_name qos)
        ≡ some (ok p, shared))
      × (shared.publishers ≡ p ∷ [])
      × (Subscriber.create subscriber_id qos shared ≡ (listener subscriber_id, last))
      × (last.publishers ≡ q ∷ [])
      × Holds (session_of subscriber_id q) ch (unused qos.buffer_size) subscriber_id
unfolding Subscriber.create connect_all Channel.connect
create-Holds service_name seg_name publisher_id subscriber_id payload_size qos os {shm} pos small
      fits granted =
    let (d, made, valid, chunk, cap) =
      create-IsValid (seg_name 0) (max payload_size 8) qos.buffer_size 0 os (omega arith) pos small
        (omega arith) fits granted in
    let (ch_valid, viewed, connected_view, send_cap, return_cap) =
      new-IsValid qos.buffer_size publisher_id subscriber_id (omega arith) in
    let ch : ZeroCopyChannel =
      Channel.connect (Channel.new qos.buffer_size publisher_id subscriber_id) in
    let p : Publisher = first publisher_id payload_size qos d in
    (
      p,
      record p { channels = ch ∷ [] },
      record (fresh service_name qos) { publishers = p ∷ []; publisher_counter = 1 },
      record (fresh service_name qos) {
        publishers = record p { channels = ch ∷ [] } ∷ [];
        publisher_counter = 1;
      },
      ch,
      create-first service_name seg_name publisher_id payload_size qos os small made,
      refl,
      refl,
      refl,
      record {
        owned = record {
          segment = valid;
          payload = omega (arith, (align8_bounds (max payload_size 8)).0, chunk);
          channel = record { sending = ch_valid.sending; returning = ch_valid.returning };
          wired = refl;
          alive = ap (λ v. v.phase) connected_view;
          sends = ap (λ v. v.sends) connected_view;
          returns = ap (λ v. v.returns) connected_view;
          send_room = omega (arith, send_cap, cap);
          return_room = omega (arith, return_cap, cap);
          once = λ i lt.
              omega (
                arith,
                (count-range_from 0 qos.buffer_size i).0 (omega arith) (omega (arith, cap)),
              );
          inside =
              λ i ge. omega (arith, (count-range_from 0 qos.buffer_size i).1 (omega (arith, cap)));
          active = refl;
        };
        listens = refl;
        loans = refl;
        samples = refl;
      },
    )
