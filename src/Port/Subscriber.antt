-- ===== src/Port/Subscriber.antt =====
-- `Subscriber` of crates/entangle/src/port/subscriber.rs, with the `Sample` of
-- crates/entangle/src/sample.rs that it receives. A connection shares the publisher's segment and one
-- of its channels: it names the publisher, and the channel's place in the publisher's list.
use entangle.Prelude.{
  replicate, false, ℕ, ◌+◌, Bool, true, Option, none, some, List, [], ◌∷◌, ◌++◌, if◌then◌else◌,
  length, get_elem?, set, Result, ok, err, ◌>>=◌,
}
use entangle.Transport.Contracts.{ReceiveError, empty, connection_broken}
use entangle.Transport.PointerOffset.{PointerOffset}
use entangle.Transport.DataSegment
use entangle.Transport.Channel
use entangle.Transport.Channel.{Spin, returned, ZeroCopyChannel}
use entangle.Errors.{PortError, receive as receive_failed}
use entangle.Qos.{PubSubQos}
use entangle.Port.Publisher.{Publisher, PubSubShared}

pub record Connection : Type 0 where
  pub publisher : ℕ
  pub channel : ℕ

pub record Subscriber : Type 0 where
  pub node_id : ℕ
  pub connections : List Connection

-- The loop of `SubscriberBuilder::create` over the registered publishers, from number `n` on.
unfoldable pub connect_all : ℕ → PubSubQos → ℕ → List Publisher → List Connection × List Publisher
connect_all node_id qos n [] = ([], [])
connect_all node_id qos n (p ∷ ps) =
    let channel = Channel.connect (Channel.new qos.buffer_size p.node_id node_id) in
    let (conns, ps') = connect_all node_id qos (n + 1) ps in
    (
      record { publisher = n; channel = length p.channels } ∷ conns,
      record p { channels = p.channels ++ (channel ∷ []) } ∷ ps',
    )

unfoldable pub create : ℕ → PubSubQos → PubSubShared → Subscriber × PubSubShared
unfolding connect_all
create node_id qos shared =
    let (conns, ps) = connect_all node_id qos 0 shared.publishers in
    (record { node_id = node_id; connections = conns }, record shared { publishers = ps })

-- A received sample: where it came from, its offset, and whether its drop closure is still there.
pub record Sample : Type 0 where
  pub connection : Connection
  pub offset : PointerOffset
  pub has_drop_fn : Bool

-- The channel of a connection, and the state with that channel replaced. The connection owns shared
-- references to both, so they are always there.
unfoldable pub channel_of : Connection → List Publisher → Option (Publisher × ZeroCopyChannel)
channel_of c ps =
    get_elem? ps c.publisher >>= λ p. get_elem? p.channels c.channel >>= λ ch. some (p, ch)

unfoldable pub put_channel :
    Connection → Publisher → ZeroCopyChannel → List Publisher → List Publisher
put_channel c p ch ps = set ps c.publisher (record p { channels = set p.channels c.channel ch })

-- What one connection's answer means: `none` for `continue`.
abbrev pub outcome :
    Connection → Result ReceiveError PointerOffset → Option (Result PortError (Option Sample))
outcome c (ok offset) =
    some (ok (some (record { connection = c; offset = offset; has_drop_fn = true })))
outcome c (err empty) = none
outcome c (err connection_broken) = some (err (receive_failed connection_broken))

-- `resolve_ptr` has to succeed on what was received.
abbrev checked : Publisher → Result ReceiveError PointerOffset → Option (Unit {0})
checked p (ok offset) = DataSegment.resolve_ptr offset p.segment >>= λ at. some tt
checked p (err e) = some tt

unfoldable pub receive_from :
    List Connection → List Publisher → Option (Result PortError (Option Sample) × List Publisher)
receive_from [] ps = some (ok none, ps)
receive_from (c ∷ rest) ps = channel_of c ps >>= λ (p, ch). Channel.receive ch >>= λ (answer, ch').
    checked p answer >>= λ _.
    let ps' = put_channel c p ch' ps in
    let others = receive_from rest ps' in
    elim (outcome c answer) [ some result ↦ some (result, ps') | none ↦ others ]

unfoldable pub receive :
    Subscriber → List Publisher → Option (Result PortError (Option Sample) × List Publisher)
unfolding receive_from channel_of put_channel
receive s ps = receive_from s.connections ps

-- `Drop` for `Sample`: the offset goes to the return queue. The loop makes one try and `rounds` more,
-- between which the publisher does nothing.
unfoldable pub drop_sample : ℕ → Sample → List Publisher → Option (Spin × List Publisher)
unfolding channel_of put_channel
drop_sample rounds s ps =
    if s.has_drop_fn
    then (channel_of s.connection ps >>= λ (p, ch).
        Channel.return_offset (replicate rounds false) s.offset ch >>= λ (ended, ch').
        some (ended, put_channel s.connection p ch' ps))
    else some (returned, ps)
