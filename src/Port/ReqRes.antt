-- ===== src/Port/ReqRes.antt =====
-- The request-response ports: crates/entangle/src/port/client.rs and port/server.rs, with the shared
-- state of crates/entangle/src/service/reqres.rs. The server, its clients and the requests and
-- responses under way share the segment and the channels of the registration: an operation takes the
-- registration and gives it back. A request or a response is the list of its bytes.
pub mod Bytes
pub mod Lanes
pub mod Calls
pub mod Starting
mod Tests
use Prim.Native.String.{String}
use entangle.Prelude.{
  ℕ, zero, suc, ◌+◌, ◌-◌, ◌*◌, ◌/◌, ◌%◌, ◌^◌, ◌≤◌, ◌<◌, bit_and, bit_or, min, max, ◌≡◌, refl, sym,
  ap, ap₂, subst, ◌∙◌, ◌≢◌, ◌↔◌, ◌⊎◌, inl, inr, Bool, true, false, not, ◌&&◌, ◌||◌, Option, none,
  some, List, [], ◌∷◌, ◌++◌, map, arith, dec_lt, ℕ_discrete, ltb, leb, ◌==◌, if◌then◌else◌, ltb→lt,
  lt→ltb, le→leb, gt→leb, ==→eq, eq→==, ne→==, Bool-cases, Option-cases, length, get_elem?, get_or,
  set, replicate, length-replicate, length-append, length-set, get_elem?-eq-get_or, get_or-set_self,
  get_or-set_ne, set-get_or_self, store, store-in_range, range_from, All, Distinct, All-map,
  length-range_from, length-map, get_or-map_range, All-range_from, Distinct-range_from, pigeonhole,
  count, count-append, count_self, All-ne_of_count, Distinct-of_count, All-lt_of_count,
  length-le_of_count, count-range_from, Result, ok, err, map_err, assert, along_some, ◌>>=◌, ◌>>◌,
}
use entangle.Platform.Errors.{PlatformError}
use entangle.Platform.SharedMemory.{Memory, Answers}
use entangle.Transport.Contracts.{LoanError, SendError, ReceiveError, empty, connection_broken}
use entangle.Transport.PointerOffset.{PointerOffset}
use entangle.Transport.DataSegment
use entangle.Transport.DataSegment.{DataSegment}
use entangle.Transport.Channel
use entangle.Transport.Channel.{ZeroCopyChannel}
use entangle.Errors.{
  PortError, loan as loan_failed, send as send_failed, receive as receive_failed, IpcError,
  service as service_failed, platform as platform_failed, already_exists, not_found,
}
use entangle.Qos.{ReqResQos}

pub record ClientWire : Type 0 where
  pub client_id : ℕ
  pub request_channel : ZeroCopyChannel
  pub response_channel : ZeroCopyChannel

pub record ServerRegistration : Type 0 where
  pub node_id : ℕ
  pub segment : DataSegment
  pub clients : List ClientWire

-- `ReqResShared` with its wiring.
pub record ReqResShared : Type 0 where
  pub service_name : String
  pub server : Option ServerRegistration

abbrev default_reqres_qos : ReqResQos
default_reqres_qos = record { max_clients = 8; max_servers = 1; max_pending_requests = 16 }

-- The server is registered unless there is one, when its segment is made already.
abbrev pub register_server :
    ℕ
    → ReqResShared
    → Result PlatformError DataSegment
    → Option ServerRegistration
    → Result IpcError (Unit {0}) × ReqResShared
register_server node_id shared (err e) server = (err (platform_failed e), shared)
register_server node_id shared (ok segment) (some reg) =
    (err (service_failed (already_exists shared.service_name)), shared)
register_server node_id shared (ok segment) none = (
  ok tt,
  record shared { server = some (record { node_id = node_id; segment = segment; clients = [] }) },
)

-- `ServerBuilder::create`, with the sizes of the two types. The product is one of 64 bits.
unfoldable pub create_server :
    String
    → ℕ
    → ℕ
    → ℕ
    → ReqResQos
    → Answers
    → ReqResShared
    → Option (Result IpcError (Unit {0}) × ReqResShared)
create_server seg_name node_id request_size response_size qos os shared =
    let chunk_size = max (max request_size response_size) 8 in
    let chunk_count = max (qos.max_pending_requests * 2 % 2 ^ 64) 16 % 2 ^ 32 in
    DataSegment.create seg_name chunk_size chunk_count 0 os >>= λ made.
    some (register_server node_id shared made shared.server)

-- A client knows its channels: those of the wire at this place.
pub record Client : Type 0 where
  pub node_id : ℕ
  pub wire : ℕ

create_client_on :
    ℕ → ReqResQos → ReqResShared → Option ServerRegistration → Result IpcError Client × ReqResShared
create_client_on node_id qos shared none =
    (err (service_failed (not_found shared.service_name)), shared)
create_client_on node_id qos shared (some reg) =
    let wire : ClientWire = record {
      client_id = node_id;
      request_channel = Channel.connect (Channel.new qos.max_pending_requests node_id reg.node_id);
      response_channel = Channel.connect (Channel.new qos.max_pending_requests reg.node_id node_id);
    } in
    (
      ok (record { node_id = node_id; wire = length reg.clients }),
      record shared { server = some (record reg { clients = reg.clients ++ (wire ∷ []) }) },
    )

-- `ClientBuilder::create`.
unfoldable pub create_client : ℕ → ReqResQos → ReqResShared → Result IpcError Client × ReqResShared
unfolding create_client_on
create_client node_id qos shared = create_client_on node_id qos shared shared.server

-- `*ptr = value` and `*ptr`, byte by byte.
abbrev pub write_bytes : ℕ → List ℕ → Memory → Memory
write_bytes at [] m = m
write_bytes at (b ∷ bs) m = write_bytes (at + 1) bs (λ i. if i == at then b else m i)

abbrev pub read_bytes : ℕ → ℕ → Memory → List ℕ
read_bytes at zero m = []
read_bytes at (suc n) m = m at ∷ read_bytes (at + 1) n m

posted :
    List ℕ
    → ZeroCopyChannel
    → Result LoanError PointerOffset × DataSegment
    → Option (Result PortError (Unit {0}) × ZeroCopyChannel × DataSegment)
posted value ch (err e, segment) = some (err (loan_failed e), ch, segment)
posted value ch (ok offset, segment) = DataSegment.resolve_ptr offset segment >>= λ at.
    Channel.send offset ch >>= λ (answer, ch'). some (
      map_err send_failed answer,
      ch',
      record segment {
        shm = record (segment.shm) { memory = write_bytes at value segment.shm.memory };
      },
    )

-- The body that `Client::send` and `ActiveRequest::respond` have in common: a chunk is allocated and
-- written, and its offset sent over a channel.
unfoldable pub post :
    List ℕ
    → ZeroCopyChannel
    → DataSegment
    → Option (Result PortError (Unit {0}) × ZeroCopyChannel × DataSegment)
unfolding posted
post value ch segment = DataSegment.allocate segment >>= posted value ch

fetched :
    ℕ
    → DataSegment
    → Result ReceiveError PointerOffset × ZeroCopyChannel
    → Option (Result PortError (Option (List ℕ)) × ZeroCopyChannel × DataSegment)
fetched size segment (ok offset, ch) = DataSegment.resolve_ptr offset segment >>= λ at.
    DataSegment.deallocate offset segment >>= λ segment'.
    some (ok (some (read_bytes at size segment.shm.memory)), ch, segment')
fetched size segment (err empty, ch) = some (ok none, ch, segment)
fetched size segment (err connection_broken, ch) =
    some (err (receive_failed connection_broken), ch, segment)

-- The body that `Server::receive`, for one client, and `PendingResponse::try_receive` have in common:
-- an offset is received, its chunk read and given back.
unfoldable pub fetch :
    ℕ
    → ZeroCopyChannel
    → DataSegment
    → Option (Result PortError (Option (List ℕ)) × ZeroCopyChannel × DataSegment)
unfolding fetched
fetch size ch segment = Channel.receive ch >>= fetched size segment

-- The wire at a place. A port has shared references to the channels, so they are there.
abbrev put_request :
    ServerRegistration → ℕ → ClientWire → ZeroCopyChannel → DataSegment → ServerRegistration
put_request reg n w ch segment = record reg {
  segment = segment;
  clients = set reg.clients n (record w { request_channel = ch });
}

abbrev put_response :
    ServerRegistration → ℕ → ClientWire → ZeroCopyChannel → DataSegment → ServerRegistration
put_response reg n w ch segment = record reg {
  segment = segment;
  clients = set reg.clients n (record w { response_channel = ch });
}

-- `PendingResponse` has the response channel of its client.
pub record PendingResponse : Type 0 where
  pub wire : ℕ

-- `Client::send`.
unfoldable pub send :
    List ℕ
    → Client
    → ServerRegistration
    → Option (Result PortError PendingResponse × ServerRegistration)
send request client reg = get_elem? reg.clients client.wire >>= λ w.
    post request w.request_channel reg.segment >>= λ (answer, ch, segment). some (
      (elim answer [ ok sent ↦ ok (record { wire = client.wire }) | err e ↦ err e ]),
      put_request reg client.wire w ch segment,
    )

-- `PendingResponse::try_receive`.
unfoldable pub try_receive :
    ℕ
    → PendingResponse
    → ServerRegistration
    → Option (Result PortError (Option (List ℕ)) × ServerRegistration)
try_receive response_size pending reg = get_elem? reg.clients pending.wire >>= λ w.
    fetch response_size w.response_channel reg.segment >>= λ (answer, ch, segment).
    some (answer, put_response reg pending.wire w ch segment)

-- `ActiveRequest` has the response channel of the client that asked.
pub record ActiveRequest : Type 0 where
  pub request : List ℕ
  pub wire : ℕ

-- What one client's answer means: `none` for `continue`.
abbrev pub outcome :
    ℕ → Result PortError (Option (List ℕ)) → Option (Result PortError (Option ActiveRequest))
outcome n (ok (some request)) = some (ok (some (record { request = request; wire = n })))
outcome n (ok none) = none
outcome n (err e) = some (err e)

-- The loop of `Server::receive` over the clients, from number `n` on.
unfoldable pub receive_from :
    ℕ
    → ℕ
    → List ClientWire
    → DataSegment
    → Option (Result PortError (Option ActiveRequest) × List ClientWire × DataSegment)
receive_from request_size n [] segment = some (ok none, [], segment)
receive_from request_size n (w ∷ ws) segment =
    fetch request_size w.request_channel segment >>= λ (answer, ch, segment').
    let w' = record w { request_channel = ch } in
    let others = receive_from request_size (n + 1) ws segment' in
    elim (outcome n answer) [
      | some result ↦ some (result, w' ∷ ws, segment')
      | none ↦ others >>= λ (result, ws', segment''). some (result, w' ∷ ws', segment'')
    ]

-- `Server::receive`.
unfoldable pub receive :
    ℕ → ServerRegistration → Option (Result PortError (Option ActiveRequest) × ServerRegistration)
unfolding receive_from
receive request_size reg =
    receive_from request_size 0 reg.clients reg.segment >>= λ (result, ws, segment).
    some (result, record reg { segment = segment; clients = ws })

-- `ActiveRequest::respond`.
unfoldable pub respond :
    List ℕ
    → ActiveRequest
    → ServerRegistration
    → Option (Result PortError (Unit {0}) × ServerRegistration)
respond response active reg = get_elem? reg.clients active.wire >>= λ w.
    post response w.response_channel reg.segment >>= λ (answer, ch, segment).
    some (answer, put_response reg active.wire w ch segment)
