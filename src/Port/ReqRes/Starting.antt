-- ===== src/Port/ReqRes/Starting.antt =====
-- A server and its first client of a new service.
use entangle.Prelude.{
  ℕ, ◌+◌, ◌-◌, ◌*◌, ◌%◌, ◌^◌, ◌≤◌, ◌<◌, max, ◌≡◌, refl, ap, none, some, [], ◌∷◌, arith, range_from,
  count-range_from, ok, err,
}
use Prim.Native.String.{String}
use entangle.Platform.SharedMemory
use entangle.Platform.SharedMemory.{SharedMemory, Answers}
use entangle.Transport.DataSegment.{header_size, align8}
use entangle.Transport.DataSegment.Refine.{create-IsValid, align8_bounds}
use entangle.Transport.Channel
use entangle.Transport.Channel.{ZeroCopyChannel}
use entangle.Transport.Channel.Refine.{new-IsValid}
use entangle.Qos.{ReqResQos}
use entangle.Errors.{service as service_failed, not_found}
use entangle.Port.ReqRes.{
  ClientWire, ServerRegistration, ReqResShared, create_server, create_client,
}
use entangle.Port.ReqRes.Calls.{Holds, quiet, the_client}

-- A service without a server.
abbrev pub fresh : String → ReqResShared
fresh name = record { service_name = name; server = none }

abbrev pub chunk_bytes : ℕ → ℕ → ℕ
chunk_bytes request_size response_size = max (max request_size response_size) 8

abbrev pub chunks : ReqResQos → ℕ
chunks qos = max (qos.max_pending_requests * 2) 16

-- When the system grants the region, the pending requests are below 2^31 - 1 and the segment fits
-- 48 bits, a client of a service without a server is refused as not found and changes nothing;
-- creating the server and then a client succeeds and gives a server with one connected client
-- where nothing is on its way and every chunk is free.
pub create_server-create_client :
    (name seg_name : String) (server_id client_id m n : ℕ) (qos : ReqResQos) (os : Answers)
    {shm : SharedMemory}
    → qos.max_pending_requests < 2 ^ 31 - 1
    → header_size + align8 (chunk_bytes m n) * chunks qos ≤ 2 ^ 48
    → SharedMemory.create seg_name (header_size + align8 (chunk_bytes m n) * chunks qos) os ≡ ok shm
    → (create_client client_id qos (fresh name)
        ≡ (err (service_failed (not_found name)), fresh name))
      × (shared last : ReqResShared) × (reg : ServerRegistration) × (w : ClientWire)
      × (create_server seg_name server_id m n qos os (fresh name) ≡ some (ok tt, shared))
      × (create_client client_id qos shared ≡ (ok (the_client client_id), last))
      × (last.server ≡ some reg)
      × Holds m n reg w (quiet (range_from 0 (chunks qos)) [])
unfolding create_server create_client Channel.connect
create_server-create_client name seg_name server_id client_id m n qos os small fits granted =
    let (d, made, valid, chunk, cap) =
      create-IsValid seg_name (chunk_bytes m n) (chunks qos) 0 os (omega arith) (omega arith)
        (omega arith) (omega arith) fits granted in
    let (req_valid, _, req_view, _, _) =
      new-IsValid qos.max_pending_requests client_id server_id (omega arith) in
    let (res_valid, _, res_view, _, _) =
      new-IsValid qos.max_pending_requests server_id client_id (omega arith) in
    let w : ClientWire = record {
      client_id = client_id;
      request_channel = Channel.connect (Channel.new qos.max_pending_requests client_id server_id);
      response_channel = Channel.connect (Channel.new qos.max_pending_requests server_id client_id);
    } in
    let reg : ServerRegistration = record { node_id = server_id; segment = d; clients = w ∷ [] } in
    let word : max (qos.max_pending_requests * 2 % 2 ^ 64) 16 % 2 ^ 32 ≡ chunks qos = omega arith in
    (
      refl,
      record { service_name = name; server = some (record reg { clients = [] }) },
      record { service_name = name; server = some reg },
      reg,
      w,
      rw (word, made) refl,
      refl,
      refl,
      record {
        segment = valid;
        wired = refl;
        request_fits = omega (arith, (align8_bounds (chunk_bytes m n)).0, chunk);
        response_fits = omega (arith, (align8_bounds (chunk_bytes m n)).0, chunk);
        asks = record {
          channel = record { sending = req_valid.sending; returning = req_valid.returning };
          alive = ap (λ v. v.phase) req_view;
          sends = ap (λ v. v.sends) req_view;
          written = tt;
        };
        answers = record {
          channel = record { sending = res_valid.sending; returning = res_valid.returning };
          alive = ap (λ v. v.phase) res_view;
          sends = ap (λ v. v.sends) res_view;
          written = tt;
        };
        once = λ i lt.
            omega (arith, (count-range_from 0 (chunks qos) i).0 (omega arith) (omega (arith, cap)));
        inside = λ i ge. omega (arith, (count-range_from 0 (chunks qos) i).1 (omega (arith, cap)));
      },
    )
