-- ===== src/Port/ReqRes/Calls.antt =====
-- One client and one server: requests and responses arrive whole and in order, and every chunk is
-- accounted for.
use entangle.Prelude.{
  ℕ, ◌+◌, ◌≤◌, ◌<◌, ◌≡◌, refl, some, List, [], ◌∷◌, ◌++◌, arith, dec_lt, length, count,
  count-append, count_self, All-ne_of_count, ok, err,
}
use entangle.Transport.Contracts.{queue_full}
use entangle.Transport.DataSegment.Refine.{IsValid as IsValidSegment}
use entangle.Errors.{send as send_failed}
use entangle.Port.ReqRes.{
  ClientWire, ServerRegistration, Client, send, try_receive, receive, respond, write_bytes,
}
use entangle.Port.ReqRes.Lanes.{
  Carries, place, changed, Carries-apart, Carries-same, post-room, post-full, fetch-cons,
}

-- The chunks by owner, and the values on their way. The chunks of `leaked` have no owner.
pub record Traffic : Type 0 where
  pub free : List ℕ
  pub requests : List ℕ
  pub responses : List ℕ
  pub leaked : List ℕ
  pub asked : List (List ℕ)
  pub answered : List (List ℕ)

abbrev pub owners : ℕ → Traffic → ℕ
owners i o = count i o.free + count i o.requests + count i o.responses + count i o.leaked

abbrev pub capacity : ServerRegistration → ℕ
capacity reg = reg.segment.allocator.index_set.capacity

pub record Holds (request_size response_size : ℕ) (reg : ServerRegistration) (w : ClientWire)
    (o : Traffic) : Type 0 where
  pub segment : IsValidSegment reg.segment o.free
  pub wired : reg.clients ≡ w ∷ []
  pub request_fits : request_size ≤ reg.segment.chunk_size
  pub response_fits : response_size ≤ reg.segment.chunk_size
  pub asks : Carries reg.segment request_size w.request_channel o.requests o.asked
  pub answers : Carries reg.segment response_size w.response_channel o.responses o.answered
  pub once : (i : ℕ) → i < capacity reg → owners i o ≡ 1
  pub inside : (i : ℕ) → capacity reg ≤ i → owners i o ≡ 0

abbrev pub the_client : ℕ → Client
the_client node = record { node_id = node; wire = 0 }

module _ {m n : ℕ} {reg : ServerRegistration} {w : ClientWire} {o : Traffic}
    (h : Holds m n reg w o) where
  owned-lt : (i : ℕ) → 0 < owners i o → i < capacity reg
  owned-lt i pos = elim (dec_lt i (capacity reg)) [
    | yes lt ↦ lt
    | no ge ↦ absurd (omega (arith, h.inside i (omega arith)))
  ]

  at_most : (i : ℕ) → owners i o ≤ 1
  at_most i = elim (dec_lt i (capacity reg)) [
    | yes lt ↦ omega (arith, h.once i lt)
    | no ge ↦ omega (arith, h.inside i (omega arith))
  ]

-- A request is on its way where a chunk is free and the queue of requests has room.
pub send-Holds :
    {m n : ℕ} {reg : ServerRegistration} {w : ClientWire} (o : Traffic) (node k : ℕ)
    (rest v : List ℕ)
    → Holds m n reg w (record o { free = k ∷ rest })
    → length o.requests < w.request_channel.send_queue.capacity
    → length v ≡ m
    → (reg' : ServerRegistration) × (w' : ClientWire) × (send v (the_client node) reg
        ≡ some (ok (record { wire = 0 }), reg'))
      × Holds m n reg' w'
          (record o { free = rest; requests = o.requests ++ (k ∷ []); asked = o.asked ++ (v ∷ []) })
      × (w'.response_channel ≡ w.response_channel)
      × (w'.request_channel.send_queue.capacity ≡ w.request_channel.send_queue.capacity)
unfolding send
send-Holds {m} {n} {reg} {w} o node k rest v h room sized =
    let one = at_most h k in
    let here = count_self k rest in
    let (s, c, posted, left, lane) =
      post-room k rest v h.segment h.asks (owned-lt h k (omega arith)) room sized h.request_fits
        (All-ne_of_count k o.requests (omega arith)) in
    (
      record reg {
        segment =
            changed (reg.segment) s (write_bytes (place (reg.segment) k) v reg.segment.shm.memory);
        clients = record w { request_channel = c } ∷ [];
      },
      record w { request_channel = c },
      rw (h.wired, posted) refl,
      record {
        segment = left.segment;
        wired = refl;
        request_fits = h.request_fits;
        response_fits = h.response_fits;
        asks = lane;
        answers =
            Carries-apart s k v h.response_fits (omega (arith, h.request_fits))
              (All-ne_of_count k o.responses (omega arith)) h.answers;
        once = λ i lt. omega (
          arith,
          h.once i (omega (arith, left.same_capacity)),
          count-append i o.requests (k ∷ []),
        );
        inside = λ i ge. omega (
          arith,
          h.inside i (omega (arith, left.same_capacity)),
          count-append i o.requests (k ∷ []),
        );
      },
      refl,
      left.same_room,
    )

-- On a server with one connected client (Holds), a request of the request's size that is sent
-- when a chunk is free but the queue of requests is full fails as queue full, and the chunk that
-- was taken for it is neither free nor under way any more.
pub send_full-Holds :
    {m n : ℕ} {reg : ServerRegistration} {w : ClientWire} (o : Traffic) (node k : ℕ)
    (rest v : List ℕ)
    → Holds m n reg w (record o { free = k ∷ rest })
    → w.request_channel.send_queue.capacity ≤ length o.requests
    → length v ≡ m
    → (reg' : ServerRegistration) × (send v (the_client node) reg
        ≡ some (err (send_failed queue_full), reg'))
      × Holds m n reg' w (record o { free = rest; leaked = k ∷ o.leaked })
unfolding send
send_full-Holds {m} {n} {reg} {w} o node k rest v h full sized =
    let one = at_most h k in
    let here = count_self k rest in
    let (s, posted, left) = post-full k rest v h.segment h.asks (owned-lt h k (omega arith)) full in
    (
      record reg {
        segment =
            changed (reg.segment) s (write_bytes (place (reg.segment) k) v reg.segment.shm.memory);
        clients = w ∷ [];
      },
      rw (h.wired, posted) refl,
      record {
        segment = left.segment;
        wired = refl;
        request_fits = h.request_fits;
        response_fits = h.response_fits;
        asks =
            Carries-apart s k v h.request_fits (omega (arith, h.request_fits))
              (All-ne_of_count k o.requests (omega arith)) h.asks;
        answers =
            Carries-apart s k v h.response_fits (omega (arith, h.request_fits))
              (All-ne_of_count k o.responses (omega arith)) h.answers;
        once = λ i lt. omega (arith, h.once i (omega (arith, left.same_capacity)));
        inside = λ i ge. omega (arith, h.inside i (omega (arith, left.same_capacity)));
      },
    )

-- On a server with one connected client where each chunk is free, under way or leaked, exactly
-- once (Holds), and a request is under way, the server receives the oldest request, whole, its
-- chunk is free again, and the other requests and the responses stay in order.
pub receive-Holds :
    {m n : ℕ} {reg : ServerRegistration} {w : ClientWire} (o : Traffic) (i : ℕ) (is v : List ℕ)
    (vs : List (List ℕ))
    → Holds m n reg w (record o { requests = i ∷ is; asked = v ∷ vs })
    → (reg' : ServerRegistration) × (w' : ClientWire) × (receive m reg
        ≡ some (ok (some (record { request = v; wire = 0 })), reg'))
      × Holds m n reg' w' (record o { free = i ∷ o.free; requests = is; asked = vs })
      × (w'.response_channel ≡ w.response_channel)
unfolding receive
receive-Holds {m} {n} {reg} {w} o i is v vs h =
    let one = at_most h i in
    let here = count_self i is in
    let (s, c, got, left, lane) =
      fetch-cons o.free h.segment h.asks (owned-lt h i (omega arith))
        (All-ne_of_count i o.free (omega arith)) in
    (
      record reg {
        segment = changed (reg.segment) s reg.segment.shm.memory;
        clients = record w { request_channel = c } ∷ [];
      },
      record w { request_channel = c },
      rw (h.wired, got) refl,
      record {
        segment = left.segment;
        wired = refl;
        request_fits = h.request_fits;
        response_fits = h.response_fits;
        asks = lane;
        answers = Carries-same s h.answers;
        once = λ j lt. omega (arith, h.once j (omega (arith, left.same_capacity)));
        inside = λ j ge. omega (arith, h.inside j (omega (arith, left.same_capacity)));
      },
      refl,
    )

-- A response is on its way where a chunk is free and the queue of responses has room.
pub respond-Holds :
    {m n : ℕ} {reg : ServerRegistration} {w : ClientWire} (o : Traffic) (k : ℕ)
    (rest request v : List ℕ)
    → Holds m n reg w (record o { free = k ∷ rest })
    → length o.responses < w.response_channel.send_queue.capacity
    → length v ≡ n
    → (reg' : ServerRegistration) × (w' : ClientWire) × (respond v
          (record { request = request; wire = 0 })
          reg
        ≡ some (ok tt, reg'))
      × Holds m n reg' w' (record o {
        free = rest;
        responses = o.responses ++ (k ∷ []);
        answered = o.answered ++ (v ∷ []);
      })
unfolding respond
respond-Holds {m} {n} {reg} {w} o k rest request v h room sized =
    let one = at_most h k in
    let here = count_self k rest in
    let (s, c, posted, left, lane) =
      post-room k rest v h.segment h.answers (owned-lt h k (omega arith)) room sized h.response_fits
        (All-ne_of_count k o.responses (omega arith)) in
    (
      record reg {
        segment =
            changed (reg.segment) s (write_bytes (place (reg.segment) k) v reg.segment.shm.memory);
        clients = record w { response_channel = c } ∷ [];
      },
      record w { response_channel = c },
      rw (h.wired, posted) refl,
      record {
        segment = left.segment;
        wired = refl;
        request_fits = h.request_fits;
        response_fits = h.response_fits;
        asks =
            Carries-apart s k v h.request_fits (omega (arith, h.response_fits))
              (All-ne_of_count k o.requests (omega arith)) h.asks;
        answers = lane;
        once = λ i lt. omega (
          arith,
          h.once i (omega (arith, left.same_capacity)),
          count-append i o.responses (k ∷ []),
        );
        inside = λ i ge. omega (
          arith,
          h.inside i (omega (arith, left.same_capacity)),
          count-append i o.responses (k ∷ []),
        );
      },
    )

-- The client gets the oldest response, whole, and its chunk is free again.
pub try_receive-Holds :
    {m n : ℕ} {reg : ServerRegistration} {w : ClientWire} (o : Traffic) (i : ℕ) (is v : List ℕ)
    (vs : List (List ℕ))
    → Holds m n reg w (record o { responses = i ∷ is; answered = v ∷ vs })
    → (reg' : ServerRegistration) × (w' : ClientWire) × (try_receive n (record { wire = 0 }) reg
        ≡ some (ok (some v), reg'))
      × Holds m n reg' w' (record o { free = i ∷ o.free; responses = is; answered = vs })
unfolding try_receive
try_receive-Holds {m} {n} {reg} {w} o i is v vs h =
    let one = at_most h i in
    let here = count_self i is in
    let (s, c, got, left, lane) =
      fetch-cons o.free h.segment h.answers (owned-lt h i (omega arith))
        (All-ne_of_count i o.free (omega arith)) in
    (
      record reg {
        segment = changed (reg.segment) s reg.segment.shm.memory;
        clients = record w { response_channel = c } ∷ [];
      },
      record w { response_channel = c },
      rw (h.wired, got) refl,
      record {
        segment = left.segment;
        wired = refl;
        request_fits = h.request_fits;
        response_fits = h.response_fits;
        asks = Carries-same s h.asks;
        answers = lane;
        once = λ j lt. omega (arith, h.once j (omega (arith, left.same_capacity)));
        inside = λ j ge. omega (arith, h.inside j (omega (arith, left.same_capacity)));
      },
    )

-- Nothing on its way.
abbrev pub quiet : List ℕ → List ℕ → Traffic
quiet free leaked = record {
  free = free;
  requests = [];
  responses = [];
  leaked = leaked;
  asked = [];
  answered = [];
}

-- On a server with one connected client where nothing is on its way and a chunk is free (Holds),
-- with room in both queues, a request of the request's size that the client sends is received by
-- the server as it is, the response of the response's size is received by the client as it is,
-- and afterwards the same chunks are free.
pub send-receive-respond-try_receive :
    {m n : ℕ} {reg : ServerRegistration} {w : ClientWire} (node k : ℕ)
    (rest leaked request response : List ℕ)
    → Holds m n reg w (quiet (k ∷ rest) leaked)
    → 0 < w.request_channel.send_queue.capacity
    → 0 < w.response_channel.send_queue.capacity
    → length request ≡ m
    → length response ≡ n
    → (r₁ r₂ r₃ r₄ : ServerRegistration) × (w' : ClientWire) × (send request (the_client node) reg
        ≡ some (ok (record { wire = 0 }), r₁))
      × (receive m r₁ ≡ some (ok (some (record { request = request; wire = 0 })), r₂))
      × (respond response (record { request = request; wire = 0 }) r₂ ≡ some (ok tt, r₃))
      × (try_receive n (record { wire = 0 }) r₃ ≡ some (ok (some response), r₄))
      × Holds m n r₄ w' (quiet (k ∷ rest) leaked)
send-receive-respond-try_receive {m} {n} node k rest leaked request response h room room' sized
      sized' =
    let (r₁, w₁, sent, h₁, same₁, _) =
      send-Holds (quiet (k ∷ rest) leaked) node k rest request h room sized in
    let (r₂, w₂, got, h₂, same₂) = receive-Holds (quiet rest leaked) k [] request [] h₁ in
    let (r₃, w₃, answered, h₃) =
      respond-Holds (quiet (k ∷ rest) leaked) k rest request response h₂ (rw (same₂, same₁) room')
        sized' in
    let (r₄, w₄, arrived, h₄) = try_receive-Holds (quiet rest leaked) k [] response [] h₃ in
    (r₁, r₂, r₃, r₄, w₄, sent, got, answered, arrived, h₄)
