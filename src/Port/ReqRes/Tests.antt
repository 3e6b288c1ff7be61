-- ===== src/Port/ReqRes/Tests.antt =====
-- A server with one client, at rest and with two requests under way, and instances of the theorems.
use entangle.Prelude.{
  ℕ, zero, suc, ◌+◌, ◌*◌, ◌^◌, ◌≤◌, ◌<◌, max, ◌≡◌, refl, true, some, [], ◌∷◌, arith, ltb, ◌==◌,
  if◌then◌else◌, ne→==, range_from, ok, err,
}
use entangle.Platform.SharedMemory
use entangle.Platform.SharedMemory.{SharedMemory, Answers}
use entangle.Lockfree.IndexSet
use entangle.Lockfree.IndexSet.{sentinel, UniqueIndexSet}
use entangle.Lockfree.SpscQueue
use entangle.Lockfree.SpscQueue.{SpscQueue}
use entangle.Lockfree.SpscQueue.Inv.{IsValid as IsValidQueue}
use entangle.Transport.Contracts.{queue_full}
use entangle.Transport.PointerOffset
use entangle.Transport.DataSegment.{align8}
use entangle.Transport.DataSegment.Header.{mapping}
use entangle.Transport.Channel
use entangle.Transport.Channel.{ZeroCopyChannel}
use entangle.Qos.{ReqResQos}
use entangle.Errors.{send as send_failed, service as service_failed, not_found}
use entangle.Port.ReqRes.{
  ClientWire, ServerRegistration, ReqResShared, create_server, create_client, send, receive,
  respond, try_receive,
}
use entangle.Port.ReqRes.Calls.{
  Traffic, owners, Holds, quiet, the_client, receive-Holds, send_full-Holds,
  send-receive-respond-try_receive,
}
use entangle.Port.ReqRes.Starting.{create_server-create_client, fresh}

-- `n` words in a queue of two.
abbrev queue : ℕ → ℕ → ℕ → SpscQueue
queue n first second = record {
  write_pos = n;
  read_pos = 0;
  capacity = 2;
  mask = 1;
  slots = first ∷ second ∷ [];
}

queue-IsValid : (n first second : ℕ) → n ≤ 2 → IsValidQueue (queue n first second)
unfolding SpscQueue.len
queue-IsValid n first second h = record {
  log = 1;
  log_small = omega arith;
  sized = refl;
  masked = refl;
  stored = refl;
  write_word = omega arith;
  read_word = omega arith;
  fits = omega arith;
}

abbrev channel : SpscQueue → ZeroCopyChannel
channel q = record {
  send_queue = q;
  return_queue = queue 0 0 0;
  state_byte = 1;
  sender_id = 1;
  receiver_id = 2;
}

abbrev wire : SpscQueue → ClientWire
wire q = record {
  client_id = 2;
  request_channel = channel q;
  response_channel = channel (queue 0 0 0);
}

abbrev registration : UniqueIndexSet → SpscQueue → ServerRegistration
registration s q = record {
  node_id = 1;
  segment = record {
    shm = record {
      memory = λ at. if at == 64 then 5 else 0;
      size = 88;
      name = "/srv";
      is_owner = true;
    };
    allocator = record { index_set = s; chunk_size = 8; segment_id = 0; base_offset = 64 };
    chunk_size = 8;
    chunk_count = 3;
  };
  clients = wire q ∷ [];
}

abbrev all_free : UniqueIndexSet
all_free = record { head = 0; next = 1 ∷ 2 ∷ sentinel ∷ []; capacity = 3; borrowed = 0 }

abbrev two_taken : UniqueIndexSet
two_taken = record {
  head = 2 * 2 ^ 32 + 2;
  next = 1 ∷ 2 ∷ sentinel ∷ [];
  capacity = 3;
  borrowed = 2;
}

abbrev at_rest : ServerRegistration
at_rest = registration all_free (queue 0 0 0)

abbrev busy : ServerRegistration
busy = registration two_taken (queue 2 64 72)

once_of : (f : ℕ → ℕ) → f 0 ≡ 1 → f 1 ≡ 1 → f 2 ≡ 1 → (i : ℕ) → i < 3 → f i ≡ 1
once_of f e₀ e₁ e₂ zero h = e₀
once_of f e₀ e₁ e₂ (suc zero) h = e₁
once_of f e₀ e₁ e₂ (suc (suc zero)) h = e₂
once_of f e₀ e₁ e₂ (suc (suc (suc i))) h = absurd (omega arith)

at_rest-Holds : Holds 2 3 at_rest (wire (queue 0 0 0)) (quiet (0 ∷ 1 ∷ 2 ∷ []) [])
unfolding IndexSet.extract_head SpscQueue.len Channel.state_of PointerOffset.new
at_rest-Holds = record {
  segment = record {
    pool = record {
      set = record {
        sized = refl;
        small = omega arith;
        chain = omega arith;
        distinct = omega arith;
        count = refl;
      };
      chunky = omega arith;
      segment = omega arith;
      fits = omega arith;
    };
    same_size = refl;
    based = refl;
    room = omega arith;
  };
  wired = refl;
  request_fits = omega arith;
  response_fits = omega arith;
  asks = record {
    channel = record {
      sending = queue-IsValid 0 0 0 (omega arith);
      returning = queue-IsValid 0 0 0 (omega arith);
    };
    alive = refl;
    sends = refl;
    written = tt;
  };
  answers = record {
    channel = record {
      sending = queue-IsValid 0 0 0 (omega arith);
      returning = queue-IsValid 0 0 0 (omega arith);
    };
    alive = refl;
    sends = refl;
    written = tt;
  };
  once = once_of (λ i. owners i (quiet (0 ∷ 1 ∷ 2 ∷ []) [])) refl refl refl;
  inside =
      λ i h. rw (ne→== 0 i (omega arith), ne→== 1 i (omega arith), ne→== 2 i (omega arith)) refl;
}

-- The queue of requests is full, and chunk 2 is free.
abbrev two_asked : Traffic
two_asked = record {
  free = 2 ∷ [];
  requests = 0 ∷ 1 ∷ [];
  responses = [];
  leaked = [];
  asked = (5 ∷ 0 ∷ []) ∷ (0 ∷ 0 ∷ []) ∷ [];
  answered = [];
}

busy-Holds : Holds 2 3 busy (wire (queue 2 64 72)) two_asked
unfolding IndexSet.extract_head SpscQueue.len Channel.state_of PointerOffset.new
busy-Holds = record {
  segment = record {
    pool = record {
      set = record {
        sized = refl;
        small = omega arith;
        chain = omega arith;
        distinct = omega arith;
        count = refl;
      };
      chunky = omega arith;
      segment = omega arith;
      fits = omega arith;
    };
    same_size = refl;
    based = refl;
    room = omega arith;
  };
  wired = refl;
  request_fits = omega arith;
  response_fits = omega arith;
  asks = record {
    channel = record {
      sending = queue-IsValid 2 64 72 (omega arith);
      returning = queue-IsValid 0 0 0 (omega arith);
    };
    alive = refl;
    sends = refl;
    written = (refl, (refl, tt));
  };
  answers = record {
    channel = record {
      sending = queue-IsValid 0 0 0 (omega arith);
      returning = queue-IsValid 0 0 0 (omega arith);
    };
    alive = refl;
    sends = refl;
    written = tt;
  };
  once = once_of (λ i. owners i two_asked) refl refl refl;
  inside =
      λ i h. rw (ne→== 0 i (omega arith), ne→== 1 i (omega arith), ne→== 2 i (omega arith)) refl;
}

send-receive-respond-try_receive_example :
    (r₁ r₂ r₃ r₄ : ServerRegistration) × (w' : ClientWire) × (send
        (7 ∷ 8 ∷ [])
        (the_client 2)
        at_rest
      ≡ some (ok (record { wire = 0 }), r₁))
    × (receive 2 r₁ ≡ some (ok (some (record { request = 7 ∷ 8 ∷ []; wire = 0 })), r₂))
    × (respond (9 ∷ 9 ∷ 9 ∷ []) (record { request = 7 ∷ 8 ∷ []; wire = 0 }) r₂ ≡ some (ok tt, r₃))
    × (try_receive 3 (record { wire = 0 }) r₃ ≡ some (ok (some (9 ∷ 9 ∷ 9 ∷ [])), r₄))
    × Holds 2 3 r₄ w' (quiet (0 ∷ 1 ∷ 2 ∷ []) [])
send-receive-respond-try_receive_example =
    send-receive-respond-try_receive 2 0 (1 ∷ 2 ∷ []) [] (7 ∷ 8 ∷ []) (9 ∷ 9 ∷ 9 ∷ []) at_rest-Holds
      (omega arith) (omega arith) refl refl

receive-Holds_example :
    (reg' : ServerRegistration) × (w' : ClientWire) × (receive 2 busy
      ≡ some (ok (some (record { request = 5 ∷ 0 ∷ []; wire = 0 })), reg'))
    × Holds 2 3 reg' w'
        (record two_asked { free = 0 ∷ 2 ∷ []; requests = 1 ∷ []; asked = (0 ∷ 0 ∷ []) ∷ [] })
    × (w'.response_channel ≡ channel (queue 0 0 0))
receive-Holds_example =
    receive-Holds two_asked 0 (1 ∷ []) (5 ∷ 0 ∷ []) ((0 ∷ 0 ∷ []) ∷ []) busy-Holds

send_full-Holds_example :
    (reg' : ServerRegistration) × (send (7 ∷ 8 ∷ []) (the_client 2) busy
      ≡ some (err (send_failed queue_full), reg'))
    × Holds 2 3 reg' (wire (queue 2 64 72)) (record two_asked { free = []; leaked = 2 ∷ [] })
send_full-Holds_example =
    send_full-Holds two_asked 2 2 [] (7 ∷ 8 ∷ []) busy-Holds (omega arith) refl

abbrev qos : ReqResQos
qos = record { max_clients = 8; max_servers = 1; max_pending_requests = 16 }

abbrev granting : Answers
granting = mapping 320 (λ at. 255)

abbrev granted : SharedMemory
granted = record {
  memory = λ at. if ltb at 320 then 0 else 255;
  size = 320;
  name = "/srv";
  is_owner = true;
}

granted-create :
    SharedMemory.create "srv" (64 + align8 (max (max 4 8) 8) * 32) granting ≡ ok granted
unfolding SharedMemory.create SharedMemory.normalize_name align8
granted-create = refl

create_server-create_client_example :
    (create_client 2 qos (fresh "sum") ≡ (err (service_failed (not_found "sum")), fresh "sum"))
    × (shared last : ReqResShared) × (reg : ServerRegistration) × (w : ClientWire) × (create_server
          "srv" 1 4 8 qos granting
          (fresh "sum")
        ≡ some (ok tt, shared))
    × (create_client 2 qos shared ≡ (ok (the_client 2), last))
    × (last.server ≡ some reg)
    × Holds 4 8 reg w (quiet (range_from 0 32) [])
unfolding align8
create_server-create_client_example =
    create_server-create_client "sum" "srv" 1 2 4 8 qos granting (omega arith) (omega arith)
      granted-create
