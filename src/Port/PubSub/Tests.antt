-- ===== src/Port/PubSub/Tests.antt =====
-- A publisher with five chunks, one with each owner, and instances of the theorems on ownership.
use entangle.Prelude.{
  ℕ, zero, suc, ◌+◌, ◌*◌, ◌^◌, ◌≤◌, ◌<◌, ◌≡◌, refl, true, some, [], ◌∷◌, arith, ne→==, ok, err,
}
use entangle.Lockfree.IndexSet
use entangle.Lockfree.IndexSet.{sentinel}
use entangle.Lockfree.SpscQueue
use entangle.Lockfree.SpscQueue.{SpscQueue}
use entangle.Lockfree.SpscQueue.Inv.{IsValid as IsValidQueue}
use entangle.Transport.Contracts.{exceeds_max_loans, out_of_memory}
use entangle.Transport.PointerOffset
use entangle.Transport.PointerOffset.{PointerOffset, raw}
use entangle.Transport.Channel
use entangle.Transport.Channel.{returned, ZeroCopyChannel}
use entangle.Errors.{loan as loan_failed}
use entangle.Port.Publisher.{Publisher, loan, send, drop_sample_mut, reclaim, zero_bytes}
use entangle.Port.Subscriber.{receive, drop_sample}
use entangle.Port.PubSub.{Owners, owners, chunk_at, lent, delivered, IsOwned}
use entangle.Port.PubSub.Lending.{loan-IsOwned, loan_refused, send-IsOwned, drop_sample_mut-IsOwned}
use entangle.Port.PubSub.Receiving.{receive-IsOwned, drop_sample-IsOwned, listener}
use entangle.Port.PubSub.Reclaiming.{reclaim-IsOwned}

abbrev pub queue : ℕ → SpscQueue
queue word = record {
  write_pos = 1;
  read_pos = 0;
  capacity = 8;
  mask = 7;
  slots = word ∷ 0 ∷ 0 ∷ 0 ∷ 0 ∷ 0 ∷ 0 ∷ 0 ∷ [];
}

queue-IsValid : (word : ℕ) → IsValidQueue (queue word)
unfolding SpscQueue.len
queue-IsValid word = record {
  log = 3;
  log_small = omega arith;
  sized = refl;
  masked = refl;
  stored = refl;
  write_word = omega arith;
  read_word = omega arith;
  fits = omega arith;
}

abbrev pub channel : ZeroCopyChannel
channel = record {
  send_queue = queue 72;
  return_queue = queue 96;
  state_byte = 1;
  sender_id = 1;
  receiver_id = 2;
}

abbrev pub publisher : Publisher
publisher = record {
  node_id = 1;
  payload_size = 8;
  segment = record {
    shm = record { memory = λ at. 0; size = 104; name = "/pub"; is_owner = true };
    allocator = record {
      index_set = record {
        head = 3 * 2 ^ 32 + 4;
        next = 1 ∷ 2 ∷ 3 ∷ sentinel ∷ sentinel ∷ [];
        capacity = 5;
        borrowed = 4;
      };
      chunk_size = 8;
      segment_id = 0;
      base_offset = 64;
    };
    chunk_size = 8;
    chunk_count = 5;
  };
  channels = channel ∷ [];
  max_loaned = 6;
  active_loans = 4;
}

-- Chunk 0 is loaned, 1 sent, 2 received, 3 free and 4 returned.
abbrev pub owned : Owners
owned = record {
  free = 3 ∷ [];
  loaned = 0 ∷ [];
  sending = 1 ∷ [];
  held = 2 ∷ [];
  returning = 4 ∷ [];
}

pub owned-IsOwned : IsOwned publisher channel owned
unfolding IndexSet.extract_head SpscQueue.len Channel.state_of PointerOffset.new
owned-IsOwned = record {
  segment = record {
    pool = record {
      set = record {
        sized = refl;
        small = omega arith;
        chain = omega arith;
        distinct = omega arith;
        count = refl;
      };
      chunky = omega arith;
      segment = omega arith;
      fits = omega arith;
    };
    same_size = refl;
    based = refl;
    room = omega arith;
  };
  payload = omega arith;
  channel = record { sending = queue-IsValid 72; returning = queue-IsValid 96 };
  wired = refl;
  alive = refl;
  sends = refl;
  returns = refl;
  send_room = omega arith;
  return_room = omega arith;
  once = once;
  inside = inside;
  active = refl;
}
  where
    once : (i : ℕ) → i < 5 → owners i owned ≡ 1
    once zero h = refl
    once (suc zero) h = refl
    once (suc (suc zero)) h = refl
    once (suc (suc (suc zero))) h = refl
    once (suc (suc (suc (suc zero)))) h = refl
    once (suc (suc (suc (suc (suc i))))) h = absurd (omega arith)

    inside : (i : ℕ) → 5 ≤ i → owners i owned ≡ 0
    inside i h =
        rw
          (
            ne→== 0 i (omega arith),
            ne→== 1 i (omega arith),
            ne→== 2 i (omega arith),
            ne→== 3 i (omega arith),
            ne→== 4 i (omega arith),
          )
          refl

loan-IsOwned_example :
    (q : Publisher) × (loan publisher ≡ some (ok (lent publisher 3), q))
    × IsOwned q channel (record owned { free = []; loaned = 3 ∷ 0 ∷ [] })
    × (q.max_loaned ≡ 6)
    × (q.segment.shm.memory ≡ zero_bytes 88 8 (λ at. 0))
    × ((j : ℕ) → chunk_at q j ≡ chunk_at publisher j)
loan-IsOwned_example = loan-IsOwned {p = publisher} owned 3 [] owned-IsOwned (omega arith)

send-IsOwned_example :
    (q : Publisher) × (c : ZeroCopyChannel) × (send (lent publisher 0) publisher ≡ some (ok tt, q))
    × IsOwned q c (record owned { loaned = []; sending = 1 ∷ 0 ∷ [] })
    × (q ≡ record publisher { channels = c ∷ [] })
send-IsOwned_example = send-IsOwned {p = publisher} owned [] [] 0 owned-IsOwned

drop_sample_mut-IsOwned_instance :
    (q : Publisher) × (drop_sample_mut (lent publisher 0) publisher ≡ some q)
    × IsOwned q channel (record owned { free = 0 ∷ 3 ∷ []; loaned = [] })
    × ((j : ℕ) → chunk_at q j ≡ chunk_at publisher j)
drop_sample_mut-IsOwned_instance =
    drop_sample_mut-IsOwned {p = publisher} owned [] [] 0 owned-IsOwned

receive-IsOwned_example :
    (q : Publisher) × (c : ZeroCopyChannel) × (receive (listener 2) (publisher ∷ [])
      ≡ some (ok (some (delivered publisher 1)), q ∷ []))
    × IsOwned q c (record owned { sending = []; held = 1 ∷ 2 ∷ [] })
    × (q ≡ record publisher { channels = c ∷ [] })
receive-IsOwned_example = receive-IsOwned {p = publisher} owned 1 2 [] owned-IsOwned

drop_sample-IsOwned_instance :
    (q : Publisher) × (c : ZeroCopyChannel) × (drop_sample 0
        (delivered publisher 2)
        (publisher ∷ [])
      ≡ some (returned, q ∷ []))
    × IsOwned q c (record owned { held = []; returning = 4 ∷ 2 ∷ [] })
    × (q ≡ record publisher { channels = c ∷ [] })
drop_sample-IsOwned_instance = drop_sample-IsOwned {p = publisher} owned [] [] 2 0 owned-IsOwned

reclaim-IsOwned_example :
    (q : Publisher) × (c : ZeroCopyChannel) × (reclaim publisher ≡ some q)
    × IsOwned q c (record owned { free = 4 ∷ 3 ∷ []; returning = [] })
    × ((j : ℕ) → chunk_at q j ≡ chunk_at publisher j)
reclaim-IsOwned_example = reclaim-IsOwned {p = publisher} owned owned-IsOwned

-- The publisher after a loan: no chunk is free.
abbrev lending : Publisher
lending = record publisher {
  segment = record (publisher.segment) {
    allocator = record (publisher.segment.allocator) {
      index_set = record {
        head = sentinel * 2 ^ 32 + 5;
        next = 1 ∷ 2 ∷ 3 ∷ sentinel ∷ sentinel ∷ [];
        capacity = 5;
        borrowed = 5;
      };
    };
  };
  active_loans = 5;
}

lending-IsOwned : IsOwned lending channel (record owned { free = []; loaned = 3 ∷ 0 ∷ [] })
unfolding IndexSet.extract_head
lending-IsOwned = record {
  segment = record {
    pool = record {
      set = record {
        sized = refl;
        small = omega arith;
        chain = omega arith;
        distinct = tt;
        count = refl;
      };
      chunky = omega arith;
      segment = omega arith;
      fits = omega arith;
    };
    same_size = refl;
    based = refl;
    room = omega arith;
  };
  payload = omega arith;
  channel = owned-IsOwned.channel;
  wired = refl;
  alive = owned-IsOwned.alive;
  sends = owned-IsOwned.sends;
  returns = owned-IsOwned.returns;
  send_room = omega arith;
  return_room = omega arith;
  once = λ i h. omega (arith, owned-IsOwned.once i h);
  inside = λ i h. omega (arith, owned-IsOwned.inside i h);
  active = refl;
}

loan_refused_example :
    (6 ≤ 5 → loan lending ≡ some (err (loan_failed (exceeds_max_loans 6)), lending))
    × (5 < 6
        → (q : Publisher) × (loan lending ≡ some (err (loan_failed out_of_memory), q))
          × IsOwned q channel (record owned { free = []; loaned = 3 ∷ 0 ∷ [] })
          × ((j : ℕ) → chunk_at q j ≡ chunk_at lending j))
loan_refused_example =
    loan_refused {p = lending} (record owned { loaned = 3 ∷ 0 ∷ [] }) lending-IsOwned
