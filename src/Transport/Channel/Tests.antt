-- ===== src/Transport/Channel/Tests.antt =====
-- Runs of the channel, after the unit tests of channel.rs, and instances of its theorems.
use entangle.Prelude.{
  replicate, ◌++◌, List, true, false, ℕ, ◌≤◌, ◌≡◌, refl, false, some, List, [], ◌∷◌, arith, ok, err,
}
use entangle.Lockfree.SpscQueue
use entangle.Lockfree.SpscQueue.{SpscQueue}
use entangle.Lockfree.SpscQueue.Inv.{IsValid as IsValidQueue}
use entangle.Transport.Contracts.{broken}
use entangle.Transport.PointerOffset.{from_raw}
use entangle.Transport.Channel.{
  ZeroCopyChannel, disconnect, send, receive, returned, spinning, return_offset, reclaim, state_of,
}
use entangle.Transport.Channel.Refine.{
  IsValid, view, send_view, receive_view, reclaim_view, send-refines, receive-refines,
  reclaim-refines, return_offset-reclaim,
}

-- A queue of capacity 2 with the words `xs` stored from 0 on, `n` of them live.
abbrev queue : List ℕ → ℕ → SpscQueue
queue xs n = record { write_pos = n; read_pos = 0; capacity = 2; mask = 1; slots = xs }

queue-IsValid : (a b n : ℕ) → n ≤ 2 → IsValidQueue (queue (a ∷ b ∷ []) n)
unfolding SpscQueue.len
queue-IsValid a b n h = record {
  log = 1;
  log_small = omega arith;
  sized = refl;
  masked = refl;
  stored = refl;
  write_word = omega arith;
  read_word = omega arith;
  fits = omega arith;
}

-- One offset on its way, two coming back.
abbrev busy : ZeroCopyChannel
busy = record {
  send_queue = queue (5 ∷ 0 ∷ []) 1;
  return_queue = queue (7 ∷ 8 ∷ []) 2;
  state_byte = 1;
  sender_id = 1;
  receiver_id = 2;
}

busy-IsValid : IsValid busy
busy-IsValid = record {
  sending = queue-IsValid 5 0 1 (omega arith);
  returning = queue-IsValid 7 8 2 (omega arith);
}

send-disconnected : send (from_raw 9) (disconnect busy) ≡ some (err broken, disconnect busy)
unfolding send disconnect state_of
send-disconnected = refl

-- A disconnected channel still hands out what was sent before.
receive-disconnected :
    receive (disconnect busy)
    ≡ some (
      ok (from_raw 5),
      record busy { state_byte = 2; send_queue = record busy.send_queue { read_pos = 1 } },
    )
unfolding receive disconnect state_of SpscQueue.is_empty SpscQueue.pop
receive-disconnected = refl

send-refines_instance :
    (c : ZeroCopyChannel) × (send (from_raw 9) busy ≡ some ((send_view 2 9 (view busy)).0, c))
    × (view c ≡ (send_view 2 9 (view busy)).1)
    × IsValid c
    × (c.return_queue ≡ busy.return_queue)
send-refines_instance = send-refines {ch = busy} (from_raw 9) busy-IsValid

receive-refines_instance :
    (c : ZeroCopyChannel) × (receive busy ≡ some ((receive_view (view busy)).0, c))
    × (view c ≡ (receive_view (view busy)).1)
    × IsValid c
receive-refines_instance = receive-refines {ch = busy} busy-IsValid

reclaim-refines_instance :
    (c : ZeroCopyChannel) × (reclaim busy ≡ some ((reclaim_view (view busy)).0, c))
    × (view c ≡ (reclaim_view (view busy)).1)
    × IsValid c
reclaim-refines_instance = reclaim-refines {ch = busy} busy-IsValid

-- The sender reclaims after three turns.
return_offset-reclaim_example :
    (c : ZeroCopyChannel) × (return_offset (replicate 3 false) (from_raw 9) busy
      ≡ some (spinning, busy))
    × (return_offset (replicate 3 false ++ (true ∷ [])) (from_raw 9) busy ≡ some (returned, c))
    × (view c ≡ record (view busy) { returns = 8 ∷ 9 ∷ [] })
    × IsValid c
unfolding SpscQueue.len
return_offset-reclaim_example =
    return_offset-reclaim {ch = busy} 3 [] (from_raw 9) 7 (8 ∷ []) busy-IsValid refl (omega arith)
