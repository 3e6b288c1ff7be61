-- ===== src/Transport/Channel/Known.antt =====
-- The channel operations where the queues' contents are known, with what each leaves alone.
use entangle.Prelude.{Bool, ℕ, ◌<◌, ◌≡◌, refl, none, some, List, [], ◌∷◌, ◌++◌, length, ok, err}
use entangle.Lockfree.SpscQueue.Inv.{contents}
use entangle.Lockfree.SpscQueue.Refine.{push-append, pop-nil, pop-cons}
use entangle.Transport.Contracts.{connected, empty}
use entangle.Transport.PointerOffset.{PointerOffset, raw, from_raw}
use entangle.Transport.Channel.{
  ZeroCopyChannel, state, send, receive, returned, return_offset, reclaim,
}
use entangle.Transport.Channel.Refine.{IsValid, return_offset_ends}

-- A channel after an operation: valid, in the same state, with queues of the same capacities.
pub record Follows (ch c : ZeroCopyChannel) : Type 0 where
  pub valid : IsValid c
  pub same_state : state c ≡ state ch
  pub same_send : c.send_queue.capacity ≡ ch.send_queue.capacity
  pub same_return : c.return_queue.capacity ≡ ch.return_queue.capacity

pub send-append :
    {ch : ZeroCopyChannel} (offset : PointerOffset)
    → IsValid ch
    → state ch ≡ connected
    → length (contents ch.send_queue) < ch.send_queue.capacity
    → (c : ZeroCopyChannel) × (send offset ch ≡ some (ok tt, c))
      × Follows ch c
      × (contents c.send_queue ≡ contents ch.send_queue ++ (raw offset ∷ []))
      × (contents c.return_queue ≡ contents ch.return_queue)
unfolding send
send-append {ch} offset v alive room =
    let (q, pushed, valid, held, cap) = push-append (raw offset) v.sending room in
    (
      record ch { send_queue = q },
      rw (alive, pushed) refl,
      record {
        valid = record { sending = valid; returning = v.returning };
        same_state = refl;
        same_send = cap;
        same_return = refl;
      },
      held,
      refl,
    )

pub receive-cons :
    {ch : ZeroCopyChannel} {w : ℕ} {rest : List ℕ}
    → IsValid ch
    → state ch ≡ connected
    → contents ch.send_queue ≡ w ∷ rest
    → (c : ZeroCopyChannel) × (receive ch ≡ some (ok (from_raw w), c))
      × Follows ch c
      × (contents c.send_queue ≡ rest)
      × (contents c.return_queue ≡ contents ch.return_queue)
unfolding receive
receive-cons {ch} v alive e =
    let (q, popped, valid, held, cap) = pop-cons v.sending e in
    (
      record ch { send_queue = q },
      rw (alive, popped) refl,
      record {
        valid = record { sending = valid; returning = v.returning };
        same_state = refl;
        same_send = cap;
        same_return = refl;
      },
      held,
      refl,
    )

pub receive-nil :
    {ch : ZeroCopyChannel}
    → IsValid ch
    → state ch ≡ connected
    → contents ch.send_queue ≡ []
    → (c : ZeroCopyChannel) × (receive ch ≡ some (err empty, c))
      × Follows ch c
      × (contents c.send_queue ≡ [])
      × (contents c.return_queue ≡ contents ch.return_queue)
unfolding receive
receive-nil {ch} v alive e =
    let (q, popped, valid, held, cap) = pop-nil v.sending e in
    (
      record ch { send_queue = q },
      rw (alive, popped) refl,
      record {
        valid = record { sending = valid; returning = v.returning };
        same_state = refl;
        same_send = cap;
        same_return = refl;
      },
      held,
      refl,
    )

pub return_offset-append :
    {ch : ZeroCopyChannel} (turns : List Bool) (offset : PointerOffset)
    → IsValid ch
    → length (contents ch.return_queue) < ch.return_queue.capacity
    → (c : ZeroCopyChannel) × (return_offset turns offset ch ≡ some (returned, c))
      × Follows ch c
      × (contents c.send_queue ≡ contents ch.send_queue)
      × (contents c.return_queue ≡ contents ch.return_queue ++ (raw offset ∷ []))
unfolding return_offset
return_offset-append {ch} turns offset v room =
    let (q, pushed, valid, held, cap) = push-append (raw offset) v.returning room in
    (
      record ch { return_queue = q },
      return_offset_ends ch turns offset pushed,
      record {
        valid = record { sending = v.sending; returning = valid };
        same_state = refl;
        same_send = refl;
        same_return = cap;
      },
      refl,
      held,
    )

pub reclaim-cons :
    {ch : ZeroCopyChannel} {w : ℕ} {rest : List ℕ}
    → IsValid ch
    → contents ch.return_queue ≡ w ∷ rest
    → (c : ZeroCopyChannel) × (reclaim ch ≡ some (some (from_raw w), c))
      × Follows ch c
      × (contents c.send_queue ≡ contents ch.send_queue)
      × (contents c.return_queue ≡ rest)
unfolding reclaim
reclaim-cons {ch} v e =
    let (q, popped, valid, held, cap) = pop-cons v.returning e in
    (
      record ch { return_queue = q },
      rw popped refl,
      record {
        valid = record { sending = v.sending; returning = valid };
        same_state = refl;
        same_send = refl;
        same_return = cap;
      },
      refl,
      held,
    )

pub reclaim-nil :
    {ch : ZeroCopyChannel}
    → IsValid ch
    → contents ch.return_queue ≡ []
    → (c : ZeroCopyChannel) × (reclaim ch ≡ some (none, c))
      × Follows ch c
      × (contents c.send_queue ≡ contents ch.send_queue)
      × (contents c.return_queue ≡ [])
unfolding reclaim
reclaim-nil {ch} v e =
    let (q, popped, valid, held, cap) = pop-nil v.returning e in
    (
      record ch { return_queue = q },
      rw popped refl,
      record {
        valid = record { sending = v.sending; returning = valid };
        same_state = refl;
        same_send = refl;
        same_return = cap;
      },
      refl,
      held,
    )
