-- ===== src/Transport/Channel/Refine.antt =====
-- A channel against two bounded queues of words.
use mathlib.Core.List.{append-nil}
use entangle.Prelude.{
  replicate, subst, ℕ, zero, suc, ◌^◌, ◌≤◌, ◌<◌, ◌≡◌, refl, sym, ap, ◌∙◌, inl, inr, Bool, true,
  false, ◌&&◌, Option, none, some, List, [], ◌∷◌, ◌++◌, arith, leb, if◌then◌else◌, Bool-cases,
  length, Result, ok, err, ◌>>=◌,
}
use entangle.Lockfree.Fifo
use entangle.Lockfree.SpscQueue
use entangle.Lockfree.SpscQueue.{SpscQueue}
use entangle.Lockfree.SpscQueue.Inv.{IsValid as IsValidQueue, contents}
use entangle.Lockfree.SpscQueue.Capacity.{new-IsValid as queue_new}
use entangle.Lockfree.SpscQueue.Refine.{
  push-refines, push-append, push-full, pop-nil, pop-cons, is_empty_iff, is_empty-cons,
  length-contents,
}
use entangle.Transport.Contracts.{
  ChannelState, creating, connected, SendError, broken, queue_full, ReceiveError, empty,
  connection_broken,
}
use entangle.Transport.PointerOffset.{PointerOffset, raw, from_raw}
use entangle.Transport.Channel.{
  ZeroCopyChannel, new, connect, state, is_disconnected, state_of, send, sent, receive, returned,
  spinning, return_offset, reclaim,
}

and-false : (b : Bool) → (b && false) ≡ false
and-false true = refl
and-false false = refl

pub record IsValid (ch : ZeroCopyChannel) : Type 0 where
  pub sending : IsValidQueue ch.send_queue
  pub returning : IsValidQueue ch.return_queue

-- What a channel holds: its state, the words on their way and the words coming back.
pub record View : Type 0 where
  pub phase : ChannelState
  pub sends : List ℕ
  pub returns : List ℕ

abbrev pub view : ZeroCopyChannel → View
view ch = record {
  phase = state ch;
  sends = contents ch.send_queue;
  returns = contents ch.return_queue;
}

-- The abstract operations.
abbrev push_view : ℕ → ℕ → View → Result SendError (Unit {0}) × View
push_view cap w v =
    if leb cap (length v.sends)
    then (err queue_full, v)
    else (ok tt, record v { sends = v.sends ++ (w ∷ []) })

abbrev pub send_view : ℕ → ℕ → View → Result SendError (Unit {0}) × View
send_view cap w v = if is_disconnected v.phase then (err broken, v) else push_view cap w v

abbrev receive_from : View → List ℕ → Result ReceiveError PointerOffset × View
receive_from v [] = (if is_disconnected v.phase then err connection_broken else err empty, v)
receive_from v (w ∷ rest) = (ok (from_raw w), record v { sends = rest })

abbrev pub receive_view : View → Result ReceiveError PointerOffset × View
receive_view v = receive_from v v.sends

abbrev reclaim_from : View → List ℕ → Option PointerOffset × View
reclaim_from v [] = (none, v)
reclaim_from v (w ∷ rest) = (some (from_raw w), record v { returns = rest })

abbrev pub reclaim_view : View → Option PointerOffset × View
reclaim_view v = reclaim_from v v.returns

-- A new channel is valid, empty both ways, in state `Creating`; connecting makes it `Connected`.
pub new-IsValid :
    (capacity sender_id receiver_id : ℕ)
    → capacity ≤ 2 ^ 63
    → let ch = new capacity sender_id receiver_id in
      IsValid ch
      × (view ch ≡ record { phase = creating; sends = []; returns = [] })
      × (view (connect ch) ≡ record { phase = connected; sends = []; returns = [] })
      × (capacity ≤ ch.send_queue.capacity)
      × (capacity ≤ ch.return_queue.capacity)
unfolding new connect state_of
new-IsValid capacity sender_id receiver_id h =
    let (valid, nothing, reaches, least) = queue_new capacity h in
    (
      record { sending = valid; returning = valid },
      rw nothing refl,
      rw nothing refl,
      reaches,
      reaches,
    )

-- A push on the send queue, as both sides of the channel see it.
send_alive :
    {ch : ZeroCopyChannel} (offset : PointerOffset)
    → IsValid ch
    → let out = push_view ch.send_queue.capacity (raw offset) (view ch) in
      (c : ZeroCopyChannel) × ((SpscQueue.push (raw offset) ch.send_queue >>= λ answer.
      some (sent ch answer))
        ≡ some (out.0, c))
      × (view c ≡ out.1)
      × IsValid c
      × (c.return_queue ≡ ch.return_queue)
unfolding Fifo.push
send_alive {ch} offset v =
    let (q, answered, valid, held, cap) = push-refines (raw offset) v.sending in
    elim (Bool-cases (leb ch.send_queue.capacity (length (contents ch.send_queue)))) [
      | inl full ↦
          rw (answered, full)
            (
              record ch { send_queue = q },
              refl,
              ap (λ xs. record (view ch) { sends = xs }) (rw full at held),
              record { sending = valid; returning = v.returning },
              refl,
            )
      | inr room ↦
          rw (answered, room)
            (
              record ch { send_queue = q },
              refl,
              ap (λ xs. record (view ch) { sends = xs }) (rw room at held),
              record { sending = valid; returning = v.returning },
              refl,
            )
    ]

-- On a valid channel, send fails as broken when disconnected and as full when the queue is, and
-- else appends the offset's word to the words on their way; the return queue stays as it is.
pub send-refines :
    {ch : ZeroCopyChannel} (offset : PointerOffset)
    → IsValid ch
    → (c : ZeroCopyChannel) × (send offset ch
        ≡ some ((send_view ch.send_queue.capacity (raw offset) (view ch)).0, c))
      × (view c ≡ (send_view ch.send_queue.capacity (raw offset) (view ch)).1)
      × IsValid c
      × (c.return_queue ≡ ch.return_queue)
unfolding send
send-refines {ch} offset v = elim (Bool-cases (is_disconnected (state ch))) [
  | inl gone ↦ rw gone (ch, refl, refl, v, refl)
  | inr alive ↦ rw alive (send_alive offset v)
]

-- On a valid channel, receive answers the oldest word on its way, also when disconnected, and on
-- an empty channel fails as broken when disconnected and as empty otherwise.
pub receive-refines :
    {ch : ZeroCopyChannel}
    → IsValid ch
    → (c : ZeroCopyChannel) × (receive ch ≡ some ((receive_view (view ch)).0, c))
      × (view c ≡ (receive_view (view ch)).1)
      × IsValid c
unfolding receive
receive-refines {ch} v = by_contents (contents ch.send_queue) refl
  where
    by_contents :
        (xs : List ℕ)
        → contents ch.send_queue ≡ xs
        → (c : ZeroCopyChannel) × (receive ch ≡ some ((receive_from (view ch) xs).0, c))
          × (view c ≡ (receive_from (view ch) xs).1)
          × IsValid c
    by_contents [] e =
        let (q, popped, valid, held, cap) = pop-nil v.sending e in
        elim (Bool-cases (is_disconnected (state ch))) [
          | inl gone ↦ rw (gone, (is_empty_iff v.sending).1 e) (ch, refl, refl, v)
          | inr alive ↦
              rw (alive, popped)
                (
                  record ch { send_queue = q },
                  refl,
                  ap (λ xs. record (view ch) { sends = xs }) (held ∙ sym e),
                  record { sending = valid; returning = v.returning },
                )
        ]
    by_contents (w ∷ rest) e =
        let (q, popped, valid, held, cap) = pop-cons v.sending e in
        rw (is_empty-cons v.sending e, and-false (is_disconnected (state ch)), popped)
          (
            record ch { send_queue = q },
            refl,
            ap (λ xs. record (view ch) { sends = xs }) held,
            record { sending = valid; returning = v.returning },
          )

-- On a valid channel, reclaim takes the oldest returned word in every state, or answers none when
-- there is none.
pub reclaim-refines :
    {ch : ZeroCopyChannel}
    → IsValid ch
    → (c : ZeroCopyChannel) × (reclaim ch ≡ some ((reclaim_view (view ch)).0, c))
      × (view c ≡ (reclaim_view (view ch)).1)
      × IsValid c
unfolding reclaim
reclaim-refines {ch} v = by_contents (contents ch.return_queue) refl
  where
    by_contents :
        (xs : List ℕ)
        → contents ch.return_queue ≡ xs
        → (c : ZeroCopyChannel) × (reclaim ch ≡ some ((reclaim_from (view ch) xs).0, c))
          × (view c ≡ (reclaim_from (view ch) xs).1)
          × IsValid c
    by_contents [] e =
        let (q, popped, valid, held, cap) = pop-nil v.returning e in
        rw popped (
          record ch { return_queue = q },
          refl,
          ap (λ xs. record (view ch) { returns = xs }) (held ∙ sym e),
          record { sending = v.sending; returning = valid },
        )
    by_contents (w ∷ rest) e =
        let (q, popped, valid, held, cap) = pop-cons v.returning e in
        rw popped (
          record ch { return_queue = q },
          refl,
          ap (λ xs. record (view ch) { returns = xs }) held,
          record { sending = v.sending; returning = valid },
        )

-- A push that succeeds ends the loop.
pub return_offset_ends :
    (ch : ZeroCopyChannel) {q : SpscQueue} (turns : List Bool) (offset : PointerOffset)
    → SpscQueue.push (raw offset) ch.return_queue ≡ some (true, q)
    → return_offset turns offset ch ≡ some (returned, record ch { return_queue = q })
unfolding return_offset
return_offset_ends ch [] offset pushed = rw pushed refl
return_offset_ends ch (reclaims ∷ turns) offset pushed = rw pushed refl

-- With room in the return queue `return_offset` ends with its first try and appends the word.
return_offset-room :
    {ch : ZeroCopyChannel} (turns : List Bool) (offset : PointerOffset)
    → IsValid ch
    → length (contents ch.return_queue) < ch.return_queue.capacity
    → (c : ZeroCopyChannel) × (return_offset turns offset ch ≡ some (returned, c))
      × (view c ≡ record (view ch) { returns = contents ch.return_queue ++ (raw offset ∷ []) })
      × IsValid c
return_offset-room {ch} turns offset v room =
    let (q, pushed, valid, held, cap) = push-append (raw offset) v.returning room in
    (
      record ch { return_queue = q },
      return_offset_ends ch turns offset pushed,
      ap (λ xs. record (view ch) { returns = xs }) held,
      record { sending = v.sending; returning = valid },
    )

-- Turns in which the other side does not reclaim leave the loop and the channel as they are.
return_offset-full :
    (ch : ZeroCopyChannel) (waits : ℕ) (turns : List Bool) (offset : PointerOffset)
    → ch.return_queue.capacity ≤ length (contents ch.return_queue)
    → return_offset (replicate waits false ++ turns) offset ch ≡ return_offset turns offset ch
unfolding return_offset
return_offset-full ch zero turns offset full = refl
return_offset-full ch (suc waits) turns offset full =
    rw
      (push-full {q = ch.return_queue} (raw offset)
        (omega (arith, length-contents ch.return_queue)))
      (return_offset-full ch waits turns offset full)

-- On a valid channel whose return queue is full, the loop of return_offset is still spinning,
-- with the channel as it is, after any number of turns in which the other side does not reclaim;
-- when the other side reclaims after them, it returns with its next try, whatever turns are left,
-- and the offset's word stands behind the others without the oldest one, which was reclaimed.
pub return_offset-reclaim :
    {ch : ZeroCopyChannel} (waits : ℕ) (turns : List Bool) (offset : PointerOffset) (w : ℕ)
    (rest : List ℕ)
    → IsValid ch
    → contents ch.return_queue ≡ w ∷ rest
    → ch.return_queue.capacity ≤ suc (length rest)
    → (c : ZeroCopyChannel) × (return_offset (replicate waits false) offset ch
        ≡ some (spinning, ch))
      × (return_offset (replicate waits false ++ (true ∷ turns)) offset ch ≡ some (returned, c))
      × (view c ≡ record (view ch) { returns = rest ++ (raw offset ∷ []) })
      × IsValid c
unfolding return_offset reclaim
return_offset-reclaim {ch} waits turns offset w rest v held full =
    let crowded : ch.return_queue.capacity ≤ length (contents ch.return_queue) =
      omega (arith, ap length held) in
    let refused =
      push-full {q = ch.return_queue} (raw offset)
        (omega (arith, length-contents ch.return_queue)) in
    let (q, popped, valid, left, cap) = pop-cons v.returning held in
    let freed : ZeroCopyChannel = record ch { return_queue = q } in
    let (c, put, seen, valid_c) =
      return_offset-room {ch = freed} turns offset
        (record { sending = v.sending; returning = valid })
        (omega (
          arith,
          ap length left,
          ap length held,
          cap,
          v.returning.fits,
          length-contents ch.return_queue,
        )) in
    (
      c,
      subst (λ ts. return_offset ts offset ch ≡ some (spinning, ch))
          (append-nil (replicate waits false))
          (return_offset-full ch waits [] offset crowded ∙ rw refused refl),
      return_offset-full ch waits (true ∷ turns) offset crowded ∙ rw (refused, popped) put,
      seen ∙ ap (λ xs. record (view ch) { returns = xs ++ (raw offset ∷ []) }) left,
      valid_c,
    )
