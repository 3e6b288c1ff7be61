-- ===== src/Port/PubSub/Receiving.antt =====
-- A subscriber receives a chunk that was sent, and its drop returns it.
use entangle.Prelude.{
  replicate, false, ℕ, ◌+◌, ◌*◌, ◌≤◌, ◌<◌, ◌≡◌, refl, sym, ap, subst, ◌∙◌, none, some, List, [],
  ◌∷◌, ◌++◌, arith, ℕ_discrete, eq→==, ne→==, length, length-append, length-map, count,
  count-append, count_self, length-le_of_count, ok,
}
use mathlib.Core.List.{map-append}
use entangle.Lockfree.SpscQueue.Inv.{contents}
use entangle.Transport.PointerOffset.{raw}
use entangle.Transport.DataSegment
use entangle.Transport.DataSegment.{DataSegment, header_size}
use entangle.Transport.DataSegment.Refine.{resolve_ptr-chunk}
use entangle.Transport.Channel.{returned, ZeroCopyChannel}
use entangle.Transport.Channel.Known.{receive-cons, receive-nil, return_offset-append}
use entangle.Port.Publisher.{Publisher}
use entangle.Port.Subscriber.{
  Subscriber, receive, receive_from, drop_sample, channel_of, put_channel,
}
use entangle.Port.PubSub.{Owners, chunk_at, capacity, delivered, IsOwned}
use entangle.Port.PubSub.Lending.{once-le, owned-lt}

-- The subscriber with the one connection.
abbrev pub listener : ℕ → Subscriber
listener node = record { node_id = node; connections = record { publisher = 0; channel = 0 } ∷ [] }

-- On a publisher with one connected channel where every chunk has exactly one owner (IsOwned) and
-- one is on its way, receive hands out the sample that was sent first, changes only the
-- publisher's channel, and moves the chunk to the received ones.
pub receive-IsOwned :
    {p : Publisher} {ch : ZeroCopyChannel} (o : Owners) (i node : ℕ) (rest : List ℕ)
    → IsOwned p ch (record o { sending = i ∷ rest })
    → (q : Publisher) × (c : ZeroCopyChannel) × (receive (listener node) (p ∷ [])
        ≡ some (ok (some (delivered p i)), q ∷ []))
      × IsOwned q c (record o { sending = rest; held = i ∷ o.held })
      × (q ≡ record p { channels = c ∷ [] })
unfolding receive receive_from channel_of put_channel
receive-IsOwned {p} {ch} o i node rest v =
    let lt : i < capacity p = owned-lt v i (omega (arith, count_self i rest)) in
    let (c, got, follows, kept_send, kept_return) = receive-cons v.channel v.alive v.sends in
    let at : DataSegment.resolve_ptr (chunk_at p i) p.segment
        ≡ some (header_size + i * p.segment.chunk_size) =
      resolve_ptr-chunk o.free i v.segment lt in
    (
      record p { channels = c ∷ [] },
      c,
      rw (v.wired, got, at) refl,
      record {
        segment = v.segment;
        payload = v.payload;
        channel = follows.valid;
        wired = refl;
        alive = follows.same_state ∙ v.alive;
        sends = kept_send;
        returns = kept_return ∙ v.returns;
        send_room = omega (arith, v.send_room, follows.same_send);
        return_room = omega (arith, v.return_room, follows.same_return);
        once = λ j lt. omega (arith, v.once j lt);
        inside = λ j ge. omega (arith, v.inside j ge);
        active = omega (arith, v.active);
      },
      refl,
    )

-- `receive` hands out nothing when nothing is on its way, and no chunk changes hands.
pub receive_nothing :
    {p : Publisher} {ch : ZeroCopyChannel} (o : Owners) (node : ℕ)
    → IsOwned p ch (record o { sending = [] })
    → (q : Publisher) × (c : ZeroCopyChannel) × (receive (listener node) (p ∷ [])
        ≡ some (ok none, q ∷ []))
      × IsOwned q c (record o { sending = [] })
      × (q ≡ record p { channels = c ∷ [] })
unfolding receive receive_from channel_of put_channel
receive_nothing {p} {ch} o node v =
    let (c, got, follows, kept_send, kept_return) = receive-nil v.channel v.alive v.sends in
    (
      record p { channels = c ∷ [] },
      c,
      rw (v.wired, got) refl,
      record {
        segment = v.segment;
        payload = v.payload;
        channel = follows.valid;
        wired = refl;
        alive = follows.same_state ∙ v.alive;
        sends = kept_send;
        returns = kept_return ∙ v.returns;
        send_room = omega (arith, v.send_room, follows.same_send);
        return_room = omega (arith, v.return_room, follows.same_return);
        once = λ j lt. omega (arith, v.once j lt);
        inside = λ j ge. omega (arith, v.inside j ge);
        active = omega (arith, v.active);
      },
      refl,
    )

returning-lt :
    {p : Publisher} {ch : ZeroCopyChannel} {o : Owners} (i : ℕ)
    → IsOwned p ch o
    → 0 < count i o.held
    → length (contents ch.return_queue) < ch.return_queue.capacity
returning-lt {p} {ch} {o} i v here =
    rw (v.returns, length-map (λ j. raw (chunk_at p j)) o.returning)
      (omega
        (arith, v.return_room, length-le_of_count (capacity p) (i ∷ o.returning) at_most below))
  where
    at_most : (j : ℕ) → count j (i ∷ o.returning) ≤ 1
    at_most j = elim (ℕ_discrete i j) [
      | yes e ↦ rw (eq→== i j e) (
          omega
            (arith, once-le v i, e, subst (λ k. count k o.returning ≡ count i o.returning) e refl))
      | no ne ↦ rw (ne→== i j ne) (omega (arith, once-le v j))
    ]

    below : (j : ℕ) → capacity p ≤ j → count j (i ∷ o.returning) ≡ 0
    below j ge =
        rw (ne→== i j (λ e. absurd (omega (arith, e, owned-lt v i (omega arith)))))
          (omega (arith, v.inside j ge))

-- On a publisher with one connected channel where every chunk has exactly one owner (IsOwned),
-- dropping a received sample pushes its offset in the first round of the loop, changes only the
-- publisher's channel, and moves the chunk to the end of the return queue.
pub drop_sample-IsOwned :
    {p : Publisher} {ch : ZeroCopyChannel} (o : Owners) (xs ys : List ℕ) (i rounds : ℕ)
    → IsOwned p ch (record o { held = xs ++ (i ∷ ys) })
    → (q : Publisher) × (c : ZeroCopyChannel) × (drop_sample rounds (delivered p i) (p ∷ [])
        ≡ some (returned, q ∷ []))
      × IsOwned q c (record o { held = xs ++ ys; returning = o.returning ++ (i ∷ []) })
      × (q ≡ record p { channels = c ∷ [] })
unfolding drop_sample channel_of put_channel
drop_sample-IsOwned {p} {ch} o xs ys i rounds v =
    let (c, put, follows, kept_send, kept_return) =
      return_offset-append (replicate rounds false) (chunk_at p i) v.channel
        (returning-lt i v (omega (arith, count-append i xs (i ∷ ys), count_self i ys))) in
    (
      record p { channels = c ∷ [] },
      c,
      rw (v.wired, put) refl,
      record {
        segment = v.segment;
        payload = v.payload;
        channel = follows.valid;
        wired = refl;
        alive = follows.same_state ∙ v.alive;
        sends = kept_send ∙ v.sends;
        returns =
            kept_return
            ∙ ap (λ ws. ws ++ (raw (chunk_at p i) ∷ [])) v.returns
            ∙ sym (map-append (λ j. raw (chunk_at p j)) o.returning (i ∷ []));
        send_room = omega (arith, v.send_room, follows.same_send);
        return_room = omega (arith, v.return_room, follows.same_return);
        once = λ j lt. omega (
          arith,
          v.once j lt,
          count-append j xs (i ∷ ys),
          count-append j xs ys,
          count-append j o.returning (i ∷ []),
        );
        inside = λ j ge. omega (
          arith,
          v.inside j ge,
          count-append j xs (i ∷ ys),
          count-append j xs ys,
          count-append j o.returning (i ∷ []),
        );
        active = omega (
          arith,
          v.active,
          length-append {0} xs (i ∷ ys),
          length-append {0} xs ys,
          length-append {0} o.returning (i ∷ []),
        );
      },
      refl,
    )
