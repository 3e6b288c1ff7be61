-- ===== src/Port/PubSub/Lending.antt =====
-- `loan`, `send` and the drop of a loaned sample keep the ownership of every chunk.
use entangle.Prelude.{
  ℕ, suc, ◌+◌, ◌-◌, ◌*◌, ◌%◌, ◌^◌, ◌≤◌, ◌<◌, ◌≡◌, refl, sym, ap, subst, ◌∙◌, some, List, [], ◌∷◌,
  ◌++◌, arith, dec_lt, ℕ_discrete, le→leb, gt→leb, eq→==, ne→==, length, length-append, length-map,
  count, count-append, count_self, All-ne_of_count, length-le_of_count, ok, err,
}
use mathlib.Core.List.{map-append}
use entangle.Lockfree.IndexSet.{sentinel}
use entangle.Lockfree.SpscQueue.Inv.{contents}
use entangle.Transport.Contracts.{out_of_memory, exceeds_max_loans}
use entangle.Transport.PointerOffset.{raw}
use entangle.Transport.DataSegment
use entangle.Transport.DataSegment.{DataSegment}
use entangle.Transport.DataSegment.Refine.{
  IsValid as IsValidSegment, allocate-refines, deallocate-refines, resolve_ptr-chunk,
}
use entangle.Transport.Channel.{ZeroCopyChannel}
use entangle.Transport.Channel.Known.{send-append}
use entangle.Errors.{loan as loan_failed}
use entangle.Port.Publisher.{Publisher, loan, lend, send, drop_sample_mut, give_back, zero_bytes}
use entangle.Port.PubSub.{Owners, owners, in_flight, chunk_at, capacity, lent, IsOwned}

-- Each chunk has at most one owner.
pub once-le :
    {p : Publisher} {ch : ZeroCopyChannel} {o : Owners} → IsOwned p ch o → (i : ℕ) → owners i o ≤ 1
once-le {p} v i = elim (dec_lt i (capacity p)) [
  | yes lt ↦ omega (arith, v.once i lt)
  | no ge ↦ omega (arith, v.inside i (omega arith))
]

-- A chunk that a list owns is a chunk of the pool, and no other list owns it.
pub owned-lt :
    {p : Publisher} {ch : ZeroCopyChannel} {o : Owners}
    → IsOwned p ch o
    → (i : ℕ) → 0 < owners i o
    → i < capacity p
owned-lt {p} v i h = elim (dec_lt i (capacity p)) [
  | yes lt ↦ lt
  | no ge ↦ absurd (omega (arith, v.inside i (omega arith)))
]

-- No more chunks are in flight than there are.
pub in_flight-le :
    {p : Publisher} {ch : ZeroCopyChannel} {o : Owners} → IsOwned p ch o → in_flight o ≤ capacity p
in_flight-le {p} {o} v = omega (
  arith,
  length-append {0} o.loaned (o.sending ++ (o.held ++ o.returning)),
  length-append {0} o.sending (o.held ++ o.returning),
  length-append {0} o.held o.returning,
  length-le_of_count (capacity p) (o.loaned ++ (o.sending ++ (o.held ++ o.returning)))
      (λ i. omega (arith, counted i, once-le v i))
      (λ i ge. omega (arith, counted i, v.inside i ge)),
)
  where
    counted :
        (i : ℕ)
        → count i (o.loaned ++ (o.sending ++ (o.held ++ o.returning))) + count i o.free ≡ owners i o
    counted i = omega (
      arith,
      count-append i o.loaned (o.sending ++ (o.held ++ o.returning)),
      count-append i o.sending (o.held ++ o.returning),
      count-append i o.held o.returning,
    )

capacity-lt :
    {p : Publisher} {ch : ZeroCopyChannel} {o : Owners} → IsOwned p ch o → capacity p < sentinel
capacity-lt v = v.segment.pool.set.small

-- On a publisher with one connected channel where every chunk has exactly one owner (IsOwned), if
-- a chunk is free and the active loans are below the limit, loan hands out the top free chunk,
-- zeroes the payload's bytes in it and no others, keeps the limit and the chunks' places, and
-- moves the chunk from the pool to the loaned ones.
pub loan-IsOwned :
    {p : Publisher} {ch : ZeroCopyChannel} (o : Owners) (i : ℕ) (rest : List ℕ)
    → IsOwned p ch (record o { free = i ∷ rest })
    → p.active_loans < p.max_loaned
    → (q : Publisher) × (loan p ≡ some (ok (lent p i), q))
      × IsOwned q ch (record o { free = rest; loaned = i ∷ o.loaned })
      × (q.max_loaned ≡ p.max_loaned)
      × (q.segment.shm.memory
          ≡ zero_bytes (64 + i * p.segment.chunk_size) p.payload_size p.segment.shm.memory)
      × ((j : ℕ) → chunk_at q j ≡ chunk_at p j)
unfolding loan lend
loan-IsOwned {p} {ch} o i rest v below =
    let (e, answered, valid, kept, same) = allocate-refines (i ∷ rest) v.segment in
    let e' : DataSegment = record (p.segment) {
      allocator = record (p.segment.allocator) { index_set = e.allocator.index_set };
    } in
    let valid' : IsValidSegment e' rest = subst (λ x. IsValidSegment x rest) kept valid in
    let lt : i < capacity p = owned-lt v i (omega (arith, count_self i rest)) in
    let at : DataSegment.resolve_ptr (chunk_at p i) e' ≡ some (64 + i * p.segment.chunk_size) =
      resolve_ptr-chunk rest i valid' (omega arith) in
    (
      record p {
        segment = record e' {
          shm = record (p.segment.shm) {
            memory = zero_bytes (64 + i * p.segment.chunk_size) p.payload_size p.segment.shm.memory;
          };
        };
        active_loans = (p.active_loans + 1) % 2 ^ 64;
      },
      rw (gt→leb p.max_loaned p.active_loans below, answered, kept, at) refl,
      record {
        segment = record {
          pool = valid'.pool;
          same_size = valid'.same_size;
          based = valid'.based;
          room = valid'.room;
        };
        payload = v.payload;
        channel = v.channel;
        wired = v.wired;
        alive = v.alive;
        sends = v.sends;
        returns = v.returns;
        send_room = omega (arith, v.send_room);
        return_room = omega (arith, v.return_room);
        once = λ j lt'. omega (arith, v.once j (omega arith));
        inside = λ j ge. omega (arith, v.inside j (omega arith));
        active = omega (arith, v.active, in_flight-le v, capacity-lt v);
      },
      refl,
      refl,
      λ j. refl,
    )

pub loan_full :
    {p : Publisher}
    → p.max_loaned ≤ p.active_loans
    → loan p ≡ some (err (loan_failed (exceeds_max_loans p.max_loaned)), p)
unfolding loan
loan_full {p} full = rw (le→leb p.max_loaned p.active_loans full) refl

-- On a publisher with one connected channel where every chunk has exactly one owner (IsOwned) and
-- none is free, loan at the limit of active loans fails with that limit and changes nothing, and
-- below the limit fails as out of memory, keeps every owner and the chunks' places.
pub loan_refused :
    {p : Publisher} {ch : ZeroCopyChannel} (o : Owners)
    → IsOwned p ch (record o { free = [] })
    → (p.max_loaned ≤ p.active_loans
        → loan p ≡ some (err (loan_failed (exceeds_max_loans p.max_loaned)), p))
      × (p.active_loans < p.max_loaned
          → (q : Publisher) × (loan p ≡ some (err (loan_failed out_of_memory), q))
            × IsOwned q ch (record o { free = [] })
            × ((j : ℕ) → chunk_at q j ≡ chunk_at p j))
unfolding loan
loan_refused {p} {ch} o v = (
  loan_full,
  λ below.
      let (e, answered, valid, kept, same) = allocate-refines [] v.segment in
      (
        record p { segment = e },
        rw (gt→leb p.max_loaned p.active_loans below, answered) refl,
        let e' : DataSegment = record (p.segment) {
          allocator = record (p.segment.allocator) { index_set = e.allocator.index_set };
        } in
            subst (λ x. IsOwned (record p { segment = x }) ch (record o { free = [] })) (sym kept)
              (record {
                segment = subst (λ x. IsValidSegment x []) kept valid;
                payload = v.payload;
                channel = v.channel;
                wired = v.wired;
                alive = v.alive;
                sends = v.sends;
                returns = v.returns;
                send_room = omega (arith, v.send_room);
                return_room = omega (arith, v.return_room);
                once = λ j lt. omega (arith, v.once j (omega arith));
                inside = λ j ge. omega (arith, v.inside j (omega arith));
                active = v.active;
              }),
        λ j. ap (λ x. chunk_at (record p { segment = x }) j) kept,
      ),
)

-- The queues have room for one more chunk that is not in them.
sending-lt :
    {p : Publisher} {ch : ZeroCopyChannel} {o : Owners} (i : ℕ)
    → IsOwned p ch o
    → 0 < count i o.loaned
    → length (contents ch.send_queue) < ch.send_queue.capacity
sending-lt {p} {ch} {o} i v here =
    rw (v.sends, length-map (λ j. raw (chunk_at p j)) o.sending)
      (omega (arith, v.send_room, length-le_of_count (capacity p) (i ∷ o.sending) at_most below))
  where
    at_most : (j : ℕ) → count j (i ∷ o.sending) ≤ 1
    at_most j = elim (ℕ_discrete i j) [
      | yes e ↦
          rw (eq→== i j e) (
            omega
              (arith, once-le v i, e, subst (λ k. count k o.sending ≡ count i o.sending) e refl))
      | no ne ↦ rw (ne→== i j ne) (omega (arith, once-le v j))
    ]

    below : (j : ℕ) → capacity p ≤ j → count j (i ∷ o.sending) ≡ 0
    below j ge =
        rw (ne→== i j (λ e. absurd (omega (arith, e, owned-lt v i (omega arith)))))
          (omega (arith, v.inside j ge))

-- On a publisher with one connected channel where every chunk has exactly one owner (IsOwned),
-- sending a loaned sample over the one connected channel succeeds, changes only the publisher's
-- channel, and moves the chunk to the end of the send queue.
pub send-IsOwned :
    {p : Publisher} {ch : ZeroCopyChannel} (o : Owners) (xs ys : List ℕ) (i : ℕ)
    → IsOwned p ch (record o { loaned = xs ++ (i ∷ ys) })
    → (q : Publisher) × (c : ZeroCopyChannel) × (send (lent p i) p ≡ some (ok tt, q))
      × IsOwned q c (record o { loaned = xs ++ ys; sending = o.sending ++ (i ∷ []) })
      × (q ≡ record p { channels = c ∷ [] })
unfolding send
send-IsOwned {p} {ch} o xs ys i v =
    let (c, sent, follows, held, kept) =
      send-append (chunk_at p i) v.channel v.alive
        (sending-lt i v (omega (arith, count-append i xs (i ∷ ys), count_self i ys))) in
    (
      record p { channels = c ∷ [] },
      c,
      rw (v.wired, sent) refl,
      record {
        segment = v.segment;
        payload = v.payload;
        channel = follows.valid;
        wired = refl;
        alive = follows.same_state ∙ v.alive;
        sends =
            held
            ∙ ap (λ ws. ws ++ (raw (chunk_at p i) ∷ [])) v.sends
            ∙ sym (map-append (λ j. raw (chunk_at p j)) o.sending (i ∷ []));
        returns = kept ∙ v.returns;
        send_room = omega (arith, v.send_room, follows.same_send);
        return_room = omega (arith, v.return_room, follows.same_return);
        once = λ j lt. omega (
          arith,
          v.once j lt,
          count-append j xs (i ∷ ys),
          count-append j xs ys,
          count-append j o.sending (i ∷ []),
        );
        inside = λ j ge. omega (
          arith,
          v.inside j ge,
          count-append j xs (i ∷ ys),
          count-append j xs ys,
          count-append j o.sending (i ∷ []),
        );
        active = omega (
          arith,
          v.active,
          length-append {0} xs (i ∷ ys),
          length-append {0} xs ys,
          length-append {0} o.sending (i ∷ []),
        );
      },
      refl,
    )

-- The chunk of a loaned sample goes back to the pool, whatever becomes of the channels.
pub give_back-IsOwned :
    (p : Publisher) {ch : ZeroCopyChannel} (chs : List ZeroCopyChannel) (o : Owners)
    (xs ys : List ℕ) (i : ℕ)
    → IsOwned (record p { channels = chs }) ch (record o { loaned = xs ++ (i ∷ ys) })
    → (e : DataSegment) × (n : ℕ) × (give_back (chunk_at p i) p
        ≡ some (record p { segment = e; active_loans = n }))
      × IsOwned
          (record p { channels = chs; segment = e; active_loans = n })
          ch
          (record o { free = i ∷ o.free; loaned = xs ++ ys })
      × ((j : ℕ) → chunk_at (record p { segment = e }) j ≡ chunk_at p j)
unfolding give_back
give_back-IsOwned p {ch} chs o xs ys i v =
    let one : count i (xs ++ (i ∷ ys)) ≡ suc (count i xs + count i ys) =
      omega (arith, count-append i xs (i ∷ ys), count_self i ys) in
    let (e, released, valid, kept, same) =
      deallocate-refines o.free i v.segment (owned-lt v i (omega arith))
        (All-ne_of_count i o.free (omega (arith, once-le v i))) in
    let e' : DataSegment = record (p.segment) {
      allocator = record (p.segment.allocator) { index_set = e.allocator.index_set };
    } in
    (
      e',
      (p.active_loans + 2 ^ 64 - 1) % 2 ^ 64,
      rw (released, kept) refl,
      record {
        segment = subst (λ x. IsValidSegment x (i ∷ o.free)) kept valid;
        payload = v.payload;
        channel = v.channel;
        wired = v.wired;
        alive = v.alive;
        sends = v.sends;
        returns = v.returns;
        send_room = omega (arith, v.send_room);
        return_room = omega (arith, v.return_room);
        once = λ j lt.
            omega (arith, v.once j (omega arith), count-append j xs (i ∷ ys), count-append j xs ys);
        inside = λ j ge.
            omega
              (arith, v.inside j (omega arith), count-append j xs (i ∷ ys), count-append j xs ys);
        active = omega (
          arith,
          v.active,
          in_flight-le v,
          capacity-lt v,
          length-append {0} xs (i ∷ ys),
          length-append {0} xs ys,
        );
      },
      λ j. refl,
    )

-- On a publisher with one connected channel where every chunk has exactly one owner (IsOwned),
-- dropping a loaned sample that was not sent puts its chunk back on top of the pool, counts the
-- loan down, and keeps the chunks' places.
pub drop_sample_mut-IsOwned :
    {p : Publisher} {ch : ZeroCopyChannel} (o : Owners) (xs ys : List ℕ) (i : ℕ)
    → IsOwned p ch (record o { loaned = xs ++ (i ∷ ys) })
    → (q : Publisher) × (drop_sample_mut (lent p i) p ≡ some q)
      × IsOwned q ch (record o { free = i ∷ o.free; loaned = xs ++ ys })
      × ((j : ℕ) → chunk_at q j ≡ chunk_at p j)
unfolding drop_sample_mut
drop_sample_mut-IsOwned {p} {ch} o xs ys i v =
    let (e, n, dropped, owned, same) = give_back-IsOwned p p.channels o xs ys i v in
    (record p { segment = e; active_loans = n }, dropped, owned, same)
