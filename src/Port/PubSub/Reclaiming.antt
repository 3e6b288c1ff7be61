-- ===== src/Port/PubSub/Reclaiming.antt =====
-- `reclaim` takes every returned chunk back into the pool.
use entangle.Prelude.{
  ℕ, zero, suc, ◌<◌, ◌≡◌, refl, sym, ap, subst, ◌∙◌, some, List, [], ◌∷◌, arith, length, length-map,
  ◌>>=◌,
}
use entangle.Lockfree.SpscQueue.Refine.{length-contents}
use entangle.Transport.PointerOffset.{raw}
use entangle.Transport.Channel
use entangle.Transport.Channel.{ZeroCopyChannel}
use entangle.Transport.Channel.Known.{reclaim-cons, reclaim-nil}
use entangle.Port.Publisher.{Publisher, reclaim, drain, drain_all}
use entangle.Port.PubSub.{Owners, chunk_at, words, IsOwned}
use entangle.Port.PubSub.Lending.{give_back-IsOwned}

-- The chunks of the first list, one after the other, on top of the second.
abbrev pub onto : List ℕ → List ℕ → List ℕ
onto [] free = free
onto (i ∷ is) free = onto is (i ∷ free)

drain-IsOwned :
    (p : Publisher) {ch : ZeroCopyChannel} (o : Owners) (is : List ℕ) (rounds : ℕ)
    → IsOwned (record p { channels = ch ∷ [] }) ch (record o { returning = is })
    → length is < rounds
    → (q : Publisher) × (c : ZeroCopyChannel) × (drain rounds ch p ≡ some (c, q))
      × IsOwned
          (record q { channels = c ∷ [] })
          c
          (record o { free = onto is o.free; returning = [] })
      × ((j : ℕ) → chunk_at q j ≡ chunk_at p j)
unfolding drain
drain-IsOwned p o is zero v h = absurd (omega arith)
drain-IsOwned p {ch} o [] (suc rounds) v h =
    let (c, nothing, follows, kept_send, kept_return) = reclaim-nil v.channel v.returns in
    (
      p,
      c,
      rw nothing refl,
      record {
        segment = v.segment;
        payload = v.payload;
        channel = follows.valid;
        wired = refl;
        alive = follows.same_state ∙ v.alive;
        sends = kept_send ∙ v.sends;
        returns = kept_return;
        send_room = omega (arith, v.send_room, follows.same_send);
        return_room = omega (arith, v.return_room, follows.same_return);
        once = v.once;
        inside = v.inside;
        active = v.active;
      },
      λ j. refl,
    )
drain-IsOwned p {ch} o (i ∷ is) (suc rounds) v h =
    let (c, got, follows, kept_send, kept_return) = reclaim-cons v.channel v.returns in
    let taken : IsOwned (record p { channels = c ∷ [] }) c
        (record o { loaned = i ∷ o.loaned; returning = is }) =
      record {
        segment = v.segment;
        payload = v.payload;
        channel = follows.valid;
        wired = refl;
        alive = follows.same_state ∙ v.alive;
        sends = kept_send ∙ v.sends;
        returns = kept_return;
        send_room = omega (arith, v.send_room, follows.same_send);
        return_room = omega (arith, v.return_room, follows.same_return);
        once = λ j lt. omega (arith, v.once j lt);
        inside = λ j ge. omega (arith, v.inside j ge);
        active = omega (arith, v.active);
      } in
    let (e, n, back, owned, same) =
      give_back-IsOwned p (c ∷ []) (record o { returning = is }) [] o.loaned i taken in
    let (q, c', rest, final, same') =
      drain-IsOwned (record p { segment = e; active_loans = n }) (record o { free = i ∷ o.free }) is
        rounds owned (omega arith) in
    (q, c', rw (got, back) rest, final, λ j. same' j ∙ same j)

drain_all-single :
    (p : Publisher) (ch : ZeroCopyChannel) {q : Publisher} {c : ZeroCopyChannel}
    → drain (suc (Channel.return_count ch)) ch p ≡ some (c, q)
    → drain_all (ch ∷ []) p ≡ some (c ∷ [], q)
unfolding drain_all
drain_all-single p ch e =
    ap (λ r. r >>= λ (ch', p'). drain_all [] p' >>= λ (chs, p''). some (ch' ∷ chs, p'')) e

-- On a publisher with one connected channel where every chunk has exactly one owner (IsOwned),
-- reclaim returns, leaves no chunk in the return queue, keeps the chunks' places, and puts every
-- chunk that was there back into the pool, with the active loans counted down for each.
pub reclaim-IsOwned :
    {p : Publisher} {ch : ZeroCopyChannel} (o : Owners)
    → IsOwned p ch o
    → (q : Publisher) × (c : ZeroCopyChannel) × (reclaim p ≡ some q)
      × IsOwned q c (record o { free = onto o.returning o.free; returning = [] })
      × ((j : ℕ) → chunk_at q j ≡ chunk_at p j)
unfolding reclaim
reclaim-IsOwned {p} {ch} o v =
    let (q, c, drained, owned, same) =
      drain-IsOwned (record p { channels = ch ∷ [] }) o o.returning (suc (Channel.return_count ch))
        (record {
          segment = v.segment;
          payload = v.payload;
          channel = v.channel;
          wired = refl;
          alive = v.alive;
          sends = v.sends;
          returns = v.returns;
          send_room = v.send_room;
          return_room = v.return_room;
          once = v.once;
          inside = v.inside;
          active = v.active;
        })
        counted in
    (
      record q { channels = c ∷ [] },
      c,
      rw (v.wired, drain_all-single (record p { channels = ch ∷ [] }) ch drained) refl,
      owned,
      same,
    )
  where
    counted : length o.returning < suc (Channel.return_count ch)
    counted = omega (
      arith,
      length-contents ch.return_queue,
      length-map (λ j. raw (chunk_at p j)) o.returning,
      subst (λ ws. length ws ≡ length (words p o.returning)) (sym v.returns) refl,
    )
