-- ===== src/Port/PubSub/Session/Runs.antt =====
-- No action of the applications panics or blocks, and none gives a chunk a second owner.
use entangle.Prelude.{
  ℕ, zero, suc, ◌≤◌, ◌<◌, ◌≡◌, refl, sym, ap, ap₂, subst, ◌∙◌, ◌⊎◌, inl, inr, true, Option, none,
  some, List, [], ◌∷◌, ◌++◌, map, arith, dec_lt,
}
use entangle.Transport.Channel.{ZeroCopyChannel}
use entangle.Port.Publisher.{Publisher}
use entangle.Port.PubSub.{Owners, chunk_at, lent, delivered, IsOwned}
use entangle.Port.PubSub.Lending.{
  loan-IsOwned, loan_refused, loan_full, send-IsOwned, drop_sample_mut-IsOwned,
}
use entangle.Port.PubSub.Receiving.{receive-IsOwned, receive_nothing, drop_sample-IsOwned, listener}
use entangle.Port.PubSub.Reclaiming.{reclaim-IsOwned, onto}
use entangle.Port.PubSub.Session.{
  Session, Action, loan, send, abandon, receive, release, reclaim, take_at, act, run,
}

-- The samples that the applications hold are those that the owners' lists name.
pub record Holds (s : Session) (ch : ZeroCopyChannel) (o : Owners) (node : ℕ) : Type 0 where
  pub owned : IsOwned s.publisher ch o
  pub listens : s.subscriber ≡ listener node
  pub loans : s.loaned ≡ map (lent s.publisher) o.loaned
  pub samples : s.held ≡ map (delivered s.publisher) o.held

-- What `take_at` finds in a mapped list.
take_at-map {ℓ} :
    {A : Type ℓ} (f : ℕ → A) (is : List ℕ) (k : ℕ)
    → (take_at (map f is) k ≡ none)
      ⊎ ((xs : List ℕ) × (i : ℕ) × (ys : List ℕ) × (is ≡ xs ++ (i ∷ ys))
          × (take_at (map f is) k ≡ some (f i, map f (xs ++ ys))))
unfolding take_at
take_at-map f [] k = inl refl
take_at-map f (i ∷ is) zero = inr ([], i, is, refl, refl)
take_at-map f (i ∷ is) (suc k) = elim (take_at-map f is k) [
  | inl missing ↦ inl (rw missing refl)
  | inr (xs, j, ys, split, found) ↦ inr (i ∷ xs, j, ys, ap (λ l. i ∷ l) split, rw found refl)
]

map-congr {ℓ} :
    {A : Type ℓ} {f g : ℕ → A} (is : List ℕ) → ((i : ℕ) → f i ≡ g i) → map f is ≡ map g is
map-congr [] e = refl
map-congr (i ∷ is) e = ap₂ ◌∷◌ (e i) (map-congr is e)

lent-congr :
    (p q : Publisher) (is : List ℕ)
    → ((j : ℕ) → chunk_at q j ≡ chunk_at p j)
    → map (lent p) is ≡ map (lent q) is
lent-congr p q is same =
    map-congr is
      (λ i. ap (λ x. record { offset = x; has_send_fn = true; has_drop_fn = true }) (sym (same i)))

delivered-congr :
    (p q : Publisher) (is : List ℕ)
    → ((j : ℕ) → chunk_at q j ≡ chunk_at p j)
    → map (delivered p) is ≡ map (delivered q) is
delivered-congr p q is same = map-congr is (λ i.
    ap
      (λ x. record {
        connection = record { publisher = 0; channel = 0 };
        offset = x;
        has_drop_fn = true;
      })
      (sym (same i)))

-- The outcome of an action: it returns, and the session holds what some owners name.
abbrev pub Continues : Option Session → ℕ → Type 0
Continues answer node =
    (t : Session) × (c : ZeroCopyChannel) × (o : Owners) × (answer ≡ some t) × Holds t c o node

loan-Continues :
    {s : Session} {ch : ZeroCopyChannel} {node : ℕ} (o : Owners) (free : List ℕ)
    → o.free ≡ free
    → s.publisher.active_loans < s.publisher.max_loaned
    → Holds s ch o node
    → Continues (act loan s) node
unfolding act
loan-Continues {s} {ch} o [] e below h =
    let owned : IsOwned s.publisher ch (record o { free = [] }) =
      subst (λ f. IsOwned s.publisher ch (record o { free = f })) e h.owned in
    let (q, answered, kept, same) = (loan_refused o owned).1 below in
    (
      record s { publisher = q },
      ch,
      record o { free = [] },
      rw answered refl,
      record {
        owned = kept;
        listens = h.listens;
        loans = h.loans ∙ lent-congr s.publisher q o.loaned same;
        samples = h.samples ∙ delivered-congr s.publisher q o.held same;
      },
    )
loan-Continues {s} {ch} o (i ∷ rest) e below h =
    let owned : IsOwned s.publisher ch (record o { free = i ∷ rest }) =
      subst (λ f. IsOwned s.publisher ch (record o { free = f })) e h.owned in
    let (q, answered, kept, limit, memory, same) = loan-IsOwned o i rest owned below in
    (
      record s { publisher = q; loaned = lent s.publisher i ∷ s.loaned },
      ch,
      record o { free = rest; loaned = i ∷ o.loaned },
      rw answered refl,
      record {
        owned = kept;
        listens = h.listens;
        loans =
            ap (λ l. lent s.publisher i ∷ l) h.loans ∙ lent-congr s.publisher q (i ∷ o.loaned) same;
        samples = h.samples ∙ delivered-congr s.publisher q o.held same;
      },
    )

send-Continues :
    {s : Session} {ch : ZeroCopyChannel} {node : ℕ} (o : Owners) (k : ℕ)
    → Holds s ch o node
    → Continues (act (send k) s) node
unfolding act
send-Continues {s} {ch} o k h = elim (take_at-map (lent s.publisher) o.loaned k) [
  | inl missing ↦ (s, ch, o, rw (h.loans, missing) refl, h)
  | inr (xs, i, ys, split, found) ↦
      let owned : IsOwned s.publisher ch (record o { loaned = xs ++ (i ∷ ys) }) =
        subst (λ l. IsOwned s.publisher ch (record o { loaned = l })) split h.owned in
      let (q, c, answered, kept, same) = send-IsOwned o xs ys i owned in
      (
        record s { publisher = q; loaned = map (lent s.publisher) (xs ++ ys) },
        c,
        record o { loaned = xs ++ ys; sending = o.sending ++ (i ∷ []) },
        rw (h.loans, found, answered) refl,
        record {
          owned = kept;
          listens = h.listens;
          loans = lent-congr s.publisher q (xs ++ ys) (λ j. ap (λ x. chunk_at x j) same);
          samples =
              h.samples ∙ delivered-congr s.publisher q o.held (λ j. ap (λ x. chunk_at x j) same);
        },
      )
]

abandon-Continues :
    {s : Session} {ch : ZeroCopyChannel} {node : ℕ} (o : Owners) (k : ℕ)
    → Holds s ch o node
    → Continues (act (abandon k) s) node
unfolding act
abandon-Continues {s} {ch} o k h = elim (take_at-map (lent s.publisher) o.loaned k) [
  | inl missing ↦ (s, ch, o, rw (h.loans, missing) refl, h)
  | inr (xs, i, ys, split, found) ↦
      let owned : IsOwned s.publisher ch (record o { loaned = xs ++ (i ∷ ys) }) =
        subst (λ l. IsOwned s.publisher ch (record o { loaned = l })) split h.owned in
      let (q, answered, kept, same) = drop_sample_mut-IsOwned o xs ys i owned in
      (
        record s { publisher = q; loaned = map (lent s.publisher) (xs ++ ys) },
        ch,
        record o { free = i ∷ o.free; loaned = xs ++ ys },
        rw (h.loans, found, answered) refl,
        record {
          owned = kept;
          listens = h.listens;
          loans = lent-congr s.publisher q (xs ++ ys) same;
          samples = h.samples ∙ delivered-congr s.publisher q o.held same;
        },
      )
]

receive-Continues :
    {s : Session} {ch : ZeroCopyChannel} {node : ℕ} (o : Owners) (sending : List ℕ)
    → o.sending ≡ sending
    → Holds s ch o node
    → Continues (act receive s) node
unfolding act
receive-Continues {s} {ch} {node} o [] e h =
    let owned : IsOwned s.publisher ch (record o { sending = [] }) =
      subst (λ l. IsOwned s.publisher ch (record o { sending = l })) e h.owned in
    let (q, c, answered, kept, same) = receive_nothing o node owned in
    (
      record s { publisher = q; subscriber = listener node },
      c,
      record o { sending = [] },
      rw (h.listens, answered) refl,
      record {
        owned = kept;
        listens = refl;
        loans = h.loans ∙ lent-congr s.publisher q o.loaned (λ j. ap (λ x. chunk_at x j) same);
        samples =
            h.samples ∙ delivered-congr s.publisher q o.held (λ j. ap (λ x. chunk_at x j) same);
      },
    )
receive-Continues {s} {ch} {node} o (i ∷ rest) e h =
    let owned : IsOwned s.publisher ch (record o { sending = i ∷ rest }) =
      subst (λ l. IsOwned s.publisher ch (record o { sending = l })) e h.owned in
    let (q, c, answered, kept, same) = receive-IsOwned o i node rest owned in
    (
      record s {
        publisher = q;
        subscriber = listener node;
        held = delivered s.publisher i ∷ s.held;
      },
      c,
      record o { sending = rest; held = i ∷ o.held },
      rw (h.listens, answered) refl,
      record {
        owned = kept;
        listens = refl;
        loans = h.loans ∙ lent-congr s.publisher q o.loaned (λ j. ap (λ x. chunk_at x j) same);
        samples =
            ap (λ l. delivered s.publisher i ∷ l) h.samples
            ∙ delivered-congr s.publisher q (i ∷ o.held) (λ j. ap (λ x. chunk_at x j) same);
      },
    )

release-Continues :
    {s : Session} {ch : ZeroCopyChannel} {node : ℕ} (o : Owners) (k : ℕ)
    → Holds s ch o node
    → Continues (act (release k) s) node
unfolding act
release-Continues {s} {ch} o k h = elim (take_at-map (delivered s.publisher) o.held k) [
  | inl missing ↦ (s, ch, o, rw (h.samples, missing) refl, h)
  | inr (xs, i, ys, split, found) ↦
      let owned : IsOwned s.publisher ch (record o { held = xs ++ (i ∷ ys) }) =
        subst (λ l. IsOwned s.publisher ch (record o { held = l })) split h.owned in
      let (q, c, answered, kept, same) = drop_sample-IsOwned o xs ys i 0 owned in
      (
        record s { publisher = q; held = map (delivered s.publisher) (xs ++ ys) },
        c,
        record o { held = xs ++ ys; returning = o.returning ++ (i ∷ []) },
        rw (h.samples, found, answered) refl,
        record {
          owned = kept;
          listens = h.listens;
          loans = h.loans ∙ lent-congr s.publisher q o.loaned (λ j. ap (λ x. chunk_at x j) same);
          samples = delivered-congr s.publisher q (xs ++ ys) (λ j. ap (λ x. chunk_at x j) same);
        },
      )
]

reclaim-Continues :
    {s : Session} {ch : ZeroCopyChannel} {node : ℕ} (o : Owners)
    → Holds s ch o node
    → Continues (act reclaim s) node
unfolding act
reclaim-Continues {s} {ch} o h =
    let (q, c, answered, kept, same) = reclaim-IsOwned o h.owned in
    (
      record s { publisher = q },
      c,
      record o { free = onto o.returning o.free; returning = [] },
      rw answered refl,
      record {
        owned = kept;
        listens = h.listens;
        loans = h.loans ∙ lent-congr s.publisher q o.loaned same;
        samples = h.samples ∙ delivered-congr s.publisher q o.held same;
      },
    )

-- A loan at the limit changes nothing.
refused-Continues :
    {s : Session} {ch : ZeroCopyChannel} {node : ℕ} (o : Owners)
    → s.publisher.max_loaned ≤ s.publisher.active_loans
    → Holds s ch o node
    → Continues (act loan s) node
unfolding act
refused-Continues {s} {ch} o full h = (s, ch, o, rw (loan_full {p = s.publisher} full) refl, h)

-- One action keeps every chunk with exactly one owner, and the samples as the owners' lists name them.
pub act-Continues :
    {s : Session} {ch : ZeroCopyChannel} {node : ℕ} (action : Action) (o : Owners)
    → Holds s ch o node
    → Continues (act action s) node
act-Continues {s} loan o h = elim (dec_lt s.publisher.active_loans s.publisher.max_loaned) [
  | yes below ↦ loan-Continues o o.free refl below h
  | no full ↦ refused-Continues o (omega arith) h
]
act-Continues (send k) o h = send-Continues o k h
act-Continues (abandon k) o h = abandon-Continues o k h
act-Continues receive o h = receive-Continues o o.sending refl h
act-Continues (release k) o h = release-Continues o k h
act-Continues reclaim o h = reclaim-Continues o h

-- From a session in which every chunk of the publisher's segment has exactly one owner (the pool,
-- a loaned sample, the send queue, a received sample or the return queue) and the applications
-- hold the samples that the owners name, every sequence of loans, sends, drops, receives,
-- releases and reclaims returns without a panic and without a drop that has to wait, and ends in
-- such a session again.
pub run-Continues :
    (actions : List Action) {s : Session} {ch : ZeroCopyChannel} {node : ℕ} (o : Owners)
    → Holds s ch o node
    → Continues (run actions s) node
unfolding run
run-Continues [] {s} {ch} o h = (s, ch, o, refl, h)
run-Continues (action ∷ rest) {s} {ch} {node} o h =
    let (t, c, o', answered, h') = act-Continues action o h in
    let (u, d, o'', finished, h'') = run-Continues rest o' h' in
    (u, d, o'', rw answered finished, h'')
