-- ===== src/Lockfree/IndexSet/Threads/Steps.antt =====
-- What one access of a thread does to the set and to the other threads.
use entangle.Prelude.{
  ℕ, ◌+◌, ◌%◌, ◌^◌, ◌<◌, ◌≡◌, refl, sym, ap, subst, ◌∙◌, ◌≢◌, Bool, false, List, [], arith,
  ℕ_discrete, length, get_or, set, length-set, get_or-set_self, get_or-set_ne, count, count_self,
}
use entangle.Lockfree.IndexSet.{UniqueIndexSet, sentinel, extract_head, extract_tag}
use entangle.Lockfree.IndexSet.Inv.{Chain}
use entangle.Lockfree.IndexSet.Threads.{
  Pc, idle, refused, uncounting, acquiring, linked, counting, releasing, stored, Thread, resting,
  System, thread, after,
}
use entangle.Lockfree.IndexSet.Threads.Family.{total, total-set}
use entangle.Lockfree.IndexSet.Threads.Inv.{
  in_hand, owns, in_due, out_due, SeenOk, PcOk, Tally, IsConsistent,
}

-- An update of the head leaves what the other threads know.
SeenOk-updated :
    (s : UniqueIndexSet) (version w : ℕ) {old seen : ℕ}
    → SeenOk s version old seen
    → SeenOk (record s { head = w }) (version + 1) old seen
SeenOk-updated s version w (le, tag, place, same) =
    (omega arith, tag, place, λ e. absurd (omega arith))

pub PcOk-updated :
    (s : UniqueIndexSet) (version w : ℕ) (pc : Pc)
    → PcOk s version pc
    → PcOk (record s { head = w }) (version + 1) pc
PcOk-updated s version w idle ok_pc = tt
PcOk-updated s version w refused ok_pc = tt
PcOk-updated s version w uncounting ok_pc = tt
PcOk-updated s version w (acquiring old seen) ok_pc = SeenOk-updated s version w ok_pc
PcOk-updated s version w (linked old seen next_idx) (ok_s, ne, same) =
    (SeenOk-updated s version w ok_s, ne, λ e. absurd (omega arith))
PcOk-updated s version w (counting index) ok_pc = tt
PcOk-updated s version w (releasing index old seen) (ok_s, lt) =
    (SeenOk-updated s version w ok_s, lt)
PcOk-updated s version w (stored index old seen) (ok_s, lt, link) =
    (SeenOk-updated s version w ok_s, lt, link)

-- A link that is stored in a slot which is not the head's, and not in the hand of a thread, leaves
-- what that thread knows.
pub PcOk-link :
    (s : UniqueIndexSet) (version index w : ℕ) (pc : Pc)
    → (extract_head s.head ≢ sentinel → extract_head s.head ≢ index)
    → ((j : ℕ) → 0 < count j (in_hand pc) → j ≢ index)
    → PcOk s version pc
    → PcOk (record s { next = set s.next index w }) version pc
PcOk-link s version index w idle out apart ok_pc = tt
PcOk-link s version index w refused out apart ok_pc = tt
PcOk-link s version index w uncounting out apart ok_pc = tt
PcOk-link s version index w (acquiring old seen) out apart ok_pc = ok_pc
PcOk-link s version index w (linked old seen next_idx) out apart (ok_s, ne, same) = (
  ok_s,
  ne,
  λ e.
      let head : extract_head old ≡ extract_head s.head = ap extract_head (ok_s.3 e) in
      same e
      ∙ sym (
          get_or-set_ne s.next index (extract_head old) w 0
            (λ z. out (λ y. ne (head ∙ y)) (sym head ∙ sym z))),
)
PcOk-link s version index w (counting j) out apart ok_pc = tt
PcOk-link s version index w (releasing j old seen) out apart ok_pc = ok_pc
PcOk-link s version index w (stored j old seen) out apart (ok_s, lt, link) = (
  ok_s,
  lt,
  get_or-set_ne s.next index j w 0 (λ z. apart j (omega (arith, count_self j [])) (sym z)) ∙ link,
)

-- The counter of borrowed indices is nothing that the threads rely on.
pub PcOk-counted :
    (s : UniqueIndexSet) (version n : ℕ) (pc : Pc)
    → PcOk s version pc
    → PcOk (record s { borrowed = n }) version pc
PcOk-counted s version n idle ok_pc = tt
PcOk-counted s version n refused ok_pc = tt
PcOk-counted s version n uncounting ok_pc = tt
PcOk-counted s version n (acquiring old seen) ok_pc = ok_pc
PcOk-counted s version n (linked old seen next_idx) ok_pc = ok_pc
PcOk-counted s version n (counting index) ok_pc = tt
PcOk-counted s version n (releasing index old seen) ok_pc = ok_pc
PcOk-counted s version n (stored index old seen) ok_pc = ok_pc

module _ {s : System} {free : List ℕ} (k : IsConsistent s free) (t : ℕ) (h : t < length s.threads)
    (x : Thread) (at : thread s t ≡ x) where
  pub rebuild :
      (r : UniqueIndexSet) (th : Thread) (updated : Bool) (free' : List ℕ)
      → length r.next ≡ s.index_set.capacity
      → r.capacity ≡ s.index_set.capacity
      → Chain r.next (extract_head r.head) free'
      → extract_tag r.head ≡ (after s t r th updated).version % 2 ^ 32
      → ((i : ℕ) → count i free' + owns i th ≡ count i free + owns i x)
      → r.borrowed < 2 ^ 32
      → (r.borrowed + length free' + in_due th + out_due x) % 2 ^ 32
        ≡ (s.index_set.borrowed + length free + in_due x + out_due th) % 2 ^ 32
      → PcOk r (after s t r th updated).version th.pc
      → ((u : ℕ)
          → u < length s.threads
          → t ≢ u
          → PcOk s.index_set s.version (thread s u).pc
          → PcOk r (after s t r th updated).version (thread s u).pc)
      → IsConsistent (after s t r th updated) free'
  rebuild r th updated free' sized cap chain tag tally counter account ok_pc others = record {
    sized = sized ∙ sym cap;
    small = omega (arith, k.small);
    chain = chain;
    tag = tag;
    tallied = λ i.
        let moved = total-set (owns i) s.threads t th h in
        let here : owns i (thread s t) ≡ owns i x = ap (λ y. owns i y) at in
        let same : count i free' + total (owns i) (set s.threads t th)
            ≡ count i free + total (owns i) s.threads =
          omega (arith, tally i) in
        subst (λ c. Tally c i (count i free' + total (owns i) (set s.threads t th))) (sym cap)
          (subst (λ n. Tally s.index_set.capacity i n) (sym same) (k.tallied i));
    counter = counter;
    accounted =
        let moved_in = total-set in_due s.threads t th h in
        let moved_out = total-set out_due s.threads t th h in
        let here_in : in_due (thread s t) ≡ in_due x = ap in_due at in
        let here_out : out_due (thread s t) ≡ out_due x = ap out_due at in
        omega (arith, account, k.accounted, cap);
    sane = λ u h'. elim (ℕ_discrete t u) [
      | yes e ↦
          subst
            (λ v.
              PcOk r (after s t r th updated).version (get_or (set s.threads t th) v resting).pc)
            e (rw (get_or-set_self s.threads t th resting h) ok_pc)
      | no ne ↦
          let h'' : u < length s.threads = omega (arith, length-set {0} s.threads t th) in
          rw (get_or-set_ne s.threads t u th resting ne) (others u h'' ne (k.sane u h''))
    ];
  }

  -- An access that leaves the set as it is.
  pub unchanged :
      (th : Thread)
      → ((i : ℕ) → owns i th ≡ owns i x)
      → in_due th + out_due x ≡ in_due x + out_due th
      → PcOk s.index_set s.version th.pc
      → IsConsistent (after s t s.index_set th false) free
  unchanged th tally account ok_pc =
      rebuild s.index_set th false free k.sized refl k.chain k.tag (λ i. omega (arith, tally i))
        k.counter (omega (arith, account)) ok_pc (λ u h' ne o. o)
