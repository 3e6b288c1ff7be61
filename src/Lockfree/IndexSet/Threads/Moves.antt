-- ===== src/Lockfree/IndexSet/Threads/Moves.antt =====
-- The accesses of `acquire` and `release` one by one: each succeeds and keeps the threads right.
use entangle.Prelude.{
  ℕ, ◌+◌, ◌-◌, ◌%◌, ◌^◌, ◌<◌, ◌≡◌, refl, sym, ap, ◌∙◌, ◌≢◌, inl, inr, Bool, true, false, not, ◌&&◌,
  some, List, [], ◌∷◌, arith, ℕ_discrete, ◌==◌, ==→eq, eq→==, ne→==, Bool-cases, length, get_or,
  set, length-set, get_elem?-eq-get_or, get_or-set_self, store-in_range, All, count_self,
}
use entangle.Lockfree.IndexSet.{UniqueIndexSet, sentinel, pack, extract_head, extract_tag}
use entangle.Lockfree.IndexSet.Inv.{Chain, Chain-set}
use entangle.Lockfree.IndexSet.Refine.{Chain-head-lt}
use entangle.Lockfree.IndexSet.Words.{extract_head-pack, pack-fields}
use entangle.Lockfree.IndexSet.Threads.{
  Pc, idle, refused, uncounting, acquiring, linked, counting, releasing, stored, Thread, System,
  thread, after, thread_next,
}
use entangle.Lockfree.IndexSet.Threads.Inv.{
  owns, PcOk, IsConsistent, owned_ne_free, owned_apart, head-SeenOk,
}
use entangle.Lockfree.IndexSet.Threads.Steps.{
  PcOk-updated, PcOk-link, PcOk-counted, rebuild, unchanged,
}

-- The outcome of an access of a thread at `pc` that holds `held`.
abbrev pub Moves : System → ℕ → Bool → Pc → List ℕ → Type 0
Moves s t spurious pc held =
    (r : UniqueIndexSet) × (th : Thread) × (updated : Bool) × (free : List ℕ) × (thread_next
        spurious s.index_set s.version pc held
      ≡ some (r, th, updated))
    × IsConsistent (after s t r th updated) free

-- A compare-exchange that succeeds found the word that was loaded.
exchange_hit : (a : Bool) (head old : ℕ) → (a && (head == old)) ≡ true → head ≡ old
exchange_hit true head old e = ==→eq head old e
exchange_hit false head old e = absurd (ground arith)

tag_lem :
    (n old version : ℕ)
    → n < 2 ^ 32
    → extract_tag old ≡ version % 2 ^ 32
    → extract_tag (pack n ((extract_tag old + 1) % 2 ^ 32)) ≡ (version + 1) % 2 ^ 32
tag_lem n old version lt e =
    (pack-fields n ((extract_tag old + 1) % 2 ^ 32) lt (omega arith)).1 ∙ omega arith

-- The head is taken off the free list.
take_head :
    {s : System} (free : List ℕ) (t : ℕ) (old seen next_idx : ℕ) (held : List ℕ)
    → IsConsistent s free
    → t < length s.threads
    → thread s t ≡ record { pc = linked old seen next_idx; held = held }
    → PcOk s.index_set s.version (linked old seen next_idx)
    → s.version < 2 ^ 32
    → s.index_set.head ≡ old
    → (free' : List ℕ) × IsConsistent
        (after s t
          (record s.index_set { head = pack next_idx ((extract_tag old + 1) % 2 ^ 32) })
          (record { pc = counting (extract_head old); held = held })
          true)
        free'
take_head [] t old seen next_idx held k h at (ok_s, ne, same) bound hit =
    absurd (ne (ap extract_head (sym hit) ∙ k.chain))
take_head {s} (i ∷ free) t old seen next_idx held k h at (ok_s, ne, same) bound hit =
    let first : extract_head old ≡ i = ap extract_head (sym hit) ∙ k.chain.0 in
    let tags : seen % 2 ^ 32 ≡ s.version % 2 ^ 32 = sym ok_s.1 ∙ ap extract_tag (sym hit) ∙ k.tag in
    let current : seen ≡ s.version = omega (arith, ok_s.0) in
    let link : next_idx ≡ get_or s.index_set.next i 0 =
      same current ∙ ap (λ j. get_or s.index_set.next j 0) first in
    let small : next_idx < 2 ^ 32 =
      rw link (Chain-head-lt s.index_set.next _ free (omega (arith, k.sized, k.small)) k.chain.2) in
    (
      free,
      rebuild k t h (record { pc = linked old seen next_idx; held = held }) at
          (record s.index_set { head = pack next_idx ((extract_tag old + 1) % 2 ^ 32) })
          (record { pc = counting (extract_head old); held = held }) true free k.sized refl
          (rw (extract_head-pack next_idx ((extract_tag old + 1) % 2 ^ 32) small, link) k.chain.2)
          (tag_lem next_idx old s.version small (ap extract_tag (sym hit) ∙ k.tag))
          (λ j. rw first (omega arith)) k.counter (omega arith) tt
          (λ u h' apart o.
            PcOk-updated s.index_set s.version (pack next_idx ((extract_tag old + 1) % 2 ^ 32))
              (thread s u).pc o),
    )

-- A released index is put on top of the free list.
put_head :
    {s : System} (free : List ℕ) (t : ℕ) (index old seen : ℕ) (held : List ℕ)
    → IsConsistent s free
    → t < length s.threads
    → thread s t ≡ record { pc = stored index old seen; held = held }
    → PcOk s.index_set s.version (stored index old seen)
    → s.index_set.head ≡ old
    → IsConsistent
        (after s t
          (record s.index_set { head = pack index ((extract_tag old + 1) % 2 ^ 32) })
          (record { pc = uncounting; held = held })
          true)
        (index ∷ free)
put_head {s} free t index old seen held k h at (ok_s, lt, link) hit =
    let small : index < 2 ^ 32 = omega (arith, k.small) in
    rebuild k t h (record { pc = stored index old seen; held = held }) at
      (record s.index_set { head = pack index ((extract_tag old + 1) % 2 ^ 32) })
      (record { pc = uncounting; held = held }) true (index ∷ free) k.sized refl
      (
        extract_head-pack index ((extract_tag old + 1) % 2 ^ 32) small,
        omega (arith, k.sized),
        rw (link, sym (ap extract_head hit)) k.chain,
      )
      (tag_lem index old s.version small (ap extract_tag (sym hit) ∙ k.tag)) (λ j. omega arith)
      k.counter (omega arith) tt
      (λ u h' apart o.
        PcOk-updated s.index_set s.version (pack index ((extract_tag old + 1) % 2 ^ 32))
          (thread s u).pc o)

-- A link is stored in the slot of an index that the thread has in hand.
link_slot :
    {s : System} (free : List ℕ) (t : ℕ) (index old seen : ℕ) (held : List ℕ)
    → IsConsistent s free
    → t < length s.threads
    → thread s t ≡ record { pc = releasing index old seen; held = held }
    → PcOk s.index_set s.version (releasing index old seen)
    → IsConsistent
        (after s t
          (record s.index_set { next = set s.index_set.next index (extract_head old) })
          (record { pc = stored index old seen; held = held })
          false)
        free
link_slot {s} free t index old seen held k h at (ok_s, lt) =
    let own : 0 < owns index (thread s t) = rw (at, count_self index []) (omega arith) in
    let out = owned_ne_free k index t own h in
    rebuild k t h (record { pc = releasing index old seen; held = held }) at
      (record s.index_set { next = set s.index_set.next index (extract_head old) })
      (record { pc = stored index old seen; held = held }) false free
      (length-set s.index_set.next index (extract_head old) ∙ k.sized) refl
      (Chain-set s.index_set.next index (extract_head old) _ free out k.chain) k.tag (λ j. refl)
      k.counter refl
      (
        ok_s,
        lt,
        get_or-set_self s.index_set.next index (extract_head old) 0 (omega (arith, k.sized)),
      )
      (λ u h' apart o.
        PcOk-link s.index_set s.version index (extract_head old) (thread s u).pc
          (head_apart s.index_set.next _ free k.chain out)
          (λ j pos. owned_apart k j index u t (λ e. apart (sym e)) h' h (omega arith) own) o)
  where
    head_apart :
        (next : List ℕ) (hd : ℕ) (xs : List ℕ)
        → Chain next hd xs
        → All (λ j. j ≢ index) xs
        → hd ≢ sentinel
        → hd ≢ index
    head_apart next hd [] c a ne e = ne c
    head_apart next hd (i ∷ xs) c a ne e = a.0 (sym c.0 ∙ e)

-- Every access of every thread, whatever the others are doing.
pub thread_next-Moves :
    {s : System} (free : List ℕ) (t : ℕ) (spurious : Bool) (pc : Pc) (held : List ℕ)
    → IsConsistent s free
    → t < length s.threads
    → thread s t ≡ record { pc = pc; held = held }
    → PcOk s.index_set s.version pc
    → s.version < 2 ^ 32
    → Moves s t spurious pc held
unfolding thread_next
thread_next-Moves {s} free t spurious idle held k h at ok_pc bound = (
  s.index_set,
  record { pc = idle; held = held },
  false,
  free,
  refl,
  unchanged k t h _ at (record { pc = idle; held = held }) (λ i. refl) refl tt,
)
thread_next-Moves {s} free t spurious refused held k h at ok_pc bound = (
  s.index_set,
  record { pc = refused; held = held },
  false,
  free,
  refl,
  unchanged k t h _ at (record { pc = refused; held = held }) (λ i. refl) refl tt,
)
thread_next-Moves {s} free t spurious (acquiring old seen) held k h at ok_pc bound =
    elim (ℕ_discrete (extract_head old) sentinel) [
      | yes e ↦ (
        s.index_set,
        record { pc = refused; held = held },
        false,
        free,
        rw (eq→== _ _ e) refl,
        unchanged k t h _ at (record { pc = refused; held = held }) (λ i. refl) refl tt,
      )
      | no ne ↦
          let next_idx = get_or s.index_set.next (extract_head old) 0 in
          let lt : extract_head old < length s.index_set.next = omega (arith, k.sized, ok_pc.2) in
          (
            s.index_set,
            record { pc = linked old seen next_idx; held = held },
            false,
            free,
            rw (ne→== _ _ ne, get_elem?-eq-get_or s.index_set.next (extract_head old) 0 lt) refl,
            unchanged k t h _ at (record { pc = linked old seen next_idx; held = held }) (λ i. refl)
                refl (ok_pc, ne, λ e. refl),
          )
    ]
thread_next-Moves {s} free t spurious (linked old seen next_idx) held k h at ok_pc bound =
    elim (Bool-cases (not spurious && (s.index_set.head == old))) [
      | inl hit ↦
          let (free', k') =
            take_head free t old seen next_idx held k h at ok_pc bound
              (exchange_hit (not spurious) s.index_set.head old hit) in
          (_, _, true, free', rw hit refl, k')
      | inr miss ↦ (
        s.index_set,
        record { pc = acquiring s.index_set.head s.version; held = held },
        false,
        free,
        rw miss refl,
        unchanged k t h _ at (record { pc = acquiring s.index_set.head s.version; held = held })
            (λ i. refl) refl (head-SeenOk k),
      )
    ]
thread_next-Moves {s} free t spurious (counting index) held k h at ok_pc bound =
    let n = (s.index_set.borrowed + 1) % 2 ^ 32 in
    (
      record s.index_set { borrowed = n },
      record { pc = idle; held = index ∷ held },
      false,
      free,
      refl,
      rebuild k t h _ at (record s.index_set { borrowed = n })
          (record { pc = idle; held = index ∷ held }) false free k.sized refl k.chain k.tag
          (λ j. omega arith) (omega arith) (omega arith) tt
          (λ u h' apart o. PcOk-counted s.index_set s.version n (thread s u).pc o),
    )
thread_next-Moves {s} free t spurious (releasing index old seen) held k h at ok_pc bound = (
  _,
  _,
  false,
  free,
  rw (store-in_range s.index_set.next index (extract_head old) (omega (arith, k.sized, ok_pc.1)))
      refl,
  link_slot free t index old seen held k h at ok_pc,
)
thread_next-Moves {s} free t spurious (stored index old seen) held k h at ok_pc bound =
    elim (Bool-cases (not spurious && (s.index_set.head == old))) [
      | inl hit ↦ (
        _,
        _,
        true,
        index ∷ free,
        rw hit refl,
        put_head free t index old seen held k h at ok_pc
            (exchange_hit (not spurious) s.index_set.head old hit),
      )
      | inr miss ↦ (
        s.index_set,
        record { pc = releasing index s.index_set.head s.version; held = held },
        false,
        free,
        rw miss refl,
        unchanged k t h _ at
            (record { pc = releasing index s.index_set.head s.version; held = held }) (λ i. refl)
            refl (head-SeenOk k, ok_pc.1),
      )
    ]
thread_next-Moves {s} free t spurious uncounting held k h at ok_pc bound =
    let n = (s.index_set.borrowed + 2 ^ 32 - 1) % 2 ^ 32 in
    (
      record s.index_set { borrowed = n },
      record { pc = idle; held = held },
      false,
      free,
      refl,
      rebuild k t h _ at (record s.index_set { borrowed = n }) (record { pc = idle; held = held })
          false free k.sized refl k.chain k.tag (λ j. refl) (omega arith) (omega (arith, k.counter))
          tt (λ u h' apart o. PcOk-counted s.index_set s.version n (thread s u).pc o),
    )
