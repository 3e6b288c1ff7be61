-- ===== src/Lockfree/MpmcContainer/Slots.antt =====
-- The container of mpmc_container.rs as a map from slots to values: its invariant and what adding,
-- removing and reading do.
use entangle.Prelude.{
  ℕ, ◌+◌, ◌*◌, ◌%◌, ◌^◌, ◌<◌, ◌≡◌, refl, sym, ◌∙◌, ◌≢◌, inl, inr, Option, none, some, List, ◌∷◌,
  arith, ℕ_discrete, ◌==◌, if◌then◌else◌, eq→==, ne→==, Bool-cases, length, get_or, set, length-set,
  get_elem?-eq-get_or, get_or-set_self, get_or-set_ne, store-in_range, count, count_self,
  All-ne_of_count,
}
use entangle.Prelude.Bits.{bit_or-disjoint}
use entangle.Lockfree.AtomicBitSet.Members.{
  IsValid as IsValidBits, member, set_bit-Leaves, clear-Leaves, is_set-member,
}
use entangle.Lockfree.IndexSet.Inv.{Chain, Chain-set}
use entangle.Lockfree.IndexSet.Refine.{Chain-head-lt}
use entangle.Lockfree.MpmcContainer.{
  MpmcContainer, last, pack_head, extract_head, extract_tag, alloc_slot, free_slot, add, remove,
  get,
}

extract_head-pack_head : (h t : ℕ) → h < 2 ^ 32 → t < 2 ^ 32 → extract_head (pack_head h t) ≡ h
extract_head-pack_head h t lh lt =
    let small : h * 2 ^ 32 % 2 ^ 64 ≡ h * 2 ^ 32 = omega arith in
    rw (small, bit_or-disjoint 32 h t lt) (omega arith)

-- Each slot is free or in use.
pub record IsValid (c : MpmcContainer) (free : List ℕ) : Type 0 where
  pub linked : length c.next ≡ c.capacity
  pub stored : length c.values ≡ c.capacity
  pub small : c.capacity < last
  pub chain : Chain c.next (extract_head c.free_head) free
  pub bits : IsValidBits (c.occupied)
  pub same_capacity : c.occupied.capacity ≡ c.capacity
  pub once : (i : ℕ) → i < c.capacity → count i free + member i (c.occupied) ≡ 1

-- What a slot holds.
abbrev pub held : MpmcContainer → ℕ → Option ℕ
held c i = if member i (c.occupied) == 1 then some (get_or c.values i 0) else none

pub get-held :
    {c : MpmcContainer} (free : List ℕ) (i : ℕ)
    → IsValid c free
    → i < c.capacity
    → get i c ≡ some (held c i)
unfolding get
get-held {c} free i v lt =
    let in_use = is_set-member i v.bits (omega (arith, v.same_capacity)) in
    elim (Bool-cases (member i (c.occupied) == 1)) [
      | inl on ↦ rw (in_use, on, get_elem?-eq-get_or c.values i 0 (omega (arith, v.stored))) refl
      | inr off ↦ rw (in_use, off) refl
    ]

skip_taken : (i k : ℕ) (free : List ℕ) → k ≢ i → count k (i ∷ free) ≡ count k free
skip_taken i k free ne = rw (ne→== i k (λ e. ne (sym e))) (omega arith)

-- On a valid container whose first free slot is i, add answers i, and the new container is valid
-- with the other free slots; slot i held nothing before and holds the value now, and every other
-- slot below the capacity holds what it held.
pub add-held :
    {c : MpmcContainer} (value i j : ℕ) (free : List ℕ)
    → IsValid c (i ∷ free)
    → i < c.capacity
    → j < c.capacity
    → (c' : MpmcContainer) × (add value c ≡ some (some i, c'))
      × IsValid c' free
      × (get i c ≡ some none)
      × (get j c' ≡ some (if j == i then some value else held c j))
unfolding add alloc_slot
add-held {c} value i j free v lt lt' =
    let n = get_or c.next i 0 in
    let here = count_self i free in
    let off : member i (c.occupied) ≡ 0 = omega (arith, v.once i lt) in
    let (bits', done, (bits_ok, cap', now)) =
      set_bit-Leaves i v.bits (omega (arith, v.same_capacity)) in
    let c' : MpmcContainer = record {
      values = set c.values i value;
      occupied = bits';
      free_head = pack_head n ((extract_tag c.free_head + 1) % 2 ^ 32);
      next = c.next;
      capacity = c.capacity;
    } in
    let v' : IsValid c' free = record {
      linked = v.linked;
      stored = length-set c.values i value ∙ v.stored;
      small = v.small;
      chain =
          rw
            (extract_head-pack_head n ((extract_tag c.free_head + 1) % 2 ^ 32)
              (Chain-head-lt c.next n free (omega (arith, v.linked, v.small)) v.chain.2)
              (omega arith))
            (v.chain.2);
      bits = bits_ok;
      same_capacity = cap' ∙ v.same_capacity;
      once = λ k small. elim (ℕ_discrete k i) [
        | yes e ↦ rw (now k, eq→== k i e) (rw e (omega (arith, here, v.once i lt)))
        | no ne ↦ rw (now k, ne→== k i ne) (omega (arith, skip_taken i k free ne, v.once k small))
      ];
    } in
    (
      c',
      rw
          (
            v.chain.0,
            ne→== i last (omega (arith, v.small)),
            get_elem?-eq-get_or c.next i 0 v.chain.1,
            store-in_range c.values i value (omega (arith, v.stored)),
            done,
          )
          refl,
      v',
      get-held (i ∷ free) i v lt ∙ rw off refl,
      get-held free j v' lt' ∙ elim (ℕ_discrete j i) [
        | yes e ↦
            rw (now j, eq→== j i e)
              (rw e (rw (get_or-set_self c.values i value 0 (omega (arith, v.stored))) refl))
        | no ne ↦
            rw (now j, ne→== j i ne, get_or-set_ne c.values i j value 0 (λ e. ne (sym e))) refl
      ],
    )

-- Removing a slot that is in use.
remove_used :
    {c : MpmcContainer} (i : ℕ) (free : List ℕ)
    → IsValid c free
    → i < c.capacity
    → member i (c.occupied) ≡ 1
    → (c' : MpmcContainer) × (remove i c ≡ some (some (get_or c.values i 0), c'))
      × IsValid c' (i ∷ free)
      × ((j : ℕ) → j < c.capacity → get j c' ≡ some (if j == i then none else held c j))
unfolding remove free_slot
remove_used {c} i free v lt on =
    let head = extract_head c.free_head in
    let (bits', done, (bits_ok, cap', now)) =
      clear-Leaves i v.bits (omega (arith, v.same_capacity)) in
    let c' : MpmcContainer = record {
      values = c.values;
      occupied = bits';
      free_head = pack_head i ((extract_tag c.free_head + 1) % 2 ^ 32);
      next = set c.next i head;
      capacity = c.capacity;
    } in
    let v' : IsValid c' (i ∷ free) = record {
      linked = length-set c.next i head ∙ v.linked;
      stored = v.stored;
      small = v.small;
      chain = (
        extract_head-pack_head i ((extract_tag c.free_head + 1) % 2 ^ 32) (omega (arith, v.small))
            (omega arith),
        omega (arith, length-set {0} c.next i head, v.linked),
        rw (get_or-set_self c.next i head 0 (omega (arith, v.linked))) (
            Chain-set c.next i head head free
              (All-ne_of_count i free (omega (arith, v.once i lt, on))) v.chain),
      );
      bits = bits_ok;
      same_capacity = cap' ∙ v.same_capacity;
      once = λ k small. elim (ℕ_discrete k i) [
        | yes e ↦
            let none_left : count k free ≡ 0 = rw e (omega (arith, v.once i lt, on)) in
            rw (now k, eq→== k i e, eq→== i k (sym e)) (omega (arith, none_left))
        | no ne ↦ rw (now k, ne→== k i ne) (omega (arith, skip_taken i k free ne, v.once k small))
      ];
    } in
    (
      c',
      rw
          (
            done,
            eq→== (member i (c.occupied)) 1 on,
            get_elem?-eq-get_or c.values i 0 (omega (arith, v.stored)),
            store-in_range c.next i head (omega (arith, v.linked)),
          )
          refl,
      v',
      λ j small. elim (ℕ_discrete j i) [
        | yes e ↦ get-held (i ∷ free) j v' small ∙ rw (now j, eq→== j i e) refl
        | no ne ↦ get-held (i ∷ free) j v' small ∙ rw (now j, ne→== j i ne) refl
      ],
    )

-- Removing a slot that is free.
remove_unused :
    {c : MpmcContainer} (i : ℕ) (free : List ℕ)
    → IsValid c free
    → i < c.capacity
    → member i (c.occupied) ≢ 1
    → (c' : MpmcContainer) × (remove i c ≡ some (none, c'))
      × IsValid c' free
      × ((j : ℕ) → j < c.capacity → get j c' ≡ some (if j == i then none else held c j))
unfolding remove
remove_unused {c} i free v lt other =
    let off = ne→== (member i (c.occupied)) 1 other in
    let (bits', done, (bits_ok, cap', now)) =
      clear-Leaves i v.bits (omega (arith, v.same_capacity)) in
    let before : member i (c.occupied) ≡ 0 = omega (arith, other, v.once i lt) in
    let c' : MpmcContainer = record c { occupied = bits' } in
    let v' : IsValid c' free = record {
      linked = v.linked;
      stored = v.stored;
      small = v.small;
      chain = v.chain;
      bits = bits_ok;
      same_capacity = cap' ∙ v.same_capacity;
      once = λ k small. elim (ℕ_discrete k i) [
        | yes e ↦
            let here : count k free ≡ 1 = rw e (omega (arith, v.once i lt, before)) in
            rw (now k, eq→== k i e) (omega (arith, here))
        | no ne ↦ rw (now k, ne→== k i ne) (v.once k small)
      ];
    } in
    (
      c',
      rw (done, off) refl,
      v',
      λ j small. elim (ℕ_discrete j i) [
        | yes e ↦ get-held free j v' small ∙ rw (now j, eq→== j i e) refl
        | no ne ↦ get-held free j v' small ∙ rw (now j, ne→== j i ne) refl
      ],
    )

-- On a valid container, removing a slot below the capacity answers what the slot held, if
-- anything, and the new container is valid; a slot that was in use is the first free one; the
-- slot holds nothing afterwards, and every other slot below the capacity holds what it held.
pub remove-held :
    {c : MpmcContainer} (i j : ℕ) (free : List ℕ)
    → IsValid c free
    → i < c.capacity
    → j < c.capacity
    → (c' : MpmcContainer) × (remove i c ≡ some (held c i, c'))
      × IsValid c' (if member i (c.occupied) == 1 then i ∷ free else free)
      × (get j c' ≡ some (if j == i then none else held c j))
unfolding remove
remove-held {c} i j free v lt lt' = elim (ℕ_discrete (member i (c.occupied)) 1) [
  | yes on ↦
      let (c', run, v', holds) = remove_used i free v lt on in
      (
        c',
        run ∙ rw (eq→== (member i (c.occupied)) 1 on) refl,
        rw (eq→== (member i (c.occupied)) 1 on) v',
        holds j lt',
      )
  | no other ↦
      let off = ne→== (member i (c.occupied)) 1 other in
      let (c', run, v', holds) = remove_unused i free v lt other in
      (c', run ∙ rw off refl, rw off v', holds j lt')
]
