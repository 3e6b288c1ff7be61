-- ===== src/Lockfree/AtomicBitSet/Members.antt =====
-- The bitset is a set of the indices below its capacity.
use entangle.Prelude.{
  ℕ, ◌+◌, ◌*◌, ◌/◌, ◌%◌, ◌^◌, ◌<◌, bit_and, bit_or, ◌≡◌, refl, sym, ap, ◌∙◌, ◌⊎◌, inl, inr, Bool,
  true, false, Option, some, arith, ℕ_discrete, ltb, ◌==◌, if◌then◌else◌, lt→ltb, eq→==, ne→==,
  length, get_elem?, get_or, set, length-set, get_elem?-eq-get_or, get_or-set_self, get_or-set_ne,
}
use entangle.Prelude.Digits.{
  bit, bit-le, bit-bit_or, bit-bit_and, bit_self-pow, bit_other-pow, bit_self-complement,
  bit_other-complement, bit_and-pow,
}
use native.Mathlib.Nat.{one-le-pow}
use entangle.Lockfree.AtomicBitSet.{AtomicBitSet, bit_of, complement, set_bit, clear, is_set}

pub record IsValid (b : AtomicBitSet) : Type 0 where
  pub sized : length b.words ≡ (b.capacity + 63) / 64

-- 1 for a member, 0 for the others.
abbrev pub member : ℕ → AtomicBitSet → ℕ
member i b = bit (i % 64) (get_or b.words (i / 64) 0)

word_at :
    {b : AtomicBitSet} (i : ℕ)
    → IsValid b
    → i < b.capacity
    → (ltb i b.capacity ≡ true) × (get_elem? b.words (i / 64) ≡ some (get_or b.words (i / 64) 0))
word_at {b} i v lt =
    (lt→ltb i b.capacity lt, get_elem?-eq-get_or b.words (i / 64) 0 (omega (arith, v.sized)))

-- The test of a bit.
test_zero : (i w : ℕ) → bit (i % 64) w ≡ 0 → (bit_and w (bit_of i) == 0) ≡ true
test_zero i w e = eq→== (bit_and w (bit_of i)) 0 (bit_and-pow (i % 64) w ∙ rw e (omega arith))

test_one : (i w : ℕ) → bit (i % 64) w ≡ 1 → (bit_and w (bit_of i) == 0) ≡ false
test_one i w e =
    let some_bit : bit_and w (bit_of i) ≡ 1 * 2 ^ (i % 64) = bit_and-pow (i % 64) w ∙ rw e refl in
    ne→== (bit_and w (bit_of i)) 0 (λ z. absurd (omega (arith, some_bit, z, one-le-pow (i % 64) 2)))

bit_cases : (k w : ℕ) → (bit k w ≡ 0) ⊎ (bit k w ≡ 1)
bit_cases k w = elim (ℕ_discrete (bit k w) 0) [
  | yes e ↦ inl e
  | no ne ↦ inr (omega (arith, bit-le k w))
]

pub is_set-member :
    {b : AtomicBitSet} (i : ℕ) → IsValid b → i < b.capacity → is_set i b ≡ some (member i b == 1)
unfolding is_set
is_set-member {b} i v lt =
    let (inside, at) = word_at i v lt in
    elim (bit_cases (i % 64) (get_or b.words (i / 64) 0)) [
      | inl off ↦ rw (inside, at, test_zero i (get_or b.words (i / 64) 0) off, off) refl
      | inr on ↦ rw (inside, at, test_one i (get_or b.words (i / 64) 0) on, on) refl
    ]

-- A word with one bit changed, in its place.
change :
    (b : AtomicBitSet) (i j w x : ℕ)
    → i / 64 < length b.words
    → ((k : ℕ) → k < 64 → bit k w ≡ (if k == i % 64 then x else bit k (get_or b.words (i / 64) 0)))
    → member j (record b { words = set b.words (i / 64) w }) ≡ (if j == i then x else member j b)
change b i j w x inside bits = elim (ℕ_discrete (i / 64) (j / 64)) [
  | yes same ↦
      rw (← same, get_or-set_self b.words (i / 64) w 0 inside, bits (j % 64) (omega arith))
        (elim (ℕ_discrete j i) [
          | yes e ↦ rw (eq→== j i e, eq→== (j % 64) (i % 64) (ap (λ (n : ℕ). n % 64) e)) refl
          | no ne ↦ rw (ne→== j i ne, ne→== (j % 64) (i % 64) (λ z. ne (omega arith))) refl
        ])
  | no apart ↦
      rw
        (
          get_or-set_ne b.words (i / 64) (j / 64) w 0 apart,
          ne→== j i (λ e. apart (ap (λ (n : ℕ). n / 64) (sym e))),
        )
        refl
]

-- What an operation on index `i` leaves: it is a member or not, as `x` says, and the others stay.
abbrev pub Leaves : ℕ → ℕ → AtomicBitSet → AtomicBitSet → Type 0
Leaves i x b b' =
    IsValid b'
    × (b'.capacity ≡ b.capacity)
    × ((j : ℕ) → member j b' ≡ (if j == i then x else member j b))

stays : (b : AtomicBitSet) (i x : ℕ) → IsValid b → member i b ≡ x → Leaves i x b b
stays b i x v e = (
  v,
  refl,
  λ j. elim (ℕ_discrete j i) [
    | yes same ↦ rw (eq→== j i same) (ap (λ k. member k b) same ∙ e)
    | no ne ↦ rw (ne→== j i ne) refl
  ],
)

changes :
    (b : AtomicBitSet) (i w x : ℕ)
    → IsValid b
    → i < b.capacity
    → ((k : ℕ) → k < 64 → bit k w ≡ (if k == i % 64 then x else bit k (get_or b.words (i / 64) 0)))
    → Leaves i x b (record b { words = set b.words (i / 64) w })
changes b i w x v lt bits = (
  record { sized = length-set b.words (i / 64) w ∙ v.sized },
  refl,
  λ j. change b i j w x (omega (arith, v.sized)) bits,
)

pub set_bit-Leaves :
    {b : AtomicBitSet} (i : ℕ)
    → IsValid b
    → i < b.capacity
    → (b' : AtomicBitSet) × (set_bit i b ≡ some (member i b == 0, b')) × Leaves i 1 b b'
unfolding set_bit
set_bit-Leaves {b} i v lt =
    let (inside, at) = word_at i v lt in
    let old = get_or b.words (i / 64) 0 in
    elim (bit_cases (i % 64) old) [
      | inr on ↦ (b, rw (inside, at, test_one i old on, on) refl, stays b i 1 v on)
      | inl off ↦ (
        record b { words = set b.words (i / 64) (bit_or old (bit_of i)) },
        rw (inside, at, test_zero i old off, off) refl,
        changes b i (bit_or old (bit_of i)) 1 v lt (λ k small. elim (ℕ_discrete k (i % 64)) [
          | yes e ↦
              rw (eq→== k (i % 64) e, bit-bit_or k old (bit_of i), e, bit_self-pow (i % 64))
                (omega (arith, bit-le (i % 64) old))
          | no ne ↦
              rw (ne→== k (i % 64) ne, bit-bit_or k old (bit_of i), bit_other-pow k (i % 64) ne)
                (omega arith)
        ]),
      )
    ]

pub clear-Leaves :
    {b : AtomicBitSet} (i : ℕ)
    → IsValid b
    → i < b.capacity
    → (b' : AtomicBitSet) × (clear i b ≡ some (member i b == 1, b')) × Leaves i 0 b b'
unfolding clear
clear-Leaves {b} i v lt =
    let (inside, at) = word_at i v lt in
    let old = get_or b.words (i / 64) 0 in
    elim (bit_cases (i % 64) old) [
      | inl off ↦ (b, rw (inside, at, test_zero i old off, off) refl, stays b i 0 v off)
      | inr on ↦ (
        record b { words = set b.words (i / 64) (bit_and old (complement (bit_of i))) },
        rw (inside, at, test_one i old on, on) refl,
        changes b i (bit_and old (complement (bit_of i))) 0 v lt (λ k small.
            elim (ℕ_discrete k (i % 64)) [
              | yes e ↦
                  rw
                    (
                      eq→== k (i % 64) e,
                      bit-bit_and k old (complement (bit_of i)),
                      e,
                      bit_self-complement 64 (i % 64) (omega arith),
                    )
                    (omega arith)
              | no ne ↦
                  rw
                    (
                      ne→== k (i % 64) ne,
                      bit-bit_and k old (complement (bit_of i)),
                      bit_other-complement 64 k (i % 64) small (omega arith) ne,
                    )
                    (omega (arith, bit-le k old))
            ]),
      )
    ]

-- On a valid bitset with two indices i and j below the capacity, is_set tells whether j is a
-- member; set_bit i answers whether i was no member, and then is_set j is true for j equal to i
-- and else as before; clear i answers whether i was a member, and then is_set j is false for j
-- equal to i and else as before.
pub set_bit-clear-is_set :
    {b : AtomicBitSet} (i j : ℕ)
    → IsValid b
    → i < b.capacity
    → j < b.capacity
    → (b₁ b₀ : AtomicBitSet) × (is_set j b ≡ some (member j b == 1))
      × (set_bit i b ≡ some (member i b == 0, b₁))
      × (is_set j b₁ ≡ some (if j == i then true else member j b == 1))
      × (clear i b ≡ some (member i b == 1, b₀))
      × (is_set j b₀ ≡ some (if j == i then false else member j b == 1))
set_bit-clear-is_set {b} i j v lt lt' =
    let (b₁, done, (v₁, cap₁, now₁)) = set_bit-Leaves i v lt in
    let (b₀, undone, (v₀, cap₀, now₀)) = clear-Leaves i v lt in
    (
      b₁,
      b₀,
      is_set-member j v lt',
      done,
      is_set-member j v₁ (omega (arith, cap₁))
          ∙ ap (λ n. some (n == 1)) (now₁ j)
          ∙ by_test 1 (j == i),
      undone,
      is_set-member j v₀ (omega (arith, cap₀))
          ∙ ap (λ n. some (n == 1)) (now₀ j)
          ∙ by_test 0 (j == i),
    )
  where
    by_test :
        (x : ℕ) (t : Bool)
        → ◌≡◌ {A = Option Bool}
            (some ((if t then x else member j b) == 1))
            (some (if t then x == 1 else member j b == 1))
    by_test x true = refl
    by_test x false = refl
