-- ===== src/Prelude/Counts.antt =====
-- How often a number stands in a list, and what follows for lists that hold each number at most once.
use Prim.Native.Nat.{ℕ, zero, suc, ◌+◌, ◌≤◌, ◌<◌}
use mathlib.Core.Path.{◌≡◌, refl}
use mathlib.Core.Logic.{◌≢◌}
use mathlib.Core.List.{List, [], ◌∷◌, ◌++◌}
use native.Mathlib.Decide.{dec_lt, ℕ_discrete}
use native.Mathlib.Omega.{arith}
use entangle.Prelude.Tests.{◌==◌, if◌then◌else◌, eq→==, ne→==}
use entangle.Prelude.Lists.{length, All, Distinct, pigeonhole, range_from}

abbrev pub count : ℕ → List ℕ → ℕ
count i [] = 0
count i (x ∷ xs) = (if x == i then 1 else 0) + count i xs

pub count-append : (i : ℕ) (xs ys : List ℕ) → count i (xs ++ ys) ≡ count i xs + count i ys
count-append i [] ys = omega arith
count-append i (x ∷ xs) ys = omega (arith, count-append i xs ys)

pub count_self : (i : ℕ) (xs : List ℕ) → count i (i ∷ xs) ≡ suc (count i xs)
count_self i xs = rw (eq→== i i refl) (omega arith)

pub All-ne_of_count : (i : ℕ) (xs : List ℕ) → count i xs ≡ 0 → All (λ j. j ≢ i) xs
All-ne_of_count i [] h = tt
All-ne_of_count i (x ∷ xs) h = elim (ℕ_discrete x i) [
  | yes e ↦
      absurd (let h' : count i (x ∷ xs) ≡ 0 = h in let one = rw (eq→== x i e) at h in omega arith)
  | no ne ↦ (ne, All-ne_of_count i xs (omega arith))
]

pub Distinct-of_count : (xs : List ℕ) → ((i : ℕ) → count i xs ≤ 1) → Distinct xs
Distinct-of_count [] h = tt
Distinct-of_count (x ∷ xs) h = (
  All-ne_of_count x xs (omega (arith, h x, count_self x xs)),
  Distinct-of_count xs (λ i. omega (arith, h i)),
)

pub All-lt_of_count :
    (bound : ℕ) (xs : List ℕ) → ((i : ℕ) → bound ≤ i → count i xs ≡ 0) → All (λ i. i < bound) xs
All-lt_of_count bound [] h = tt
All-lt_of_count bound (x ∷ xs) h = (
  elim (dec_lt x bound) [
    | yes lt ↦ lt
    | no ge ↦ absurd (omega (arith, h x (omega arith), count_self x xs))
  ],
  All-lt_of_count bound xs (λ i ge. omega (arith, h i ge)),
)

-- Numbers below a bound, each at most once: no more of them than the bound.
pub length-le_of_count :
    (bound : ℕ) (xs : List ℕ)
    → ((i : ℕ) → count i xs ≤ 1)
    → ((i : ℕ) → bound ≤ i → count i xs ≡ 0)
    → length xs ≤ bound
length-le_of_count bound xs once below =
    pigeonhole bound xs (Distinct-of_count xs once) (All-lt_of_count bound xs below)

-- A range holds each number within its bounds once, and no other.
pub count-range_from :
    (start n i : ℕ)
    → (start ≤ i → i < start + n → count i (range_from start n) ≡ 1)
      × (start + n ≤ i → count i (range_from start n) ≡ 0)
      × (i < start → count i (range_from start n) ≡ 0)
count-range_from start zero i = (λ ge lt. absurd (omega arith), λ h. refl, λ h. refl)
count-range_from start (suc n) i =
    let (within, above, below) = count-range_from (suc start) n i in
    (
      λ ge lt. elim (ℕ_discrete start i) [
        | yes e ↦ rw (eq→== start i e) (omega (arith, below (omega arith)))
        | no ne ↦ rw (ne→== start i ne) (omega (arith, within (omega arith) (omega arith)))
      ],
      λ h. rw (ne→== start i (omega arith)) (omega (arith, above (omega arith))),
      λ h. rw (ne→== start i (omega arith)) (omega (arith, below (omega arith))),
    )
