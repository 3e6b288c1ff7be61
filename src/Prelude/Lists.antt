-- ===== src/Prelude/Lists.antt =====
-- Lists measured and indexed by native numbers, under the library's names.
use Prim.Native.Nat.{ℕ, zero, suc, ◌+◌, ◌≤◌, ◌<◌}
use mathlib.Core.Path.{◌≡◌, refl, ap}
use mathlib.Core.Bool.{true, false}
use native.Mathlib.Decide.{ℕ_discrete as dec_eq}
use entangle.Prelude.Tests.{◌==◌, ltb, if◌then◌else◌, eq→==, ne→==}
use mathlib.Core.Logic.{◌≢◌}
use mathlib.Core.List.{List, [], ◌∷◌, ◌++◌, map}
use mathlib.Core.Option.{Option, none, some}
use native.Mathlib.Omega.{arith}

module _ {ℓ} {A : Type ℓ} where
  abbrev pub length : List A → ℕ
  length [] = 0
  length (x ∷ xs) = suc (length xs)

  abbrev pub get_elem? : List A → ℕ → Option A
  get_elem? [] i = none
  get_elem? (x ∷ xs) zero = some x
  get_elem? (x ∷ xs) (suc i) = get_elem? xs i

  abbrev pub get_or : List A → ℕ → A → A
  get_or [] i d = d
  get_or (x ∷ xs) zero d = x
  get_or (x ∷ xs) (suc i) d = get_or xs i d

  -- A write out of bounds changes nothing.
  abbrev pub set : List A → ℕ → A → List A
  set [] i v = []
  set (x ∷ xs) zero v = v ∷ xs
  set (x ∷ xs) (suc i) v = x ∷ set xs i v

  abbrev pub replicate : ℕ → A → List A
  replicate zero a = []
  replicate (suc n) a = a ∷ replicate n a

  pub length-replicate : (n : ℕ) (a : A) → length (replicate n a) ≡ n
  length-replicate zero a = refl
  length-replicate (suc n) a = ap suc (length-replicate n a)

  pub length-append : (xs ys : List A) → length (xs ++ ys) ≡ length xs + length ys
  length-append [] ys = omega arith
  length-append (x ∷ xs) ys = omega (arith, length-append xs ys)

  pub length-set : (xs : List A) (i : ℕ) (v : A) → length (set xs i v) ≡ length xs
  length-set [] i v = refl
  length-set (x ∷ xs) zero v = refl
  length-set (x ∷ xs) (suc i) v = ap suc (length-set xs i v)

  pub get_elem?-eq-get_or :
      (xs : List A) (i : ℕ) (d : A) → i < length xs → get_elem? xs i ≡ some (get_or xs i d)
  get_elem?-eq-get_or [] i d h = absurd (omega arith)
  get_elem?-eq-get_or (x ∷ xs) zero d h = refl
  get_elem?-eq-get_or (x ∷ xs) (suc i) d h = get_elem?-eq-get_or xs i d (omega arith)

  pub get_or-set_self :
      (xs : List A) (i : ℕ) (v d : A) → i < length xs → get_or (set xs i v) i d ≡ v
  get_or-set_self [] i v d h = absurd (omega arith)
  get_or-set_self (x ∷ xs) zero v d h = refl
  get_or-set_self (x ∷ xs) (suc i) v d h = get_or-set_self xs i v d (omega arith)

  pub get_or-set_ne :
      (xs : List A) (i j : ℕ) (v d : A) → i ≢ j → get_or (set xs i v) j d ≡ get_or xs j d
  get_or-set_ne [] i j v d h = refl
  get_or-set_ne (x ∷ xs) zero zero v d h = absurd (h refl)
  get_or-set_ne (x ∷ xs) zero (suc j) v d h = refl
  get_or-set_ne (x ∷ xs) (suc i) zero v d h = refl
  get_or-set_ne (x ∷ xs) (suc i) (suc j) v d h = get_or-set_ne xs i j v d (λ e. h (ap suc e))

-- To store what is there changes nothing.
pub set-get_or_self {ℓ} : {A : Type ℓ} (xs : List A) (i : ℕ) (d : A) → set xs i (get_or xs i d) ≡ xs
set-get_or_self [] i d = refl
set-get_or_self (x ∷ xs) zero d = refl
set-get_or_self (x ∷ xs) (suc i) d = ap (λ l. x ∷ l) (set-get_or_self xs i d)

-- An indexed store with Rust's bounds check: `none` is the panic.
abbrev pub store {ℓ} : {A : Type ℓ} → List A → ℕ → A → Option (List A)
store xs i v = if ltb i (length xs) then some (set xs i v) else none

pub store-in_range {ℓ} :
    {A : Type ℓ} (xs : List A) (i : ℕ) (v : A) → i < length xs → store xs i v ≡ some (set xs i v)
store-in_range xs i v h = ground arith

-- `(start..start + n)`.
abbrev pub range_from : ℕ → ℕ → List ℕ
range_from start zero = []
range_from start (suc n) = start ∷ range_from (suc start) n

-- A predicate on every element, and pairwise distinct elements; both compute to tuples.
abbrev pub All {ℓ κ} : {A : Type ℓ} → (A → Type κ) → List A → Type κ
All P [] = Unit
All P (x ∷ xs) = P x × All P xs

abbrev pub Distinct : List ℕ → Type 0
Distinct [] = Unit
Distinct (x ∷ xs) = All (λ y. y ≢ x) xs × Distinct xs

pub All-map {ℓ κ μ} :
    {A : Type ℓ} {P : A → Type κ} {Q : A → Type μ} (xs : List A)
    → ((x : A) → P x → Q x)
    → All P xs
    → All Q xs
All-map [] f h = tt
All-map (x ∷ xs) f h = (f x h.0, All-map xs f h.1)

pub length-range_from : (start n : ℕ) → length (range_from start n) ≡ n
length-range_from start zero = refl
length-range_from start (suc n) = ap suc (length-range_from (suc start) n)

pub length-map {ℓ κ} :
    {A : Type ℓ} {B : Type κ} (f : A → B) (xs : List A) → length (map f xs) ≡ length xs
length-map f [] = refl
length-map f (x ∷ xs) = ap suc (length-map f xs)

pub get_or-map_range :
    (f : ℕ → ℕ) (start n i d : ℕ) → i < n → get_or (map f (range_from start n)) i d ≡ f (start + i)
get_or-map_range f start zero i d h = absurd (omega arith)
get_or-map_range f start (suc n) zero d h = ap f (omega arith)
get_or-map_range f start (suc n) (suc i) d h =
    let here : get_or (map f (range_from (suc start) n)) i d ≡ f (suc start + i) =
      get_or-map_range f (suc start) n i d (omega arith) in
    let shift : suc start + i ≡ start + suc i = omega arith in rw (← shift) here

pub All-range_from :
    (bound start n : ℕ)
    → start + n ≤ bound
    → All (λ x. (start ≤ x) × (x < bound)) (range_from start n)
All-range_from bound start zero h = tt
All-range_from bound start (suc n) h = (
  omega arith,
  All-map (range_from (suc start) n) (λ x p. omega arith)
      (All-range_from bound (suc start) n (omega arith)),
)

pub Distinct-range_from : (start n : ℕ) → Distinct (range_from start n)
Distinct-range_from start zero = tt
Distinct-range_from start (suc n) = (
  All-map (range_from (suc start) n) (λ x p. omega arith)
      (All-range_from (suc start + n) (suc start) n (omega arith)),
  Distinct-range_from (suc start) n,
)

-- The list without its first `n`.
without : ℕ → List ℕ → List ℕ
without n [] = []
without n (x ∷ xs) = if x == n then xs else x ∷ without n xs

All-without {κ} : (P : ℕ → Type κ) (n : ℕ) (xs : List ℕ) → All P xs → All P (without n xs)
unfolding without
All-without P n [] h = tt
All-without P n (x ∷ xs) h = elim (x == n) as (λ b. All P (if b then xs else x ∷ without n xs)) [
  | true ↦ h.1
  | false ↦ (h.0, All-without P n xs h.1)
]

Distinct-without : (n : ℕ) (xs : List ℕ) → Distinct xs → Distinct (without n xs)
unfolding without
Distinct-without n [] d = tt
Distinct-without n (x ∷ xs) d =
    elim (x == n) as (λ b. Distinct (if b then xs else x ∷ without n xs)) [
      | true ↦ d.1
      | false ↦ (All-without (λ y. y ≢ x) n xs d.0, Distinct-without n xs d.1)
    ]

All-lt-without :
    (n : ℕ) (xs : List ℕ) → Distinct xs → All (λ x. x < suc n) xs → All (λ x. x < n) (without n xs)
unfolding without
All-lt-without n [] d h = tt
All-lt-without n (x ∷ xs) d h = elim (dec_eq x n) [
  | yes e ↦ rw (eq→== x n e) (both xs d.0 h.1 e)
  | no ne ↦ rw (ne→== x n ne) (omega arith, All-lt-without n xs d.1 h.1)
]
  where
    both :
        (ys : List ℕ) → All (λ y. y ≢ x) ys → All (λ y. y < suc n) ys → x ≡ n → All (λ y. y < n) ys
    both [] a b e = tt
    both (y ∷ ys) a b e = (omega arith, both ys a.1 b.1 e)

length-without : (n : ℕ) (xs : List ℕ) → length xs ≤ suc (length (without n xs))
unfolding without
length-without n [] = omega arith
length-without n (x ∷ xs) = ground (arith, length-without n xs)

-- Distinct numbers below `n` are at most `n`.
pub pigeonhole : (n : ℕ) (xs : List ℕ) → Distinct xs → All (λ x. x < n) xs → length xs ≤ n
pigeonhole zero [] d h = omega arith
pigeonhole zero (x ∷ xs) d h = absurd (omega arith)
pigeonhole (suc n) xs d h = omega (
  arith,
  length-without n xs,
  pigeonhole n (without n xs) (Distinct-without n xs d) (All-lt-without n xs d h),
)
