-- ===== src/Lockfree/SpscQueue/Capacity.antt =====
-- The capacity that `SpscQueue::new` rounds its request to, and the queue that it makes.
use entangle.Prelude.{
  ℕ, zero, suc, ◌+◌, ◌*◌, ◌^◌, ◌≤◌, ◌<◌, ◌≡◌, refl, ◌⊎◌, inl, inr, [], max, leb, Bool-cases,
  length-replicate, arith, dec_lt,
}
use native.Mathlib.Nat.{pow-suc, pow-le-pow_right}
use entangle.Lockfree.SpscQueue.{len, doubled_until, next_power_of_two, new}
use entangle.Lockfree.SpscQueue.Inv.{IsValid, contents}

-- The least power of two that reaches `n`.
pub record Rounds (n r : ℕ) : Type 0 where
  pub log : ℕ
  pub power : r ≡ 2 ^ log
  pub reaches : n ≤ r
  pub least : (r ≡ 1) ⊎ (r < 2 * n)

lt-two-pow : (n : ℕ) → n < 2 ^ n
lt-two-pow zero = omega arith
lt-two-pow (suc n) = omega (arith, pow-suc 2 n, lt-two-pow n)

doubled_until-Rounds :
    (fuel k n p : ℕ)
    → p ≡ 2 ^ k
    → n ≤ 2 ^ (k + fuel)
    → (p ≡ 1) ⊎ (p < 2 * n)
    → Rounds n (doubled_until fuel p n)
unfolding doubled_until
doubled_until-Rounds zero k n p e enough small = record {
  log = k;
  power = e;
  reaches = let s : k + 0 ≡ k = omega arith in rw (e, ← s) enough;
  least = small;
}
doubled_until-Rounds (suc fuel) k n p e enough small = elim (Bool-cases (leb n p)) [
  | inl done ↦ rw done (record { log = k; power = e; reaches = ground arith; least = small })
  | inr more ↦ rw more (
      doubled_until-Rounds fuel (suc k) n (2 * p) (omega (arith, pow-suc 2 k))
        (let s : suc k + fuel ≡ k + suc fuel = omega arith in rw s enough) (inr (ground arith)))
]

pub next_power_of_two-Rounds : (n : ℕ) → Rounds n (next_power_of_two n)
unfolding next_power_of_two
next_power_of_two-Rounds n =
    doubled_until-Rounds n 0 n 1 refl
      (let s : 0 + n ≡ n = omega arith in rw s (omega (arith, lt-two-pow n))) (inl refl)

log-lt : (k b : ℕ) → 2 ^ k < 2 ^ b → k < b
log-lt k b h = elim (dec_lt k b) [
  | yes lt ↦ lt
  | no ge ↦
      absurd (omega (arith, pow-le-pow_right {n = 2} (omega arith) {i = b} {j = k} (omega arith)))
]

capacity-power : (n : ℕ) → n ≤ 2 ^ 63 → (k : ℕ) × (max (next_power_of_two n) 2 ≡ 2 ^ k) × (k < 64)
capacity-power n h = from (next_power_of_two-Rounds n)
  where
    from :
        Rounds n (next_power_of_two n) → (k : ℕ) × (max (next_power_of_two n) 2 ≡ 2 ^ k) × (k < 64)
    from r = elim (dec_lt (next_power_of_two n) 2) [
      | yes small ↦ (1, omega arith, omega arith)
      | no big ↦ (r.log, omega (arith, r.power), log-lt r.log 64 (omega (arith, r.power, r.least)))
    ]

-- For every requested capacity up to 2^63, new makes a valid empty ring that has at least the
-- requested capacity, and less than twice as much unless it is 2.
pub new-IsValid :
    (requested : ℕ)
    → requested ≤ 2 ^ 63
    → IsValid (new requested)
      × (contents (new requested) ≡ [])
      × (requested ≤ (new requested).capacity)
      × (((new requested).capacity ≡ 2) ⊎ ((new requested).capacity < 2 * requested))
unfolding new len
new-IsValid requested h = (
  record {
    log = (capacity-power requested h).0;
    log_small = (capacity-power requested h).2;
    sized = (capacity-power requested h).1;
    masked = refl;
    stored = length-replicate (max (next_power_of_two requested) 2) 0;
    write_word = omega arith;
    read_word = omega arith;
    fits = omega arith;
  },
  refl,
  ground (arith, (next_power_of_two-Rounds requested).reaches),
  ground (arith, (next_power_of_two-Rounds requested).least),
)
