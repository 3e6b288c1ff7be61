-- ===== src/Prelude/Digits.antt =====
-- The bits of a number, and what `|` and `&` do to each.
use Prim.Native.Nat.{ℕ, zero, suc, ◌-◌, ◌*◌, ◌/◌, ◌%◌, ◌^◌, ◌≤◌, ◌<◌, min, max, bit_and, bit_or}
use mathlib.Core.Path.{◌≡◌, refl, ap, ◌∙◌}
use mathlib.Core.Logic.{◌≢◌}
use native.Mathlib.Nat.{pow-suc, one-le-pow, pow-le-pow_right}
use native.Mathlib.Omega.{arith}
use entangle.Prelude.Bits.{bit_or-digit, bit_and-digit, bit_and-zero}

abbrev pub bit : ℕ → ℕ → ℕ
bit zero w = w % 2
bit (suc j) w = bit j (w / 2)

pub bit-le : (j w : ℕ) → bit j w ≤ 1
bit-le zero w = omega arith
bit-le (suc j) w = bit-le j (w / 2)

pub bit-bit_or : (j a b : ℕ) → bit j (bit_or a b) ≡ max (bit j a) (bit j b)
bit-bit_or zero a b = ground (arith, bit_or-digit a b)
bit-bit_or (suc j) a b =
    let half : bit_or a b / 2 ≡ bit_or (a / 2) (b / 2) = ground (arith, bit_or-digit a b) in
    ap (bit j) half ∙ bit-bit_or j (a / 2) (b / 2)

pub bit-bit_and : (j a b : ℕ) → bit j (bit_and a b) ≡ min (bit j a) (bit j b)
bit-bit_and zero a b = ground (arith, bit_and-digit a b)
bit-bit_and (suc j) a b =
    let half : bit_and a b / 2 ≡ bit_and (a / 2) (b / 2) = ground (arith, bit_and-digit a b) in
    ap (bit j) half ∙ bit-bit_and j (a / 2) (b / 2)

bit-zero : (j : ℕ) → bit j 0 ≡ 0
bit-zero zero = refl
bit-zero (suc j) = bit-zero j

pow-half : (k : ℕ) → 2 ^ suc k / 2 ≡ 2 ^ k
pow-half k = omega (arith, pow-suc 2 k)

pub bit_self-pow : (k : ℕ) → bit k (2 ^ k) ≡ 1
bit_self-pow zero = refl
bit_self-pow (suc k) = ap (bit k) (pow-half k) ∙ bit_self-pow k

pub bit_other-pow : (j k : ℕ) → j ≢ k → bit j (2 ^ k) ≡ 0
bit_other-pow zero zero ne = absurd (ne refl)
bit_other-pow zero (suc k) ne = omega (arith, pow-suc 2 k)
bit_other-pow (suc j) zero ne = bit-zero j
bit_other-pow (suc j) (suc k) ne = ap (bit j) (pow-half k) ∙ bit_other-pow j k (λ e. ne (ap suc e))

-- All ones, of `n` bits.
bit-ones : (n j : ℕ) → j < n → bit j (2 ^ n - 1) ≡ 1
bit-ones zero j lt = absurd (omega arith)
bit-ones (suc n) zero lt = omega (arith, pow-suc 2 n, one-le-pow n 2)
bit-ones (suc n) (suc j) lt =
    let half : (2 ^ suc n - 1) / 2 ≡ 2 ^ n - 1 = omega (arith, pow-suc 2 n, one-le-pow n 2) in
    ap (bit j) half ∙ bit-ones n j (omega arith)

pow-lt : (k n : ℕ) → k < n → 2 ^ k * 2 ≤ 2 ^ n
pow-lt k n lt =
    omega (arith, pow-suc 2 k, pow-le-pow_right {n = 2} (omega arith) {i = suc k} {j = n} lt)

-- All ones but one.
pub bit_self-complement : (n k : ℕ) → k < n → bit k (2 ^ n - 1 - 2 ^ k) ≡ 0
bit_self-complement zero k lt = absurd (omega arith)
bit_self-complement (suc n) zero lt = omega (arith, pow-suc 2 n, one-le-pow n 2)
bit_self-complement (suc n) (suc k) lt =
    let half : (2 ^ suc n - 1 - 2 ^ suc k) / 2 ≡ 2 ^ n - 1 - 2 ^ k =
      omega (arith, pow-suc 2 n, pow-suc 2 k, one-le-pow n 2, pow-lt k n (omega arith)) in
    ap (bit k) half ∙ bit_self-complement n k (omega arith)

pub bit_other-complement : (n j k : ℕ) → j < n → k < n → j ≢ k → bit j (2 ^ n - 1 - 2 ^ k) ≡ 1
bit_other-complement zero j k lt lk ne = absurd (omega arith)
bit_other-complement (suc n) zero zero lt lk ne = absurd (ne refl)
bit_other-complement (suc n) zero (suc k) lt lk ne =
    omega (arith, pow-suc 2 n, pow-suc 2 k, one-le-pow n 2, pow-lt k n (omega arith))
bit_other-complement (suc n) (suc j) zero lt lk ne =
    let half : (2 ^ suc n - 1 - 1) / 2 ≡ 2 ^ n - 1 = omega (arith, pow-suc 2 n, one-le-pow n 2) in
    ap (bit j) half ∙ bit-ones n j (omega arith)
bit_other-complement (suc n) (suc j) (suc k) lt lk ne =
    let half : (2 ^ suc n - 1 - 2 ^ suc k) / 2 ≡ 2 ^ n - 1 - 2 ^ k =
      omega (arith, pow-suc 2 n, pow-suc 2 k, one-le-pow n 2, pow-lt k n (omega arith)) in
    ap (bit j) half ∙ bit_other-complement n j k (omega arith) (omega arith) (λ e. ne (ap suc e))

-- A test of one bit.
pub bit_and-pow : (k w : ℕ) → bit_and w (2 ^ k) ≡ bit k w * 2 ^ k
bit_and-pow zero w = ground (arith, bit_and-digit w 1, bit_and-zero (w / 2))
bit_and-pow (suc k) w =
    let scaled : bit k (w / 2) * 2 ^ suc k ≡ 2 * (bit k (w / 2) * 2 ^ k) =
      omega (arith, ap (λ (t : ℕ). bit k (w / 2) * t) (pow-suc 2 k)) in
    ground
      (arith, bit_and-digit w (2 ^ suc k), pow-half k, pow-suc 2 k, bit_and-pow k (w / 2), scaled)
