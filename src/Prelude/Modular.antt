-- ===== src/Prelude/Modular.antt =====
-- Remainders by a power of two that divides the word size, and steps round a ring.
use Prim.Native.Nat.{ℕ, zero, suc, ◌+◌, ◌-◌, ◌%◌, ◌^◌, ◌≤◌, ◌<◌, ◌∣◌}
use mathlib.Core.Path.{◌≡◌, subst, sym, ap, ◌∙◌}
use mathlib.Core.Logic.{◌≢◌}
use native.Mathlib.Nat.{
  dvd_refl, dvd-mul_right_of_dvd, pow-suc, mod-mod_of_dvd, mod-add-mod, mod-eq_of_lt,
  mod-eq-sub-mod, mod-lt,
}
use native.Mathlib.Decide.{dec_lt}
use native.Mathlib.Omega.{arith}

pow-dvd-pow : (k d n : ℕ) → k + d ≡ n → 2 ^ k ∣ 2 ^ n
pow-dvd-pow k zero n e =
    let e' : k ≡ n = omega arith in subst (λ m. 2 ^ k ∣ 2 ^ m) e' (dvd_refl (2 ^ k))
pow-dvd-pow k (suc d) zero e = absurd (omega arith)
pow-dvd-pow k (suc d) (suc n) e =
    rw pow-suc (dvd-mul_right_of_dvd (2 ^ k) (pow-dvd-pow k d n (omega arith)) 2)

-- Wrapping at 64 bits does not change the low `k` bits.
pub mod-word-mod : (k x : ℕ) → k ≤ 64 → x % 2 ^ 64 % 2 ^ k ≡ x % 2 ^ k
mod-word-mod k x h = mod-mod_of_dvd (2 ^ k) {b = 2 ^ 64} x (pow-dvd-pow k (64 - k) 64 (omega arith))

pub suc-mod-congr : (c p q : ℕ) → p % c ≡ q % c → (p + 1) % c ≡ (q + 1) % c
suc-mod-congr c p q e = sym (mod-add-mod p c 1) ∙ ap (λ (r : ℕ). (r + 1) % c) e ∙ mod-add-mod q c 1

-- Fewer than `c` steps round a ring of size `c` do not come back.
pub add-mod-ne : (c p n : ℕ) → suc n < c → (p + suc n) % c ≢ p % c
add-mod-ne c p n h = elim (dec_lt (p % c + suc n) c) [
  | yes inside ↦ omega (arith, mod-add-mod p c (suc n), mod-eq_of_lt inside)
  | no over ↦ omega (
    arith,
    mod-add-mod p c (suc n),
    mod-lt p {m = c} (omega arith),
    mod-eq-sub-mod {n = p % c + suc n} {m = c} (omega arith),
    mod-eq_of_lt {n = p % c + suc n - c} {m = c} (omega (arith, mod-lt p {m = c} (omega arith))),
  )
]
