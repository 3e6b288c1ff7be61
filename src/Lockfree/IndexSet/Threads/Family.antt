-- ===== src/Lockfree/IndexSet/Threads/Family.antt =====
-- Sums over the threads.
use entangle.Prelude.{
  ℕ, zero, suc, ◌+◌, ◌≤◌, ◌<◌, ◌≡◌, refl, ap, ◌≢◌, List, [], ◌∷◌, arith, length, get_or, set,
  replicate,
}
use entangle.Lockfree.IndexSet.Threads.{Thread, resting}

abbrev pub total : (Thread → ℕ) → List Thread → ℕ
total w [] = 0
total w (x ∷ xs) = w x + total w xs

module _ (w : Thread → ℕ) where
  pub total-set :
      (xs : List Thread) (t : ℕ) (x : Thread)
      → t < length xs
      → total w (set xs t x) + w (get_or xs t resting) ≡ total w xs + w x
  total-set [] t x h = absurd (omega arith)
  total-set (y ∷ ys) zero x h = omega arith
  total-set (y ∷ ys) (suc t) x h = let rest = total-set ys t x (omega arith) in omega arith

  pub total_one : (xs : List Thread) (t : ℕ) → t < length xs → w (get_or xs t resting) ≤ total w xs
  total_one [] t h = absurd (omega arith)
  total_one (y ∷ ys) zero h = omega arith
  total_one (y ∷ ys) (suc t) h = let rest = total_one ys t (omega arith) in omega arith

  -- Two threads together have at most what all have.
  pub total_two :
      (xs : List Thread) (t u : ℕ)
      → t < length xs
      → u < length xs
      → t ≢ u
      → w (get_or xs t resting) + w (get_or xs u resting) ≤ total w xs
  total_two [] t u h k ne = absurd (omega arith)
  total_two (y ∷ ys) zero zero h k ne = absurd (ne refl)
  total_two (y ∷ ys) zero (suc u) h k ne = let rest = total_one ys u (omega arith) in omega arith
  total_two (y ∷ ys) (suc t) zero h k ne = let rest = total_one ys t (omega arith) in omega arith
  total_two (y ∷ ys) (suc t) (suc u) h k ne =
      let rest = total_two ys t u (omega arith) (omega arith) (λ e. ne (ap suc e)) in omega arith

  pub total-replicate : (n : ℕ) → w resting ≡ 0 → total w (replicate n resting) ≡ 0
  total-replicate zero e = refl
  total-replicate (suc n) e = let rest = total-replicate n e in omega arith
