-- ===== src/Lockfree/SpscQueue/Inv.antt =====
-- The representation invariant of `SpscQueue`, and the words that the ring holds.
use entangle.Prelude.{
  ℕ, zero, suc, ◌+◌, ◌-◌, ◌%◌, ◌^◌, ◌≤◌, ◌<◌, ◌≡◌, refl, ap, ap₂, ◌∙◌, List, [], ◌∷◌, ◌++◌, length,
  get_or, set, get_or-set_self, get_or-set_ne, arith,
}
use entangle.Prelude.Modular.{suc-mod-congr, add-mod-ne}
use native.Mathlib.Nat.{add-zero}
use entangle.Lockfree.SpscQueue.{SpscQueue, len}

pub record IsValid (q : SpscQueue) : Type 0 where
  pub log : ℕ
  pub log_small : log < 64
  pub sized : q.capacity ≡ 2 ^ log
  pub masked : q.mask ≡ q.capacity - 1
  pub stored : length q.slots ≡ q.capacity
  pub write_word : q.write_pos < 2 ^ 64
  pub read_word : q.read_pos < 2 ^ 64
  pub fits : len q ≤ q.capacity

-- The `n` words from position `p` on.
abbrev pub window : List ℕ → ℕ → ℕ → ℕ → List ℕ
window slots cap p zero = []
window slots cap p (suc n) = get_or slots (p % cap) 0 ∷ window slots cap (p + 1) n

abbrev pub contents : SpscQueue → List ℕ
contents q = window q.slots q.capacity q.read_pos (len q)

pub length-window : (slots : List ℕ) (cap p n : ℕ) → length (window slots cap p n) ≡ n
length-window slots cap p zero = refl
length-window slots cap p (suc n) = ap suc (length-window slots cap (p + 1) n)

-- A window depends on its position modulo the capacity only.
pub window-congr :
    (slots : List ℕ) (cap p q n : ℕ)
    → p % cap ≡ q % cap
    → window slots cap p n ≡ window slots cap q n
window-congr slots cap p q zero e = refl
window-congr slots cap p q (suc n) e =
    ap₂ ◌∷◌ (ap (λ i. get_or slots i 0) e)
      (window-congr slots cap (p + 1) (q + 1) n (suc-mod-congr cap p q e))

-- A write just past a window extends it by the word written.
pub window-set :
    (slots : List ℕ) (cap x n p i : ℕ)
    → cap ≤ length slots
    → n < cap
    → i ≡ (p + n) % cap
    → window (set slots i x) cap p (suc n) ≡ window slots cap p n ++ (x ∷ [])
window-set slots cap x zero p i big lt e =
    rw (e, add-zero, get_or-set_self slots (p % cap) x 0 (omega arith))
window-set slots cap x (suc n) p i big lt e =
    ap₂ ◌∷◌ (get_or-set_ne slots i (p % cap) x 0 (rw e (add-mod-ne cap p n lt))) (
      window-set slots cap x n (p + 1) i big (omega arith)
        (e ∙ ap (λ (t : ℕ). t % cap) (omega arith)))

-- A write just past a window leaves it as it is.
pub window-set_past :
    (slots : List ℕ) (cap x n p i : ℕ)
    → n < cap
    → i ≡ (p + n) % cap
    → window (set slots i x) cap p n ≡ window slots cap p n
window-set_past slots cap x zero p i lt e = refl
window-set_past slots cap x (suc n) p i lt e =
    ap₂ ◌∷◌ (get_or-set_ne slots i (p % cap) x 0 (rw e (add-mod-ne cap p n lt))) (
      window-set_past slots cap x n (p + 1) i (omega arith)
        (e ∙ ap (λ (t : ℕ). t % cap) (omega arith)))
