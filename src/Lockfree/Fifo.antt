-- ===== src/Lockfree/Fifo.antt =====
-- The abstract bounded queue that `SpscQueue` implements: the words in order, oldest first.
use entangle.Prelude.{
  ℕ, Bool, true, false, List, [], ◌∷◌, ◌++◌, Option, none, some, length, leb, if◌then◌else◌,
}

unfoldable pub push : ℕ → ℕ → List ℕ → Bool × List ℕ
push cap x xs = if leb cap (length xs) then (false, xs) else (true, xs ++ (x ∷ []))

unfoldable pub pop : List ℕ → Option ℕ × List ℕ
pop [] = (none, [])
pop (x ∷ xs) = (some x, xs)
