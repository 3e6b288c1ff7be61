-- ===== src/Prelude/Outcome.antt =====
-- Rust's `Result`, and panics: an operation that may panic returns an `Option`, `none` for the panic.
use mathlib.Core.Path.{◌≡◌, sym, subst, ◌∙◌}
use mathlib.Core.Option.{Option, none, some, some-injective}
use mathlib.Core.Bool.{Bool, true, false}

pub data Result (E A : Type 0) : Type 0 where
  ok : A → Result E A
  err : E → Result E A

-- `map_err`.
abbrev pub map_err : {E F A : Type 0} → (E → F) → Result E A → Result F A
map_err f (ok a) = ok a
map_err f (err e) = err (f e)

-- Sequencing of operations that may panic.
infixl 5 ◌>>=◌ ◌>>◌
abbrev pub ◌>>=◌ {ℓ κ} : {A : Type ℓ} {B : Type κ} → Option A → (A → Option B) → Option B
none >>= f = none
some a >>= f = f a

abbrev pub ◌>>◌ {ℓ} : {B : Type ℓ} → Option (Unit {0}) → Option B → Option B
m >> k = m >>= λ _. k

-- `assert!`: a panic unless the test holds.
abbrev pub assert : Bool → Option (Unit {0})
assert true = some tt
assert false = none

-- What holds of an outcome, under another name of it.
pub along_some {ℓ κ} :
    {A : Type ℓ} (P : A → Type κ) {o : Option A} {x y : A} → o ≡ some x → o ≡ some y → P x → P y
along_some P {x = x} {y = y} e f h = subst P (some-injective x y (sym e ∙ f)) h
