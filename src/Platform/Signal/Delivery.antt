-- ===== src/Platform/Signal/Delivery.antt =====
-- What the flags tell after any sequence of signals.
use entangle.Prelude.{
  ℕ, ◌≡◌, refl, sym, ap, ◌∙◌, inl, inr, Bool, true, false, ◌||◌, List, [], ◌∷◌, arith, ℕ_discrete,
  ◌==◌, eq→==, ne→==, Bool-cases,
}
use entangle.Platform.Signal.{
  Flags, sigterm_number, sigint_number, signal_handler, shutdown_requested, sigterm_received,
  sigint_received, reset,
}

-- The handler runs for one signal after the other.
unfoldable pub deliver : List ℕ → Flags → Flags
deliver [] f = f
deliver (sig ∷ sigs) f = deliver sigs (signal_handler sig f)

abbrev pub has : ℕ → List ℕ → Bool
has n [] = false
has n (x ∷ xs) = (x == n) || has n xs

abbrev pub some_signal : List ℕ → Bool
some_signal [] = false
some_signal (x ∷ xs) = true

or-true : (a : Bool) → (a || true) ≡ true
or-true true = refl
or-true false = refl

or_assoc : (a b c : Bool) → ((a || b) || c) ≡ (a || (b || c))
or_assoc true b c = refl
or_assoc false b c = refl

or-false : (a : Bool) → (a || false) ≡ a
or-false true = refl
or-false false = refl

handler-sigterm :
    (sig : ℕ) (f : Flags) → (signal_handler sig f).sigterm ≡ (f.sigterm || (sig == 15))
unfolding signal_handler
handler-sigterm sig f = elim (ℕ_discrete sig 15) [
  | yes e ↦ rw (eq→== sig 15 e) (sym (or-true f.sigterm))
  | no ne ↦ elim (Bool-cases (sig == 2)) [
    | inl int ↦ rw (ne→== sig 15 ne, int) (sym (or-false f.sigterm))
    | inr other ↦ rw (ne→== sig 15 ne, other) (sym (or-false f.sigterm))
  ]
]

handler-sigint : (sig : ℕ) (f : Flags) → (signal_handler sig f).sigint ≡ (f.sigint || (sig == 2))
unfolding signal_handler
handler-sigint sig f = elim (ℕ_discrete sig 15) [
  | yes e ↦ rw (eq→== sig 15 e, ne→== sig 2 (omega arith)) (sym (or-false f.sigint))
  | no ne ↦ elim (Bool-cases (sig == 2)) [
    | inl int ↦ rw (ne→== sig 15 ne, int) (sym (or-true f.sigint))
    | inr other ↦ rw (ne→== sig 15 ne, other) (sym (or-false f.sigint))
  ]
]

handler-shutdown : (sig : ℕ) (f : Flags) → (signal_handler sig f).shutdown ≡ true
unfolding signal_handler
handler-shutdown sig f = elim (Bool-cases (sig == 15)) [
  | inl term ↦ rw term refl
  | inr not_term ↦ elim (Bool-cases (sig == 2)) [
    | inl int ↦ rw (not_term, int) refl
    | inr other ↦ rw (not_term, other) refl
  ]
]

deliver-flags :
    (sigs : List ℕ) (f : Flags)
    → ((deliver sigs f).sigterm ≡ (f.sigterm || has 15 sigs))
      × ((deliver sigs f).sigint ≡ (f.sigint || has 2 sigs))
      × ((deliver sigs f).shutdown ≡ (f.shutdown || some_signal sigs))
unfolding deliver
deliver-flags [] f = (sym (or-false f.sigterm), sym (or-false f.sigint), sym (or-false f.shutdown))
deliver-flags (sig ∷ sigs) f =
    let (term, int, down) = deliver-flags sigs (signal_handler sig f) in
    (
      term
          ∙ ap (λ b. b || has 15 sigs) (handler-sigterm sig f)
          ∙ or_assoc f.sigterm (sig == 15) (has 15 sigs),
      int
          ∙ ap (λ b. b || has 2 sigs) (handler-sigint sig f)
          ∙ or_assoc f.sigint (sig == 2) (has 2 sigs),
      down ∙ ap (λ b. b || some_signal sigs) (handler-shutdown sig f) ∙ sym (or-true f.shutdown),
    )

-- After a reset and any signals in a row, the flags tell whether a SIGTERM, a SIGINT and any signal was
-- among them.
pub deliver-reset :
    (sigs : List ℕ) (f : Flags)
    → let after = deliver sigs (reset f) in
      (sigterm_received after ≡ has sigterm_number sigs)
      × (sigint_received after ≡ has sigint_number sigs)
      × (shutdown_requested after ≡ some_signal sigs)
unfolding reset
deliver-reset sigs f = deliver-flags sigs (reset f)
