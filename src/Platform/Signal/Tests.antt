-- ===== src/Platform/Signal/Tests.antt =====
-- An instance of the theorem on signals.
use entangle.Prelude.{◌≡◌, true, [], ◌∷◌}
use entangle.Platform.Signal.{
  Flags, sigterm_number, sigint_number, shutdown_requested, sigterm_received, sigint_received,
  reset,
}
use entangle.Platform.Signal.Delivery.{deliver, has, some_signal, deliver-reset}

abbrev all_set : Flags
all_set = record { shutdown = true; sigterm = true; sigint = true }

deliver-reset_instance :
    (sigterm_received (deliver (2 ∷ 2 ∷ []) (reset all_set)) ≡ has sigterm_number (2 ∷ 2 ∷ []))
    × (sigint_received (deliver (2 ∷ 2 ∷ []) (reset all_set)) ≡ has sigint_number (2 ∷ 2 ∷ []))
    × (shutdown_requested (deliver (2 ∷ 2 ∷ []) (reset all_set)) ≡ some_signal (2 ∷ 2 ∷ []))
deliver-reset_instance = deliver-reset (2 ∷ 2 ∷ []) all_set
