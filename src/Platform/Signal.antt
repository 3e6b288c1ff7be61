-- ===== src/Platform/Signal.antt =====
-- The flags of crates/entangle-platform/src/signal.rs that signals set and a process polls.
pub mod Delivery
mod Tests
use entangle.Prelude.{ℕ, Bool, true, false, ◌==◌, if◌then◌else◌, Result, ok, err}
use entangle.Platform.Errors.{PlatformError, signal}

pub record Flags : Type 0 where
  pub shutdown : Bool
  pub sigterm : Bool
  pub sigint : Bool

-- The numbers of libc on Linux.
abbrev pub sigterm_number : ℕ
sigterm_number = 15

abbrev pub sigint_number : ℕ
sigint_number = 2

unfoldable pub signal_handler : ℕ → Flags → Flags
signal_handler sig f =
    let f' = record f { shutdown = true } in
    if sig == sigterm_number
    then record f' { sigterm = true }
    else if sig == sigint_number
    then record f' { sigint = true }
    else f'

-- `install`, with what the two calls of signal(2) answer.
unfoldable pub install : Bool → Bool → Result PlatformError (Unit {0})
install term_installed int_installed =
    if term_installed then if int_installed then ok tt else err signal else err signal

abbrev pub shutdown_requested : Flags → Bool
shutdown_requested f = f.shutdown

abbrev pub sigterm_received : Flags → Bool
sigterm_received f = f.sigterm

abbrev pub sigint_received : Flags → Bool
sigint_received f = f.sigint

unfoldable pub reset : Flags → Flags
reset f = record { shutdown = false; sigterm = false; sigint = false }
