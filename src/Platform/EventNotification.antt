-- ===== src/Platform/EventNotification.antt =====
-- `EventNotification` of crates/entangle-platform/src/event.rs as it is built on Linux, over eventfd(2).
-- The system calls are a record of functions on the kernel's state; `Laws` says what their manual pages do.
pub mod Laws
pub mod Delivery
pub mod Table
mod Tests
use entangle.Prelude.{
  ℕ, ◌-◌, ◌^◌, bit_and, bit_or, Bool, true, false, Option, none, some, Result, ok, err,
  if◌then◌else◌,
}
use entangle.Platform.Errors.{PlatformError, event}

-- `eventfd(0, EFD_CLOEXEC)`; a write of the number 1 and a read, each with whether 8 bytes were moved;
-- the two uses of fcntl(2); and whether the last error is `WouldBlock`.
pub record Kernel : Type 1 where
  pub State : Type 0
  pub eventfd : State → Option ℕ × State
  pub write_one : ℕ → State → Bool × State
  pub read_word : ℕ → State → Bool × State
  pub get_flags : ℕ → State → Option ℕ × State
  pub set_flags : ℕ → ℕ → State → Bool × State
  pub would_block : State → Bool

pub record EventNotification : Type 0 where
  pub fd : ℕ

-- `O_NONBLOCK`.
abbrev pub nonblock : ℕ
nonblock = 2 ^ 11

module _ (K : Kernel) where
  opened : Option ℕ × K.State → Result PlatformError EventNotification × K.State
  opened (some fd, s) = (ok (record { fd = fd }), s)
  opened (none, s) = (err event, s)

  -- `new_eventfd`.
  unfoldable pub new : K.State → Result PlatformError EventNotification × K.State
  unfolding opened
  new s = opened (K.eventfd s)

  abbrev checked : Bool × K.State → Result PlatformError (Unit {0}) × K.State
  checked (true, s) = (ok tt, s)
  checked (false, s) = (err event, s)

  unfoldable pub notify : EventNotification → K.State → Result PlatformError (Unit {0}) × K.State
  notify e s = checked (K.write_one e.fd s)

  -- The answer of a wait that returns.
  unfoldable pub wait : EventNotification → K.State → Result PlatformError (Unit {0}) × K.State
  wait e s = checked (K.read_word e.fd s)

  abbrev with_flags : ℕ → Bool → Option ℕ × K.State → Result PlatformError (Unit {0}) × K.State
  with_flags fd on (none, s) = (err event, s)
  with_flags fd on (some flags, s) =
      let new_flags = if on then bit_or flags nonblock else bit_and flags (2 ^ 32 - 1 - nonblock) in
      checked (K.set_flags fd new_flags s)

  unfoldable pub set_nonblocking : ℕ → Bool → K.State → Result PlatformError (Unit {0}) × K.State
  set_nonblocking fd on s = with_flags fd on (K.get_flags fd s)

  -- The end of `try_wait`: what the read answered, and how the flag was taken away again.
  abbrev tried :
      Result PlatformError (Unit {0})
      → Result PlatformError (Unit {0}) × K.State
      → Result PlatformError Bool × K.State
  tried result (err e, s) = (err e, s)
  tried (ok done) (ok cleared, s) = (ok true, s)
  tried (err e) (ok cleared, s) = if K.would_block s then (ok false, s) else (err event, s)

  abbrev read_and_clear :
      ℕ → Result PlatformError (Unit {0}) × K.State → Result PlatformError Bool × K.State
  read_and_clear fd (result, s) = tried result (set_nonblocking fd false s)

  abbrev try_with :
      EventNotification
      → Result PlatformError (Unit {0}) × K.State
      → Result PlatformError Bool × K.State
  try_with e (err bad, s) = (err bad, s)
  try_with e (ok done, s) = read_and_clear e.fd (wait e s)

  unfoldable pub try_wait : EventNotification → K.State → Result PlatformError Bool × K.State
  unfolding set_nonblocking wait
  try_wait e s = try_with e (set_nonblocking e.fd true s)
