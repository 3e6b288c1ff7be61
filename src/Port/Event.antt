-- ===== src/Port/Event.antt =====
-- The ports of events: crates/entangle/src/port/notifier.rs and port/listener.rs. Each port makes an
-- event notification of its own.
pub mod Delivery
mod Tests
use Prim.Native.String.{String}
use entangle.Prelude.{ℕ, Bool, Result, ok, err}
use entangle.Platform.Errors.{PlatformError}
use entangle.Platform.EventNotification
use entangle.Platform.EventNotification.{Kernel, EventNotification}
use entangle.Errors.{IpcError, platform}

pub record Notifier : Type 0 where
  pub service_name : String
  pub event : EventNotification

pub record Listener : Type 0 where
  pub service_name : String
  pub event : EventNotification

module _ (K : Kernel) where
  -- `?` on an answer of the platform.
  abbrev pub lifted : {A : Type 0} → Result PlatformError A × K.State → Result IpcError A × K.State
  lifted (ok a, s) = (ok a, s)
  lifted (err e, s) = (err (platform e), s)

  abbrev notifier_on :
      String → Result PlatformError EventNotification × K.State → Result IpcError Notifier × K.State
  notifier_on name (ok event, s) = (ok (record { service_name = name; event = event }), s)
  notifier_on name (err e, s) = (err (platform e), s)

  -- `NotifierBuilder::create`.
  unfoldable pub create_notifier : String → K.State → Result IpcError Notifier × K.State
  create_notifier name s = notifier_on name (EventNotification.new K s)

  abbrev listener_on :
      String → Result PlatformError EventNotification × K.State → Result IpcError Listener × K.State
  listener_on name (ok event, s) = (ok (record { service_name = name; event = event }), s)
  listener_on name (err e, s) = (err (platform e), s)

  -- `ListenerBuilder::create`.
  unfoldable pub create_listener : String → K.State → Result IpcError Listener × K.State
  create_listener name s = listener_on name (EventNotification.new K s)

  unfoldable pub notify : Notifier → K.State → Result IpcError (Unit {0}) × K.State
  notify n s = lifted (EventNotification.notify K (n.event) s)

  unfoldable pub wait : Listener → K.State → Result IpcError (Unit {0}) × K.State
  wait l s = lifted (EventNotification.wait K (l.event) s)

  unfoldable pub try_wait : Listener → K.State → Result IpcError Bool × K.State
  try_wait l s = lifted (EventNotification.try_wait K (l.event) s)

abbrev pub raw_fd : Listener → ℕ
raw_fd l = l.event.fd
