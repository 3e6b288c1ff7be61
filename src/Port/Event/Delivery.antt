-- ===== src/Port/Event/Delivery.antt =====
-- Where a notification arrives, and where not.
use Prim.Native.String.{String}
use entangle.Prelude.{ℕ, zero, suc}
use entangle.Platform.EventNotification
use entangle.Platform.EventNotification.{Kernel, EventNotification}
use entangle.Platform.EventNotification.Laws.{Laws}
use entangle.Platform.EventNotification.Delivery
use entangle.Port.Event.{Notifier, notify}

module _ (K : Kernel) where
  -- So many notifications in a row.
  abbrev pub notify_times : ℕ → Notifier → K.State → K.State
  notify_times zero n s = s
  notify_times (suc times) n s = notify_times times n (notify K n s).1
