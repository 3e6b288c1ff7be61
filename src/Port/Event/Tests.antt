-- ===== src/Port/Event/Tests.antt =====
-- A notifier and a listener of one service, and an instance of the theorem on them.
use entangle.Platform.EventNotification.Table.{Table}
