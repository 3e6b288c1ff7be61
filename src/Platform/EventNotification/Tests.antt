-- ===== src/Platform/EventNotification/Tests.antt =====
-- Three notifications and the tests for them, after the unit tests of event.rs.
use entangle.Platform.EventNotification.{EventNotification}
use entangle.Platform.EventNotification.Table.{Table}
