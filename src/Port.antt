-- ===== src/Port.antt =====
-- The ports of crates/entangle/src/port.
pub mod Publisher
pub mod Subscriber
pub mod PubSub
pub mod ReqRes
pub mod WaitSet
pub mod Event
pub mod Blackboard
