-- ===== src/Service.antt =====
-- The services of crates/entangle/src/service: their static configuration, the registry, their
-- lifecycle, and the names of crates/entangle/src/contracts.rs.
pub mod Name
pub mod Config
pub mod Registry
pub mod Lifecycle
pub mod Payload
pub mod PubSub
pub mod Event
pub mod ReqRes
pub mod Blackboard
pub mod Patterns
