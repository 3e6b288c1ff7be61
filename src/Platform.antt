-- ===== src/Platform.antt =====
-- The operating system abstractions: crates/entangle-platform.
pub mod Errors
pub mod SharedMemory
pub mod FileLock
pub mod ProcessMonitor
pub mod Signal
pub mod EventNotification
